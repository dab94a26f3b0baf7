-- ===== src/Ingest.antt =====
-- src/reroll_sync/ingest.py: which projects are stale, what changed on a project's page, and the
-- operations that write it.
mod Tests
pub mod Diff
pub mod Plan
pub mod Write
pub mod Stale
pub mod Backoff
