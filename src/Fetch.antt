-- ===== src/Fetch.antt =====
-- src/reroll_sync/fetch.py: the fetch workers, the handoff queue between them and the archive
-- thread, that thread, and the recovery of a segment that a crash left open. Client.antt has the
-- part of pypi_client.py that they call.
pub mod Queue
pub mod Client
pub mod One
pub mod Handoff
pub mod Recover
mod Tests
