-- ===== src/Ratelimit.antt =====
-- src/reroll_sync/ratelimit.py. `Bucket` is the token bucket, `Hierarchy` the limiter that shares
-- one global bucket among named children.
pub mod Bucket
pub mod Hierarchy
mod Tests
