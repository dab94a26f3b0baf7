-- ===== src/Fsck.antt =====
-- fsck.py: the scan that its checks share, and the checks on the rows of `wheels`.
pub mod Scan
pub mod Checks
mod Tests
