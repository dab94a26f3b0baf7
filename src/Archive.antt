-- ===== src/Archive.antt =====
-- src/reroll_sync/archive: the segment files that hold the archived metadata. A byte is a number
-- below 256 and a file is the list of its bytes.
pub mod Format
pub mod Segment
pub mod Reader
pub mod Store
pub mod Verify
pub mod Tests
