-- ===== src/Campaign.antt =====
-- The campaigns of the control commands: `unquarantine` of daemon/unquarantine.py, and the
-- selectors and `Dispatcher.reprocess` of dispatcher.py.
pub mod Selector
pub mod Unquarantine
pub mod Reprocess
pub mod Preview
mod Tests
