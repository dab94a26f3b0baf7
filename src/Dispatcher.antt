-- ===== src/Dispatcher.antt =====
-- src/reroll_sync/dispatcher.py. `Outcome` has the outcome union and its adapters, `Ops` the write
-- operations, `Claim` the derived queues, `Apply` the object that ties them together.
mod Tests
pub mod Outcome
pub mod Ops
pub mod Claim
pub mod Apply
