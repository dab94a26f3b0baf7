-- ===== src/Campaign/Selector.antt =====
-- dispatcher.py: the `Selector` union.
use reroll_sync.Base.{String}
use reroll_sync.Schema.{WheelState}

pub data Selector : Type 0 where
  reroll_version_below : String → Selector
  state_selector : WheelState → Selector
  project_selector : String → Selector
  skipped_only : Selector
