-- ===== src/Schema/Tests.antt =====
-- The table of transitions on examples.
use reroll_sync.Base.{◌≡◌, ◌↔◌, true}
use reroll_sync.Schema.{ready, deleted, is_allowed}
use reroll_sync.Schema.Diagram.{Edge, is_allowed_iff}

is_allowed_iff_example : (is_allowed ready deleted ≡ true) ↔ Edge ready deleted
is_allowed_iff_example = is_allowed_iff ready deleted
