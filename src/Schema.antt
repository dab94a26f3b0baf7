-- ===== src/Schema.antt =====
-- src/reroll_sync/schema.py: the states of a wheel and the table of allowed transitions.
pub mod Diagram
mod Tests
use reroll_sync.Base.{ℕ, Bool, true, false, List, [], ◌∷◌, ◌==◌, any}

pub data WheelState : Type 0 where
  need_metadata no_metadata need_convert ready skipped quarantined deleted : WheelState

-- The value that `int(state)` stores in `wheels.state`.
abbrev pub state_code : WheelState → ℕ
state_code need_metadata = 0
state_code no_metadata = 1
state_code need_convert = 2
state_code ready = 3
state_code skipped = 4
state_code quarantined = 5
state_code deleted = 6

-- `wheels.state = ?`
abbrev pub state_eq : WheelState → WheelState → Bool
state_eq s t = state_code s == state_code t

-- `ALLOWED_TRANSITIONS`
unfoldable pub allowed_transitions : WheelState → List WheelState
allowed_transitions need_metadata = need_convert ∷ no_metadata ∷ quarantined ∷ []
allowed_transitions no_metadata = need_metadata ∷ []
allowed_transitions need_convert = ready ∷ skipped ∷ quarantined ∷ []
allowed_transitions ready = need_convert ∷ deleted ∷ []
allowed_transitions skipped = need_convert ∷ []
allowed_transitions quarantined = need_metadata ∷ []
allowed_transitions deleted = []

-- `next_state in ALLOWED_TRANSITIONS[current]`
unfoldable pub is_allowed : WheelState → WheelState → Bool
unfolding allowed_transitions
is_allowed current next_state = any (state_eq next_state) (allowed_transitions current)
