-- ===== src/Schema/Diagram.antt =====
-- The state diagram of docs/pipeline.md as a relation, and the table of schema.py.
use reroll_sync.Base.{◌≡◌, refl, ◌↔◌, true, arith}
use reroll_sync.Schema.{
  WheelState, need_metadata, no_metadata, need_convert, ready, skipped, quarantined, deleted,
  state_eq, is_allowed,
}

pub state_eq_iff : (s t : WheelState) → (state_eq s t ≡ true) ↔ (s ≡ t)
state_eq_iff s t = ground arith

-- The arrows of the diagram, by their labels.
pub data Edge : WheelState → WheelState → Type 0 where
  fetch_archived : Edge need_metadata need_convert
  no_sidecar : Edge need_metadata no_metadata
  sidecar_appears : Edge no_metadata need_metadata
  fetch_exhausted : Edge need_metadata quarantined
  converted : Edge need_convert ready
  refused : Edge need_convert skipped
  convert_exhausted : Edge need_convert quarantined
  upgraded : Edge skipped need_convert
  reprocessed : Edge ready need_convert
  vanished : Edge ready deleted
  unquarantined : Edge quarantined need_metadata

ruleset edges = (
  fetch_archived, no_sidecar, sidecar_appears, fetch_exhausted, converted, refused,
  convert_exhausted, upgraded, reprocessed, vanished, unquarantined,
)

pub Edge-is_allowed : {s t : WheelState} → Edge s t → is_allowed s t ≡ true
unfolding is_allowed
Edge-is_allowed fetch_archived = refl
Edge-is_allowed no_sidecar = refl
Edge-is_allowed sidecar_appears = refl
Edge-is_allowed fetch_exhausted = refl
Edge-is_allowed converted = refl
Edge-is_allowed refused = refl
Edge-is_allowed convert_exhausted = refl
Edge-is_allowed upgraded = refl
Edge-is_allowed reprocessed = refl
Edge-is_allowed vanished = refl
Edge-is_allowed unquarantined = refl

is_allowed-Edge : (s t : WheelState) → is_allowed s t ≡ true → Edge s t
unfolding is_allowed
is_allowed-Edge s t h = grind (arith, edges)

-- The table of allowed transitions holds exactly the arrows of the documented diagram.
pub is_allowed_iff : (s t : WheelState) → (is_allowed s t ≡ true) ↔ Edge s t
is_allowed_iff s t = (is_allowed-Edge s t, Edge-is_allowed)
