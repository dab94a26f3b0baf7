-- ===== src/Campaign/Reprocess/Rounds.antt =====
-- dispatcher.py: the loops of `_selector_chunks` with the body of the loop in `reprocess`.
use reroll_sync.Base.{
  ℕ, zero, suc, Bool, true, false, List, [], ◌∷◌, length, Option, none, some, if◌then◌else◌, ltb,
  String, map,
}
use reroll_sync.Schema.{WheelState, skipped}
use reroll_sync.Db.{Conn, Timestamp, Wheel, RepodataRow, SkipRow, ok}
use reroll_sync.Dispatcher.Claim.{Cursor, cursor_of, last_row}
use reroll_sync.Writer.{submit_and_wait}
use reroll_sync.Campaign.Selector.{
  Selector, reroll_version_below, state_selector, project_selector, skipped_only,
}
use reroll_sync.Campaign.Reprocess.{
  Outcome, after_chunk, then_phase, reprocess_chunk_op, project_rows, state_rows, repodata_rows,
  skip_rows, distinct,
}

abbrev pub wheel_ids : List Wheel → List ℕ
wheel_ids = map (λ (w : Wheel). w.id)

abbrev pub repodata_ids : List RepodataRow → List ℕ
repodata_ids = map (λ (r : RepodataRow). r.wheel_id)

abbrev pub skip_ids : List SkipRow → List ℕ
skip_ids rows = distinct [] (map (λ (r : SkipRow). r.wheel_id) rows)

abbrev pub last_id_of : Option Wheel → ℕ
last_id_of none = 0
last_id_of (some w) = w.id

abbrev pub is_empty {ℓ} : {A : Type ℓ} → List A → Bool
is_empty [] = true
is_empty (x ∷ xs) = false

module _ (text_lt : String → String → Bool) (size : ℕ) (clock : ℕ → Timestamp) where
  -- `_project_chunks`
  unfoldable pub project_rounds : ℕ → String → Selector → ℕ → ℕ → Conn → Outcome
  project_rounds zero project selector last_id total c = none
  project_rounds (suc fuel) project selector last_id total c =
      let rows = project_rows project last_id size c.db in
      let ids = wheel_ids rows in
      let round =
        after_chunk (ltb (length rows) size)
          (submit_and_wait (reprocess_chunk_op text_lt ids selector (clock fuel)) c) total
          (project_rounds fuel project selector (last_id_of (last_row rows))) in
      if is_empty rows then some (ok total, c) else round

  -- `_state_chunks`
  unfoldable pub state_rounds : ℕ → WheelState → Selector → Option Cursor → ℕ → Conn → Outcome
  state_rounds zero state selector cursor total c = none
  state_rounds (suc fuel) state selector cursor total c =
      let rows = state_rows text_lt state cursor size c.db in
      let ids = wheel_ids rows in
      let round =
        after_chunk (ltb (length rows) size)
          (submit_and_wait (reprocess_chunk_op text_lt ids selector (clock fuel)) c) total
          (state_rounds fuel state selector (cursor_of (last_row rows))) in
      if is_empty rows then some (ok total, c) else round

  -- the first loop of `_reroll_version_below_chunks`
  unfoldable pub repodata_rounds : ℕ → String → ℕ → Conn → Outcome
  repodata_rounds zero version total c = none
  repodata_rounds (suc fuel) version total c =
      let rows = repodata_rows text_lt version size c.db in
      let ids = repodata_ids rows in
      let round =
        after_chunk (ltb (length rows) size)
          (submit_and_wait
            (reprocess_chunk_op text_lt ids (reroll_version_below version) (clock fuel)) c)
          total (repodata_rounds fuel version) in
      if is_empty rows then some (ok total, c) else round

  -- the second loop
  unfoldable pub skip_rounds : ℕ → String → ℕ → Conn → Outcome
  skip_rounds zero version total c = none
  skip_rounds (suc fuel) version total c =
      let rows = skip_rows text_lt version size c.db in
      let ids = skip_ids rows in
      let round =
        after_chunk (ltb (length rows) size)
          (submit_and_wait
            (reprocess_chunk_op text_lt ids (reroll_version_below version) (clock fuel)) c)
          total (skip_rounds fuel version) in
      if is_empty rows then some (ok total, c) else round

  -- `reprocess` with `_selector_chunks`
  unfoldable pub reprocess : ℕ → Selector → Conn → Outcome
  unfolding project_rounds state_rounds repodata_rounds skip_rounds
  reprocess fuel (reroll_version_below version) c =
      then_phase (repodata_rounds fuel version 0 c) (skip_rounds fuel version)
  reprocess fuel (project_selector project) c =
      project_rounds fuel project (project_selector project) 0 0 c
  reprocess fuel (state_selector state) c = state_rounds fuel state (state_selector state) none 0 c
  reprocess fuel skipped_only c = state_rounds fuel skipped skipped_only none 0 c
