-- ===== src/Dispatcher/Tests/Apply.antt =====
-- Outcomes of the two stages, applied.
use reroll_sync.Base.{ℕ, ◌≡◌, ◌≢◌, refl, false, [], ◌∷◌, none, some, ◌≢◌}
use reroll_sync.Schema.{need_metadata, need_convert, ready, skipped, is_allowed}
use reroll_sync.Db.{Wheel, RepodataRow, convert, fetch, ok, illegal_transition, repodata_key}
use reroll_sync.Sql.{find, update}
use reroll_sync.Dispatcher.Outcome.{
  of_ok, of_skip, convert_ok, adapt_convert_outcome, validate_transition,
}
use reroll_sync.Dispatcher.Ops.{done, set_state}
use reroll_sync.Dispatcher.Ops.Rows.{wheel_at, work_at}
use reroll_sync.Dispatcher.Claim.{contains}
use reroll_sync.Dispatcher.Apply.{apply_outcome, write_outcome}
use reroll_sync.Dispatcher.Apply.Payloads.{blob_link_writer-IsPayload}
use reroll_sync.Dispatcher.Apply.Steps.{apply_outcome-release, apply_outcome-failed}
use reroll_sync.Dispatcher.Apply.Legal.{Legal, apply_outcome-Legal}
use reroll_sync.Dispatcher.Apply.Converted.{apply_outcome_converts}
use reroll_sync.Dispatcher.Tests.{
  wheel, tables, conn, converting, fetching, penalize, dispatcher, linked, refusal, converted,
}

apply_outcome-Legal_example :
    Legal 2
      (wheel 2 need_metadata)
      (apply_outcome penalize fetch fetching (of_ok linked) 20 21 5 (dispatcher, conn)).1.1.db
unfolding find set_state update
apply_outcome-Legal_example =
    apply_outcome-Legal penalize fetch fetching 20 21 5 dispatcher conn (wheel 2 need_metadata) refl
      refl (of_ok linked) (blob_link_writer-IsPayload 2 _ _ refl "bb")

apply_outcome_converts_example :
    let outcome = adapt_convert_outcome "1.0" (convert_ok converted) in
    let (r, (d', c')) =
      apply_outcome penalize convert converting outcome 20 21 5 (dispatcher, conn) in
    (r ≡ ok done)
    × ((v : Wheel) × (wheel_at 1 c'.db ≡ some v) × (v.state ≡ ready) × (v.change_seq ≡ 8))
    × ((row : RepodataRow) × (find (repodata_key 1) c'.db.wheel_repodata ≡ some row)
        × (row.repodata ≡ "records")
        × (row.reroll_version ≡ "1.0")
        × (row.requires_prerelease ≡ false))
    × (work_at 1 convert c'.db ≡ none)
unfolding find
apply_outcome_converts_example =
    apply_outcome_converts penalize converting converted 20 21 5 dispatcher conn
      (wheel 1 need_convert) refl refl

apply_outcome-release_example :
    let after =
      (apply_outcome penalize convert converting (of_skip refusal) 20 21 5 (dispatcher, conn)).1 in
    (contains 1 (after.0.stages convert).queue.in_flight ≡ false)
    × ((k : ℕ)
        → 1 ≢ k
        → contains k (after.0.stages convert).queue.in_flight ≡ contains k (1 ∷ 2 ∷ []))
apply_outcome-release_example =
    apply_outcome-release penalize convert converting 20 21 5 dispatcher conn (of_skip refusal)

-- a skip of a wheel that is still to be fetched is not allowed
apply_outcome-failed_example :
    (apply_outcome penalize fetch fetching (of_skip refusal) 20 21 5 (dispatcher, conn)).1.1.db
    ≡ tables
unfolding apply_outcome write_outcome validate_transition is_allowed
apply_outcome-failed_example =
    apply_outcome-failed penalize fetch fetching 20 21 5 dispatcher conn (of_skip refusal)
      (illegal_transition need_metadata skipped) refl
