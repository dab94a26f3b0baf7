-- ===== src/Dispatcher/Apply/Steps.antt =====
-- The in-flight set and the tables after `apply_outcome`, by its paths.
use reroll_sync.Base.{Option}
use reroll_sync.Base.{ℕ, ◌≡◌, ◌≢◌, refl, ◌∙◌, ap, String, false, List, [], ◌∷◌, arith, ◌==◌}
use reroll_sync.Sql.{delete}
use reroll_sync.Schema.{skipped}
use reroll_sync.Db.{Conn, Stage, Timestamp, Result, ok, err, DbError, Write}
use reroll_sync.Db.Laws.{stage_eq_refl}
use reroll_sync.Writer.{submit_and_wait}
use reroll_sync.Dispatcher.Outcome.{
  QueueItem, Outcome, of_ok, of_skip, of_retry, of_rate_limited, validate_transition,
}
use reroll_sync.Dispatcher.Ops.{Applied, ok_op, skip_op, retry_op}
use reroll_sync.Dispatcher.Claim.{contains}
use reroll_sync.Dispatcher.Apply.{
  Dispatcher, StageState, record_outcome, write_outcome, limit_outcome, apply_outcome, guarded,
  counted,
}

contains-delete : (i : ℕ) (js : List ℕ) → contains i (delete (λ j. j == i) js) ≡ false
unfolding delete
contains-delete i [] = refl
contains-delete i (j ∷ js) = ground (arith, contains-delete i js)

contains-delete_ne :
    (i k : ℕ) (js : List ℕ) → i ≢ k → contains k (delete (λ j. j == i) js) ≡ contains k js
unfolding delete
contains-delete_ne i k [] h = refl
contains-delete_ne i k (j ∷ js) h = ground (arith, contains-delete_ne i k js h)

in_flight-record_outcome :
    (o : Outcome) (r : Applied) (now : Timestamp) (s : StageState)
    → (record_outcome o r now s).queue ≡ s.queue
unfolding record_outcome
in_flight-record_outcome (of_ok o) r now s = refl
in_flight-record_outcome (of_skip o) r now s = refl
in_flight-record_outcome (of_retry o) r now s = ground arith
in_flight-record_outcome (of_rate_limited o) r now s = refl

submit_and_wait-failed :
    (op : Write Applied) (c : Conn) (e : DbError)
    → (submit_and_wait op c).0 ≡ err e
    → (submit_and_wait op c).1.db ≡ c.db
unfolding submit_and_wait
submit_and_wait-failed op c e h = ground arith

module _ {L : Type 0} (penalize : String → ℕ → L → Option L) where
  guarded-failed :
      (r : Result (Unit {0})) (op : Write Applied) (c : Conn) (e : DbError)
      → (guarded penalize r op c).0 ≡ err e
      → (guarded penalize r op c).1.db ≡ c.db
  guarded-failed (ok _) op c e h = submit_and_wait-failed op c e h
  guarded-failed (err x) op c e h = refl

  write_outcome-failed :
      (stage : Stage) (item : QueueItem) (o : Outcome) (now : Timestamp) (jitter : ℕ)
      (d : Dispatcher L) (c : Conn) (e : DbError)
      → (write_outcome penalize stage item o now jitter d c).0 ≡ err e
      → (write_outcome penalize stage item o now jitter d c).1.db ≡ c.db
  unfolding write_outcome
  write_outcome-failed stage item (of_ok o) now jitter d c e h =
      guarded-failed (validate_transition item.state o.next_state) (ok_op stage item.id o now) c e h
  write_outcome-failed stage item (of_skip o) now jitter d c e h =
      guarded-failed (validate_transition item.state skipped)
        (skip_op stage item.id o d.reroll_version now) c e h
  write_outcome-failed stage item (of_retry o) now jitter d c e h =
      submit_and_wait-failed (retry_op stage item o d.max_attempts d.reroll_version now jitter) c e
        h
  write_outcome-failed stage item (of_rate_limited o) now jitter d c e h = refl

  queue-counted :
      (stage : Stage) (o : Outcome) (at : Timestamp) (r : Result Applied) (d : Dispatcher L)
      → ((counted penalize stage o at r d).stages stage).queue ≡ (d.stages stage).queue
  queue-counted stage o at (ok r) d =
      rw (stage_eq_refl stage) (in_flight-record_outcome o r at (d.stages stage))
  queue-counted stage o at (err e) d = refl

  stages-limit_outcome :
      (o : Outcome) (d : Dispatcher L) → (limit_outcome penalize o d).stages ≡ d.stages
  unfolding limit_outcome
  stages-limit_outcome (of_rate_limited o) d = refl
  stages-limit_outcome _ d = refl

  module _ (stage : Stage) (item : QueueItem) (now finished_at : Timestamp) (jitter : ℕ)
      (d : Dispatcher L) (c : Conn) where
    -- the dispatcher and the connection after the call
    abbrev after : Outcome → Dispatcher L × Conn
    after o = (apply_outcome penalize stage item o now finished_at jitter (d, c)).1

    abbrev result : Outcome → Result Applied
    result o = (apply_outcome penalize stage item o now finished_at jitter (d, c)).0

    -- Whatever the outcome, and also where the write raises, the item is no longer in flight
    -- afterwards, and every other item of the stage is in flight exactly if it was before.
    pub apply_outcome-release :
        (o : Outcome)
        → let before = (d.stages stage).queue.in_flight in
          let now_flying = ((after o).0.stages stage).queue.in_flight in
          (contains item.id now_flying ≡ false)
          × ((k : ℕ) → item.id ≢ k → contains k now_flying ≡ contains k before)
    unfolding apply_outcome
    apply_outcome-release o =
        let r = (write_outcome penalize stage item o now jitter d c).0 in
        let d' = limit_outcome penalize o d in
        let flying = (d.stages stage).queue.in_flight in
        let same =
          ap (λ q. q.in_flight)
            (queue-counted stage o finished_at r d'
              ∙ ap (λ f. (f stage).queue) (stages-limit_outcome o d)) in
        rw (stage_eq_refl stage)
          (rw same (contains-delete item.id flying, λ k. contains-delete_ne item.id k flying))

    -- Where the call raises, the tables are as they were.
    pub apply_outcome-failed :
        (o : Outcome) (e : DbError) → result o ≡ err e → (after o).1.db ≡ c.db
    unfolding apply_outcome
    apply_outcome-failed o e h = write_outcome-failed stage item o now jitter d c e h
