-- ===== src/Dispatcher/Ops/Retries.antt =====
-- Failures of one stage of a wheel, one after the other.
use reroll_sync.Base.{
  ℕ, ◌+◌, ◌≤◌, ◌≡◌, refl, ap, ◌∙◌, String, true, some, List, [], ◌∷◌, arith, length,
}
use reroll_sync.Schema.{quarantined, is_allowed}
use reroll_sync.Sql.{find}
use reroll_sync.Db.{Conn, Stage, Timestamp, Wheel, has_id}
use reroll_sync.Dispatcher.Outcome.{QueueItem, Retry}
use reroll_sync.Dispatcher.Ops.{attempts, attempts_of, retry_op}
use reroll_sync.Dispatcher.Ops.Rows.{wheel_at, work_at}
use reroll_sync.Dispatcher.Ops.Attempts.{retry_op_retries, retry_op_quarantines}

module _ (stage : Stage) (item : QueueItem) (max_attempts : ℕ) (version : String) where
  -- one failure, at its time and with its draw of the jitter
  abbrev pub retried : Retry × Timestamp × ℕ → Conn → Conn
  retried (o, now, jitter) c = (retry_op stage item o max_attempts version now jitter c).1

  unfoldable pub retry_all : List (Retry × Timestamp × ℕ) → Conn → Conn
  retry_all [] c = c
  retry_all (o ∷ os) c = retry_all os (retried o c)

  retry_all_within :
      (os : List (Retry × Timestamp × ℕ)) (c : Conn) (w : Wheel)
      → wheel_at item.id c.db ≡ some w
      → attempts item.id stage c.db + length os ≤ max_attempts
      → (wheel_at item.id (retry_all os c).db ≡ some w)
        × (attempts item.id stage (retry_all os c).db ≡ attempts item.id stage c.db + length os)
  unfolding retry_all attempts
  retry_all_within [] c w there h = (there, omega arith)
  retry_all_within ((o, now, jitter) ∷ os) c w there h =
      let (_, _, kept, (row, at, tries, _)) =
        retry_op_retries stage item now c w there o max_attempts version jitter
          (omega (arith, h)) in
      let c' = retried (o, now, jitter) c in
      let counted : attempts_of (work_at item.id stage c'.db)
          ≡ attempts_of (work_at item.id stage c.db) + 1 =
        ap attempts_of at ∙ tries in
      let (same, all) =
        retry_all_within os c' w (ap (find (has_id item.id)) kept ∙ there)
          (omega (arith, h, counted)) in
      (same, omega (arith, all, counted))

  -- A wheel without a failure of the stage, in a state from which it may be quarantined: as many
  -- failures as the budget of attempts leave its row as it was, and the next one quarantines it.
  pub retry_all_quarantines :
      (os : List (Retry × Timestamp × ℕ)) (o : Retry) (now : Timestamp) (jitter : ℕ) (c : Conn)
      (w : Wheel)
      → wheel_at item.id c.db ≡ some w
      → attempts item.id stage c.db ≡ 0
      → length os ≡ max_attempts
      → is_allowed item.state quarantined ≡ true
      → (wheel_at item.id (retry_all os c).db ≡ some w)
        × ((v : Wheel) × (wheel_at item.id (retried (o, now, jitter) (retry_all os c)).db ≡ some v)
            × (v.state ≡ quarantined))
  retry_all_quarantines os o now jitter c w there fresh budget allowed =
      let (same, all) = retry_all_within os c w there (omega (arith, fresh, budget)) in
      let (_, _, parked, _) =
        retry_op_quarantines stage item now (retry_all os c) w same o max_attempts version jitter
          allowed (omega (arith, fresh, budget, all)) in
      (same, (_, parked, refl))
