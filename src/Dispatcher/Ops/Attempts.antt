-- ===== src/Dispatcher/Ops/Attempts.antt =====
-- What a retry leaves behind, within and past the budget of attempts.
use reroll_sync.Base.{ℕ, suc, ◌+◌, ◌≤◌, ◌<◌, ◌≡◌, refl, String, true, false, none, some, arith, ltb}
use reroll_sync.Schema.{quarantined, is_allowed}
use reroll_sync.Db.{Conn, Stage, Timestamp, Wheel, WorkRow, ErrorRow, ok, execute_insert}
use reroll_sync.Dispatcher.Outcome.{
  QueueItem, Retry, compute_backoff, base_backoff, max_backoff, validate_transition,
}
use reroll_sync.Dispatcher.Ops.{
  was_quarantined, was_retried, insert_error, upsert_quarantine, upsert_retry, attempts, quarantine,
  reschedule, retry_op,
}
use reroll_sync.Dispatcher.Ops.Rows.{
  wheel_at, work_at, has_wheel-at, wheel_at-set_state_self, has_wheel-upsert_quarantine,
  work_at-upsert_quarantine, work_at-upsert_retry, merged, rescheduled,
}
use reroll_sync.Dispatcher.Ops.Effects.{stated, has_stated}

module _ (stage : Stage) (item : QueueItem) (now : Timestamp) (c : Conn) where
  abbrev quarantine_row : Retry → ℕ → WorkRow
  quarantine_row outcome tries = record {
    wheel_id = item.id;
    stage = stage;
    attempts = tries;
    next_attempt_at = now;
    last_error = some outcome.details;
    quarantined_at = some now;
  }

  abbrev quarantine_error : Retry → String → ErrorRow
  quarantine_error outcome version = record {
    wheel_id = some item.id;
    error_category = outcome.reason;
    error_subcat = none;
    details = some outcome.details;
    reroll_version = version;
    created_at = now;
  }

  abbrev retry_row : Retry → ℕ → ℕ → WorkRow
  retry_row outcome jitter tries = record {
    wheel_id = item.id;
    stage = stage;
    attempts = tries;
    next_attempt_at = now + compute_backoff base_backoff max_backoff tries jitter;
    last_error = some outcome.details;
    quarantined_at = none;
  }

  retry_op_within :
      (outcome : Retry) (max_attempts : ℕ) (version : String) (jitter : ℕ)
      → attempts item.id stage c.db + 1 ≤ max_attempts
      → retry_op stage item outcome max_attempts version now jitter c
        ≡ reschedule stage item outcome now jitter (attempts item.id stage c.db + 1) c
  unfolding retry_op
  retry_op_within outcome max_attempts version jitter h =
      let tries = attempts item.id stage c.db + 1 in
      rw (let e : ltb max_attempts tries ≡ false = ground arith in e)

  pub retry_op_past :
      (outcome : Retry) (max_attempts : ℕ) (version : String) (jitter : ℕ)
      → max_attempts < attempts item.id stage c.db + 1
      → retry_op stage item outcome max_attempts version now jitter c
        ≡ quarantine stage item outcome version now (attempts item.id stage c.db + 1) c
  unfolding retry_op
  retry_op_past outcome max_attempts version jitter h =
      let tries = attempts item.id stage c.db + 1 in
      rw (let e : ltb max_attempts tries ≡ true = ground arith in e)

  module _ (w : Wheel) (there : wheel_at item.id c.db ≡ some w) where
    abbrev parked_state : Conn
    parked_state = stated stage item.id now c w there quarantined

    quarantine_run :
        (outcome : Retry) (version : String) (tries : ℕ)
        → is_allowed item.state quarantined ≡ true
        → quarantine stage item outcome version now tries c ≡ (
          ok (was_quarantined tries),
          record {
            db =
                insert_error
                  (quarantine_error outcome version)
                  (upsert_quarantine (quarantine_row outcome tries) parked_state.db);
            seq = suc c.seq;
          },
        )
    unfolding quarantine execute_insert validate_transition
    quarantine_run outcome version tries h = rw h (
        rw (has_stated stage item.id now c w there quarantined) (
          rw (has_wheel-upsert_quarantine item.id parked_state.db (quarantine_row outcome tries))
            (rw (has_stated stage item.id now c w there quarantined))))

    reschedule_run :
        (outcome : Retry) (jitter tries : ℕ)
        → reschedule stage item outcome now jitter tries c ≡ (
          ok (was_retried tries),
          record c { db = upsert_retry (retry_row outcome jitter tries) c.db },
        )
    unfolding reschedule execute_insert
    reschedule_run outcome jitter tries = rw (has_wheel-at item.id c.db there)

    -- Within the budget a retry counts one more attempt, leaves the wheel alone and schedules the
    -- next attempt after the backoff delay.
    pub retry_op_retries :
        (outcome : Retry) (max_attempts : ℕ) (version : String) (jitter : ℕ)
        → attempts item.id stage c.db + 1 ≤ max_attempts
        → let tries = attempts item.id stage c.db + 1 in
          let (r, c') = retry_op stage item outcome max_attempts version now jitter c in
          (r ≡ ok (was_retried tries))
          × (c'.seq ≡ c.seq)
          × (c'.db.wheels ≡ c.db.wheels)
          × ((row : WorkRow) × (work_at item.id stage c'.db ≡ some row)
              × (row.attempts ≡ tries)
              × (row.next_attempt_at ≡ now + compute_backoff base_backoff max_backoff tries jitter))
    retry_op_retries outcome max_attempts version jitter h =
        let tries = attempts item.id stage c.db + 1 in
        let row : WorkRow = retry_row outcome jitter tries in
        rw
          (
            retry_op_within outcome max_attempts version jitter h,
            reschedule_run outcome jitter tries,
          )
          (
            refl,
            refl,
            unfold upsert_retry in refl,
            (
              rescheduled row (work_at item.id stage c.db),
              work_at-upsert_retry row c.db,
              ground arith,
              ground arith,
            ),
          )

    -- Past the budget a retry quarantines the wheel, if its state allows that, under a fresh
    -- sequence number and with a `work` row that says so.
    pub retry_op_quarantines :
        (outcome : Retry) (max_attempts : ℕ) (version : String) (jitter : ℕ)
        → is_allowed item.state quarantined ≡ true
        → max_attempts < attempts item.id stage c.db + 1
        → let tries = attempts item.id stage c.db + 1 in
          let (r, c') = retry_op stage item outcome max_attempts version now jitter c in
          (r ≡ ok (was_quarantined tries))
          × (c'.seq ≡ suc c.seq)
          × (wheel_at item.id c'.db
              ≡ some (record w { state = quarantined; change_seq = suc c.seq; updated_at = now }))
          × ((row : WorkRow) × (work_at item.id stage c'.db ≡ some row)
              × (row.attempts ≡ tries)
              × (row.quarantined_at ≡ some now))
    retry_op_quarantines outcome max_attempts version jitter allowed h =
        let tries = attempts item.id stage c.db + 1 in
        let row : WorkRow = quarantine_row outcome tries in
        rw
          (
            retry_op_past outcome max_attempts version jitter h,
            quarantine_run outcome version tries allowed,
          )
          (
            refl,
            refl,
            unfold insert_error upsert_quarantine in
                wheel_at-set_state_self item.id quarantined (suc c.seq) now c.db there,
            (
              merged row (work_at item.id stage parked_state.db),
              unfold insert_error in work_at-upsert_quarantine row parked_state.db,
              ground arith,
              ground arith,
            ),
          )
