-- ===== src/Dispatcher/Ops.antt =====
-- dispatcher.py: the write operations that `_ok_op`, `_skip_op` and `_retry_op` build.
pub mod Rows
pub mod Effects
pub mod Attempts
pub mod Retries
use reroll_sync.Base.{ℕ, ◌+◌, String, Option, none, some, [], ◌∷◌, ◌++◌, ltb, if◌then◌else◌}
use reroll_sync.Schema.{WheelState, skipped, quarantined}
use reroll_sync.Sql.{update, delete, upsert, find}
use reroll_sync.Db.{
  Db, Stage, Timestamp, WorkRow, SkipRow, ErrorRow, Write, has_id, work_key, skip_key, query,
  execute, execute_insert, next_seq, ◌>>=◌, ◌>>◌, pure,
}
use reroll_sync.Dispatcher.Outcome.{
  QueueItem, Ok, Skip, Retry, compute_backoff, base_backoff, max_backoff, validate_transition,
}

-- `UPDATE wheels SET state = ?, change_seq = ?, updated_at = ? WHERE id = ?`
unfoldable pub set_state : ℕ → WheelState → ℕ → Timestamp → Db → Db
set_state id state seq now db = record db {
  wheels =
      update (has_id id) (λ w. record w { state = state; change_seq = seq; updated_at = now })
        db.wheels;
}

-- `DELETE FROM work WHERE wheel_id = ? AND stage = ?`
unfoldable pub delete_work : ℕ → Stage → Db → Db
delete_work id stage db = record db { work = delete (work_key id stage) db.work }

-- `INSERT INTO errors ...`
unfoldable pub insert_error : ErrorRow → Db → Db
insert_error row db = record db { errors = db.errors ++ row ∷ [] }

-- `INSERT INTO skips ... ON CONFLICT(wheel_id, stage) DO UPDATE`
unfoldable pub upsert_skip : SkipRow → Db → Db
upsert_skip row db = record db {
  skips =
      upsert (skip_key row.wheel_id row.stage)
        (λ r. record r {
          reason = row.reason;
          permanent = row.permanent;
          reroll_version = row.reroll_version;
          created_at = row.created_at;
        })
        row db.skips;
}

-- `INSERT INTO work ... ON CONFLICT(wheel_id, stage) DO UPDATE`, with `quarantined_at` in the list
-- of columns
unfoldable pub upsert_quarantine : WorkRow → Db → Db
upsert_quarantine row db = record db {
  work =
      upsert (work_key row.wheel_id row.stage)
        (λ r. record r {
          attempts = row.attempts;
          next_attempt_at = row.next_attempt_at;
          last_error = row.last_error;
          quarantined_at = row.quarantined_at;
        })
        row db.work;
}

-- the same without `quarantined_at`, which a conflicting row keeps
unfoldable pub upsert_retry : WorkRow → Db → Db
upsert_retry row db = record db {
  work =
      upsert (work_key row.wheel_id row.stage)
        (λ r. record r {
          attempts = row.attempts;
          next_attempt_at = row.next_attempt_at;
          last_error = row.last_error;
        })
        row db.work;
}

-- What an operation returns to `_record_outcome`.
pub data Applied : Type 0 where
  done : Applied
  was_quarantined was_retried : ℕ → Applied

-- `_ok_op`, the operation that it submits
unfoldable pub ok_op : Stage → ℕ → Ok → Timestamp → Write Applied
unfolding next_seq
ok_op stage id outcome now = do
  seq ← next_seq
  execute (set_state id outcome.next_state seq now)
  outcome.write id
  execute (delete_work id stage)
  pure done

-- `_skip_op`; `version` is the dispatcher's `_reroll_version`
unfoldable pub skip_op : Stage → ℕ → Skip → String → Timestamp → Write Applied
unfolding next_seq
skip_op stage id outcome version now = do
  seq ← next_seq
  execute (set_state id skipped seq now)
  execute_insert id (
      upsert_skip (record {
        wheel_id = id;
        stage = stage;
        reason = outcome.reason;
        permanent = outcome.permanent;
        reroll_version = if outcome.permanent then none else outcome.reroll_version;
        created_at = now;
      }))
  execute_insert id (
      insert_error (record {
        wheel_id = some id;
        error_category = outcome.reason;
        error_subcat = some outcome.subcategory;
        details = some outcome.details;
        reroll_version = version;
        created_at = now;
      }))
  execute (delete_work id stage)
  pure done

abbrev pub attempts_of : Option WorkRow → ℕ
attempts_of none = 0
attempts_of (some r) = r.attempts

-- `SELECT attempts FROM work WHERE wheel_id = ? AND stage = ?`, 0 where there is no row
unfoldable pub attempts : ℕ → Stage → Db → ℕ
attempts id stage db = attempts_of (find (work_key id stage) db.work)

-- the quarantining branch of `_retry_op`
unfoldable pub quarantine : Stage → QueueItem → Retry → String → Timestamp → ℕ → Write Applied
unfolding next_seq validate_transition
quarantine stage item outcome version now tries = do
  λ c. (validate_transition item.state quarantined, c)
  seq ← next_seq
  execute (set_state item.id quarantined seq now)
  execute_insert item.id (
      upsert_quarantine (record {
        wheel_id = item.id;
        stage = stage;
        attempts = tries;
        next_attempt_at = now;
        last_error = some outcome.details;
        quarantined_at = some now;
      }))
  execute_insert item.id (
      insert_error (record {
        wheel_id = some item.id;
        error_category = outcome.reason;
        error_subcat = none;
        details = some outcome.details;
        reroll_version = version;
        created_at = now;
      }))
  pure (was_quarantined tries)

-- the branch that schedules another attempt
unfoldable pub reschedule : Stage → QueueItem → Retry → Timestamp → ℕ → ℕ → Write Applied
reschedule stage item outcome now jitter tries = do
  execute_insert item.id (
      upsert_retry (record {
        wheel_id = item.id;
        stage = stage;
        attempts = tries;
        next_attempt_at = now + compute_backoff base_backoff max_backoff tries jitter;
        last_error = some outcome.details;
        quarantined_at = none;
      }))
  pure (was_retried tries)

-- `_retry_op`
unfoldable pub retry_op : Stage → QueueItem → Retry → ℕ → String → Timestamp → ℕ → Write Applied
retry_op stage item outcome max_attempts version now jitter = do
  before ← query (attempts item.id stage)
  let tries = before + 1
  let quarantining = quarantine stage item outcome version now tries
  let retrying = reschedule stage item outcome now jitter tries
  if ltb max_attempts tries then quarantining else retrying
