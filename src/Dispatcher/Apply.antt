-- ===== src/Dispatcher/Apply.antt =====
-- dispatcher.py: the `Dispatcher` object. `apply_outcome` turns an outcome into a write, counts it,
-- and takes the item out of flight on every path.
pub mod Steps
pub mod Payloads
pub mod Legal
pub mod Converted
use Prim.Native.Nat.{◌-◌, ◌*◌, ◌/◌}
use reroll_sync.Base.{
  ℕ, zero, suc, ◌+◌, String, Bool, true, false, Option, none, some, List, [], ◌∷◌, ltb, ◌==◌,
  if◌then◌else◌,
}
use reroll_sync.Schema.{skipped}
use reroll_sync.Sql.{delete}
use reroll_sync.Db.{unknown_child}
use reroll_sync.Db.{Conn, Stage, stage_eq, Timestamp, Result, ok, err, Write}
use reroll_sync.Writer.{submit_and_wait}
use reroll_sync.Dispatcher.Outcome.{
  QueueItem, Ok, Skip, Retry, RateLimited, Outcome, of_ok, of_skip, of_retry, of_rate_limited,
  validate_transition,
}
use reroll_sync.Dispatcher.Ops.{
  Applied, done, was_quarantined, was_retried, ok_op, skip_op, retry_op,
}
use reroll_sync.Dispatcher.Claim.{Queue}

-- the entries of `_outcome_counts[stage]`
pub record Counts : Type 0 where
  pub ok_count : ℕ
  pub skip_count : ℕ
  pub retry_outcomes : ℕ
  pub rate_limited_count : ℕ

-- What the dispatcher keeps for one stage. The throughput is in millionths of an item a second.
pub record StageState : Type 0 where
  pub queue : Queue
  pub counts : Counts
  pub retry_count : ℕ
  pub quarantine_count : ℕ
  pub last_completion : Option Timestamp
  pub throughput_ema : ℕ

-- `L` is the rate limiter that it penalizes, by the `penalize` of ratelimit.py: `none` is its
-- `KeyError`. The writer is one that runs and whose COMMIT succeeds: Writer.Turn has the others.
pub record Dispatcher (L : Type 0) : Type 0 where
  pub reroll_version : String
  pub max_attempts : ℕ
  pub limiter : Option L
  pub stages : Stage → StageState

-- `_ema_alpha`, 0.2, as a fraction
abbrev pub alpha_num : ℕ
alpha_num = 1

abbrev pub alpha_den : ℕ
alpha_den = 5

-- The weighted mean of `_record_throughput`, where `elapsed` is positive.
unfoldable pub smooth : ℕ → ℕ → ℕ
smooth elapsed previous =
    (alpha_num * (1000000 * 1000000 / elapsed) + (alpha_den - alpha_num) * previous) / alpha_den

abbrev ema_after : Option Timestamp → Timestamp → ℕ → ℕ
ema_after none now previous = previous
ema_after (some last) now previous = if ltb last now then smooth (now - last) previous else previous

-- `_record_throughput`
unfoldable pub record_throughput : Timestamp → StageState → StageState
unfolding smooth
record_throughput now s = record s {
  last_completion = some now;
  throughput_ema = ema_after s.last_completion now s.throughput_ema;
}

abbrev count_retry : Applied → StageState → StageState
count_retry (was_quarantined n) s = record s { quarantine_count = suc s.quarantine_count }
count_retry _ s = record s { retry_count = suc s.retry_count }

abbrev bump_ok : Counts → Counts
bump_ok c = record c { ok_count = suc c.ok_count }

abbrev bump_skip : Counts → Counts
bump_skip c = record c { skip_count = suc c.skip_count }

abbrev bump_retry : Counts → Counts
bump_retry c = record c { retry_outcomes = suc c.retry_outcomes }

abbrev bump_rate_limited : Counts → Counts
bump_rate_limited c = record c { rate_limited_count = suc c.rate_limited_count }

-- `_record_outcome` for one stage
unfoldable pub record_outcome : Outcome → Applied → Timestamp → StageState → StageState
unfolding record_throughput
record_outcome (of_ok o) r now s = record_throughput now (record s { counts = bump_ok s.counts })
record_outcome (of_skip o) r now s =
    record_throughput now (record s { counts = bump_skip s.counts })
record_outcome (of_retry o) r now s =
    record_throughput now (count_retry r (record s { counts = bump_retry s.counts }))
record_outcome (of_rate_limited o) r now s =
    record_throughput now (record s { counts = bump_rate_limited s.counts })

-- `release` for one stage: `discard` on the in-flight set
unfoldable pub release_item : ℕ → StageState → StageState
release_item id s = record s {
  queue = record s.queue { in_flight = delete (λ j. j == id) s.queue.in_flight };
}

module _ {L : Type 0} (penalize : String → ℕ → L → Option L) where
  abbrev at_stage : Stage → (StageState → StageState) → Dispatcher L → Dispatcher L
  at_stage stage f d = record d {
    stages = λ s. if stage_eq s stage then f (d.stages s) else d.stages s;
  }

  -- `Dispatcher.release`
  unfoldable pub release : Stage → ℕ → Dispatcher L → Dispatcher L
  unfolding release_item
  release stage id d = at_stage stage (release_item id) d

  abbrev or_same : L → Option L → L
  or_same l none = l
  or_same l (some l') = l'

  abbrev penalized : RateLimited → Option L → Option L
  penalized o none = none
  penalized o (some l) = some (or_same l (penalize o.child o.seconds l))

  abbrev known : Option L → Result Applied
  known none = err unknown_child
  known (some l) = ok done

  -- `limiter.penalize`, which raises a `KeyError` for a child that it does not know
  abbrev penalty : RateLimited → Option L → Result Applied
  penalty o none = ok done
  penalty o (some l) = known (penalize o.child o.seconds l)

  abbrev pub guarded : Result (Unit {0}) → Write Applied → Write Applied
  guarded (ok _) op c = submit_and_wait op c
  guarded (err e) op c = (err e, c)

  -- `_build_write_op` and the submission: an illegal transition of an `Ok` or a `Skip` is raised
  -- before anything is submitted. `now` is the clock when the operation is built.
  unfoldable pub write_outcome :
      Stage → QueueItem → Outcome → Timestamp → ℕ → Dispatcher L → Write Applied
  unfolding submit_and_wait validate_transition
  write_outcome stage item (of_ok o) now jitter d =
      guarded (validate_transition item.state o.next_state) (ok_op stage item.id o now)
  write_outcome stage item (of_skip o) now jitter d =
      guarded (validate_transition item.state skipped)
        (skip_op stage item.id o d.reroll_version now)
  write_outcome stage item (of_retry o) now jitter d =
      submit_and_wait (retry_op stage item o d.max_attempts d.reroll_version now jitter)
  write_outcome stage item (of_rate_limited o) now jitter d = λ c. (penalty o d.limiter, c)

  -- `_apply_rate_limited`
  unfoldable pub limit_outcome : Outcome → Dispatcher L → Dispatcher L
  limit_outcome (of_rate_limited o) d = record d { limiter = penalized o d.limiter }
  limit_outcome _ d = d

  abbrev counted : Stage → Outcome → Timestamp → Result Applied → Dispatcher L → Dispatcher L
  counted stage outcome now (ok r) d = at_stage stage (record_outcome outcome r now) d
  counted stage outcome now (err e) d = d

  -- `Dispatcher.apply_outcome`: `finished_at` is the clock when the outcome is counted, after the
  -- write. `finally` releases the item, also where an exception passes through.
  unfoldable pub apply_outcome :
      Stage
      → QueueItem
      → Outcome
      → Timestamp
      → Timestamp
      → ℕ
      → Dispatcher L × Conn
      → Result Applied × (Dispatcher L × Conn)
  unfolding write_outcome limit_outcome release
  apply_outcome stage item outcome now finished_at jitter (d, c) =
      let (r, c') = write_outcome stage item outcome now jitter d c in
      let d' = counted stage outcome finished_at r (limit_outcome outcome d) in
      (r, (release stage item.id d', c'))
