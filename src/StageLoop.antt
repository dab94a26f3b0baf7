-- ===== src/StageLoop.antt =====
-- src/reroll_sync/daemon/stage_loop.py: the triggers, `StageLoop.run_once` and `run_forever`.
--
-- The clock counts microseconds and does not go back (`time.monotonic`). A `Trigger` is a record of
-- its three methods on a state type of its own, as the protocol class says.
pub mod Schedule
mod Tests
use Prim.Native.Nat.{◌-◌}
use reroll_sync.Base.{
  ℕ, suc, ◌+◌, Bool, true, false, Option, none, some, List, [], ◌∷◌, leb, if◌then◌else◌,
}

pub record Trigger {ℓ} (S : Type ℓ) : Type ℓ where
  pub due : ℕ → S → Bool
  pub wait_seconds : ℕ → S → ℕ
  pub mark_run : Bool → ℕ → S → S

-- `IntervalTrigger`, whose state is `_last_run_at`
abbrev interval_due : ℕ → ℕ → Option ℕ → Bool
interval_due interval now none = true
interval_due interval now (some last) = leb interval (now - last)

abbrev interval_wait : ℕ → ℕ → Option ℕ → ℕ
interval_wait interval now none = 0
interval_wait interval now (some last) = interval - (now - last)

unfoldable pub interval_trigger : ℕ → Trigger (Option ℕ)
interval_trigger interval = record {
  due = interval_due interval;
  wait_seconds = interval_wait interval;
  mark_run = λ did_work now last. some now;
}

-- `PollTrigger`, whose state is `_busy`
unfoldable pub poll_trigger : ℕ → Trigger Bool
poll_trigger idle_interval = record {
  due = λ now busy. true;
  wait_seconds = λ now busy. if busy then 0 else idle_interval;
  mark_run = λ did_work now busy. did_work;
}

-- What a call of `iterate` does: it returns whether it did work, it raises an exception of
-- `fatal_exceptions`, or it raises another one.
pub data Iteration : Type 0 where
  worked : Bool → Iteration
  fatal : Iteration
  failed : Iteration

pub record StageLoop {ℓ} (S : Type ℓ) : Type ℓ where
  pub trigger : S
  pub paused : Bool
  pub last_run_at : Option ℕ
  pub last_success_at : Option ℕ
  pub consecutive_failures : ℕ

module _ {ℓ} {S : Type ℓ} where
  -- `pause` and `resume`
  unfoldable pub pause : StageLoop S → StageLoop S
  pause l = record l { paused = true }

  unfoldable pub resume : StageLoop S → StageLoop S
  resume l = record l { paused = false }

-- One turn of `run_forever`, with what the environment does in it: whether the shutdown event is set
-- before the turn, how long the check and the iteration take and how the iteration ends, whether the
-- event is set during the wait, and how much later than asked the wait returns.
pub record Turn : Type 0 where
  pub set_before : Bool
  pub duration : ℕ
  pub iteration : Iteration
  pub set_while : Bool
  pub late : ℕ

-- How the loop stands: still running, stopped by the event, or ended by a fatal exception.
pub data Exit : Type 0 where
  running stopped crashed : Exit

module _ {ℓ} {S : Type ℓ} (t : Trigger S) where
  -- the end of `run_once`, after `iterate`; `none` is the fatal exception, which propagates
  abbrev ended : Iteration → ℕ → StageLoop S → Option Bool × StageLoop S
  ended fatal now l = (none, l)
  ended failed now l = (
    some false,
    record l {
      consecutive_failures = suc l.consecutive_failures;
      trigger = t.mark_run false now l.trigger;
    },
  )
  ended (worked did_work) now l = (
    some did_work,
    record l {
      last_success_at = some now;
      consecutive_failures = 0;
      trigger = t.mark_run did_work now l.trigger;
    },
  )

  -- `run_once`, which starts at `now` and whose iteration ends at `later` with `i`. The first
  -- component says whether `iterate` was called.
  unfoldable pub run_once : ℕ → ℕ → Iteration → StageLoop S → Bool × Option Bool × StageLoop S
  run_once now later i l =
      let started = record l { last_run_at = some now } in
      if l.paused
      then (false, some false, record started { trigger = t.mark_run false now l.trigger })
      else (let (r, l') = ended i later started in (true, r, l'))

  -- the body of `run_forever` before its wait: what was called and how it went, `none` where the
  -- trigger is not due
  abbrev pub checked : ℕ → Turn → StageLoop S → Option (Bool × Option Bool) × StageLoop S
  checked now turn l =
      let (called, r, l') = run_once now (now + turn.duration) turn.iteration l in
      if t.due now l.trigger then (some (called, r), l') else (none, l)

  abbrev pub is_crash : Option (Bool × Option Bool) → Bool
  is_crash (some (called, none)) = true
  is_crash _ = false

  -- the starts of the calls of `iterate`
  abbrev pub start_of : ℕ → Option (Bool × Option Bool) → List ℕ → List ℕ
  start_of now (some (true, r)) starts = now ∷ starts
  start_of now _ starts = starts

  -- when the next turn begins: after the iteration, the wait and the delay
  abbrev pub next_turn : ℕ → Turn → StageLoop S → ℕ
  next_turn now turn l =
      let done = now + turn.duration in done + t.wait_seconds done l.trigger + turn.late

  -- `run_forever` over the turns that the environment grants: how it ended, and when it called
  -- `iterate`
  unfoldable pub run_forever : ℕ → List Turn → StageLoop S → Exit × List ℕ × StageLoop S
  unfolding run_once
  run_forever now [] l = (running, [], l)
  run_forever now (turn ∷ turns) l =
      let (outcome, l') = checked now turn l in
      let (exit, starts, l'') = run_forever (next_turn now turn l') turns l' in
      if turn.set_before
      then (stopped, [], l)
      else (if is_crash outcome
          then (crashed, start_of now outcome [], l')
          else (if turn.set_while
              then (stopped, start_of now outcome [], l')
              else (exit, start_of now outcome starts, l'')))
