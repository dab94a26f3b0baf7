-- ===== src/Breaker.antt =====
-- src/reroll_sync/daemon/circuit_breaker.py. A method takes the reading of the clock as `now`.
pub mod Safety
mod Tests
pub mod Trips
use reroll_sync.Base.{
  ℕ, suc, ◌+◌, Bool, true, false, Option, none, some, List, [], ◌∷◌, leb, if◌then◌else◌,
}

pub data CircuitState : Type 0 where
  closed open_ half_open : CircuitState

pub record Breaker : Type 0 where
  pub failure_threshold : ℕ
  pub recovery_timeout : ℕ
  pub state : CircuitState
  pub consecutive_failures : ℕ
  pub opened_at : Option ℕ
  pub trial_in_flight : Bool

-- `__init__`
unfoldable pub make : ℕ → ℕ → Breaker
make threshold timeout = record {
  failure_threshold = threshold;
  recovery_timeout = timeout;
  state = closed;
  consecutive_failures = 0;
  opened_at = none;
  trial_in_flight = false;
}

-- `next_trial_at`
abbrev trial_time : CircuitState → Option ℕ → ℕ → Option ℕ
trial_time open_ (some t) timeout = some (t + timeout)
trial_time _ _ _ = none

unfoldable pub next_trial_at : Breaker → Option ℕ
next_trial_at b = trial_time b.state b.opened_at b.recovery_timeout

-- `_recovery_due_locked`; `none` where its assertion fails. The clock may stand behind `opened_at`.
abbrev recovery_due : Option ℕ → ℕ → ℕ → Option Bool
recovery_due none timeout now = none
recovery_due (some t) timeout now = some (leb (t + timeout) now)

-- the part of `allow` for HALF_OPEN
abbrev try_trial : Breaker → Option Bool × Breaker
try_trial b =
    if b.trial_in_flight then (some false, b) else (some true, record b { trial_in_flight = true })

abbrev allow_open : Option Bool → Breaker → Option Bool × Breaker
allow_open none b = (none, b)
allow_open (some false) b = (some false, b)
allow_open (some true) b = try_trial (record b { state = half_open; trial_in_flight = false })

abbrev allow_in : CircuitState → ℕ → Breaker → Option Bool × Breaker
allow_in open_ now b = allow_open (recovery_due b.opened_at b.recovery_timeout now) b
allow_in half_open now b = try_trial b
allow_in closed now b = (some true, b)

-- `allow`: `none` stands for an `AssertionError`
unfoldable pub allow : ℕ → Breaker → Option Bool × Breaker
allow now b = allow_in b.state now b

-- `record_success`
unfoldable pub record_success : Breaker → Breaker
record_success b = record b {
  consecutive_failures = 0;
  state = closed;
  opened_at = none;
  trial_in_flight = false;
}

abbrev is_half_open : CircuitState → Bool
is_half_open half_open = true
is_half_open _ = false

abbrev trip : ℕ → Breaker → Breaker
trip now b = record b { state = open_; opened_at = some now; trial_in_flight = false }

-- `record_failure`
unfoldable pub record_failure : ℕ → Breaker → Breaker
record_failure now b =
    let b' = record b { consecutive_failures = suc b.consecutive_failures } in
    if is_half_open b.state
    then trip now b'
    else if leb b.failure_threshold b'.consecutive_failures
    then trip now b'
    else b'

-- `_release_trial`
unfoldable pub release_trial : Breaker → Breaker
release_trial b = if is_half_open b.state then record b { trial_in_flight = false } else b

-- How the guarded function ends: it returns, raises one of `exempt`, raises another `Exception`, or
-- raises what is not an `Exception`, such as a `KeyboardInterrupt`, which no clause handles.
pub data Ending : Type 0 where
  returned exempted failed escaped : Ending

unfoldable pub settle : Ending → ℕ → Breaker → Breaker
unfolding record_success record_failure release_trial
settle returned now b = record_success b
settle exempted now b = release_trial b
settle failed now b = record_failure now b
settle escaped now b = b

-- What `call` does: the assertion in `allow` fails, the breaker refuses without a call of the
-- function, or the function runs and its ending is passed on.
pub data Called : Type 0 where
  broken refused : Called
  ran : Ending → Called

abbrev called : Option Bool → Ending → ℕ → Breaker → Called × Breaker
called none ending later b = (broken, b)
called (some false) ending later b = (refused, b)
called (some true) ending later b = (ran ending, settle ending later b)

-- `call`, of a function that would end in `ending` at the time `later`
unfoldable pub call : ℕ → Ending → ℕ → Breaker → Called × Breaker
unfolding allow settle
call now ending later b = let (granted, b') = allow now b in called granted ending later b'

-- The stage threads share one breaker, so the two halves of a call interleave with other calls.
pub data Event : Type 0 where
  asks : ℕ → Event
  ends : Ending → ℕ → Event

unfoldable pub step : Breaker → Event → Breaker
unfolding allow settle
step b (asks now) = (allow now b).1
step b (ends e now) = settle e now b

unfoldable pub run : Breaker → List Event → Breaker
run b [] = b
run b (e ∷ es) = run (step b e) es
