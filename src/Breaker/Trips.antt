-- ===== src/Breaker/Trips.antt =====
-- When a breaker opens and closes again.
use reroll_sync.Base.{ℕ, suc, ◌+◌, ◌≤◌, ◌<◌, ◌≡◌, ◌≢◌, refl, false, some, List, [], ◌∷◌, arith}
use reroll_sync.Breaker.{
  closed, open_, half_open, Breaker, Ending, returned, exempted, failed, escaped, call, refused,
  ran, record_failure,
}

-- failures at the given times, one after the other
unfoldable pub fail_all : List ℕ → Breaker → Breaker
fail_all [] b = b
fail_all (now ∷ ts) b = fail_all ts (record_failure now b)

abbrev count : List ℕ → ℕ
count [] = 0
count (t ∷ ts) = suc (count ts)

-- A closed breaker stays closed as long as its failures in a row are fewer than the threshold.
pub fail_all_below :
    (ts : List ℕ) (b : Breaker)
    → b.state ≡ closed
    → b.consecutive_failures + count ts < b.failure_threshold
    → ((fail_all ts b).state ≡ closed)
      × ((fail_all ts b).consecutive_failures ≡ b.consecutive_failures + count ts)
      × ((fail_all ts b).failure_threshold ≡ b.failure_threshold)
unfolding fail_all record_failure
fail_all_below [] b s h = (s, omega arith, refl)
fail_all_below (t ∷ ts) b s h = ground (arith, fail_all_below ts (record_failure t b))

-- The failure that reaches the threshold opens it at once.
pub fail_opens :
    (ts : List ℕ) (now : ℕ) (b : Breaker)
    → b.state ≡ closed
    → b.consecutive_failures + count ts + 1 ≡ b.failure_threshold
    → ((record_failure now (fail_all ts b)).state ≡ open_)
      × ((record_failure now (fail_all ts b)).opened_at ≡ some now)
unfolding record_failure
fail_opens ts now b s h = ground (arith, fail_all_below ts b s)

-- After the recovery timeout an open breaker runs one call, and its ending decides: a return
-- closes the breaker with no failures, an exempt exception leaves it half-open with the trial slot
-- free, and any other `Exception` reopens it with the timer restarted.
pub call_trial :
    (now later t : ℕ) (e : Ending) (b : Breaker)
    → b.state ≡ open_
    → b.opened_at ≡ some t
    → t + b.recovery_timeout ≤ now
    → let (r, b') = call now e later b in
      (r ≡ ran e)
      × (e ≡ returned → (b'.state ≡ closed) × (b'.consecutive_failures ≡ 0))
      × (e ≡ exempted → (b'.state ≡ half_open) × (b'.trial_in_flight ≡ false))
      × (e ≡ failed → (b'.state ≡ open_) × (b'.opened_at ≡ some later))
unfolding call
call_trial now later t e b s o h = ground arith

-- A refused call changes nothing, and the function is not run.
pub call_refused :
    (now later t : ℕ) (e : Ending) (b : Breaker)
    → b.state ≡ open_
    → b.opened_at ≡ some t
    → now < t + b.recovery_timeout
    → call now e later b ≡ (refused, b)
unfolding call
call_refused now later t e b s o h = ground arith

-- However a call ends, refused, returned or by an `Exception`, it leaves no trial in flight where
-- none was before, so that no ending blocks the trials after it. Only what is not an `Exception`
-- does: after the timeout of an open breaker it leaves the slot taken, and every later call is
-- refused.
pub call_frees :
    (now later : ℕ) (e : Ending) (b : Breaker)
    → b.trial_in_flight ≡ false
    → (e ≢ escaped → (call now e later b).1.trial_in_flight ≡ false)
      × ((t : ℕ)
          → b.state ≡ open_
          → b.opened_at ≡ some t
          → t + b.recovery_timeout ≤ now
          → (now' later' : ℕ) (e' : Ending)
          → call now' e' later' (call now escaped later b).1
            ≡ (refused, (call now escaped later b).1))
unfolding call
call_frees now later e b free = (frees e, λ t s o due now' later' e'. ground arith)
  where
    frees : (e : Ending) → e ≢ escaped → (call now e later b).1.trial_in_flight ≡ false
    frees returned ne = ground arith
    frees exempted ne = ground arith
    frees failed ne = ground arith
    frees escaped ne = absurd (ne refl)
