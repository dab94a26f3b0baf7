-- ===== src/Breaker/Safety.antt =====
-- The breaker under interleavings of the calls of any threads.
use reroll_sync.Base.{
  ℕ, suc, ◌≤◌, ◌<◌, ◌≡◌, ◌≢◌, refl, Bool, true, false, Option, none, some, is_some, List, [], ◌∷◌,
  arith, inl, inr, ◌⊎◌, leb,
}
use reroll_sync.Breaker.{
  closed, open_, half_open, Breaker, make, next_trial_at, allow, Ending, settle, Event, asks, ends,
  step, run,
}

pub record IsValid (b : Breaker) : Type 0 where
  pub open_stamped : b.state ≡ open_ → is_some b.opened_at ≡ true
  pub closed_quiet : b.state ≡ closed → b.consecutive_failures < b.failure_threshold
  pub closed_clear : b.state ≡ closed → (b.opened_at ≡ none) × (b.trial_in_flight ≡ false)
  pub open_idle : b.state ≡ open_ → b.trial_in_flight ≡ false
  pub threshold_positive : 0 < b.failure_threshold

pub make-IsValid : (threshold timeout : ℕ) → 0 < threshold → IsValid (make threshold timeout)
unfolding make
make-IsValid threshold timeout h = ground arith

allow-IsValid : (now : ℕ) (b : Breaker) → IsValid b → IsValid (allow now b).1
unfolding allow
allow-IsValid now b v = ground arith

settle-IsValid : (e : Ending) (now : ℕ) (b : Breaker) → IsValid b → IsValid (settle e now b)
unfolding settle
settle-IsValid e now b v = ground arith

pub step-IsValid : (b : Breaker) (e : Event) → IsValid b → IsValid (step b e)
unfolding step
step-IsValid b (asks now) v = allow-IsValid now b v
step-IsValid b (ends e now) v = settle-IsValid e now b v

run-IsValid : (b : Breaker) (es : List Event) → IsValid b → IsValid (run b es)
unfolding run
run-IsValid b [] v = v
run-IsValid b (e ∷ es) v = run-IsValid (step b e) es (step-IsValid b e v)

-- From a new breaker, whatever the calls and however they interleave: a closed breaker has fewer
-- failures in a row than the threshold and no trial, an open one has its time stamp and no trial.
pub run-make-IsValid :
    (threshold timeout : ℕ) (es : List Event)
    → 0 < threshold
    → IsValid (run (make threshold timeout) es)
run-make-IsValid threshold timeout es h = run-IsValid _ es (make-IsValid threshold timeout h)

-- The assertion in `allow` never fails.
pub allow-ne-none : (now : ℕ) (b : Breaker) → IsValid b → (allow now b).0 ≢ none
unfolding allow
allow-ne-none now b v = ground arith

-- An open breaker refuses every call before the recovery timeout and grants the first one after.
pub allow_open_iff :
    (now t : ℕ) (b : Breaker)
    → b.state ≡ open_
    → next_trial_at b ≡ some t
    → (allow now b).0 ≡ some (leb t now)
unfolding allow next_trial_at
allow_open_iff now t b o n = ground arith

abbrev tally : Option Bool → ℕ → ℕ
tally (some true) n = suc n
tally _ n = n

-- how many of the calls at these times are granted, while none of them ends
unfoldable pub grants : List ℕ → Breaker → ℕ
grants [] b = 0
grants (now ∷ ts) b = let rest = grants ts (allow now b).1 in tally (allow now b).0 rest

-- a trial in flight blocks the next call
allow_in_trial :
    (now : ℕ) (b : Breaker)
    → b.state ≡ half_open
    → b.trial_in_flight ≡ true
    → allow now b ≡ (some false, b)
unfolding allow
allow_in_trial now b s t = ground arith

-- a breaker that is not closed refuses, or starts the one trial
allow_not_closed :
    (now : ℕ) (b : Breaker)
    → IsValid b
    → b.state ≢ closed
    → (((allow now b).0 ≡ some false) × ((allow now b).1.state ≢ closed))
      ⊎ (((allow now b).0 ≡ some true)
          × ((allow now b).1.state ≡ half_open)
          × ((allow now b).1.trial_in_flight ≡ true))
unfolding allow
allow_not_closed now b v s = ground arith

grants_in_trial :
    (ts : List ℕ) (b : Breaker) → b.state ≡ half_open → b.trial_in_flight ≡ true → grants ts b ≡ 0
unfolding grants
grants_in_trial [] b s t = refl
grants_in_trial (now ∷ ts) b s t = rw (allow_in_trial now b s t, grants) (grants_in_trial ts b s t)

-- Until a trial ends, an open or half-open breaker grants at most one of any number of calls.
pub grants_one_trial : (ts : List ℕ) (b : Breaker) → IsValid b → b.state ≢ closed → grants ts b ≤ 1
unfolding grants
grants_one_trial [] b v s = omega arith
grants_one_trial (now ∷ ts) b v s = elim (allow_not_closed now b v s) [
  | inl (refused_now, still) ↦
      rw (refused_now, grants) (grants_one_trial ts (allow now b).1 (allow-IsValid now b v) still)
  | inr (granted, half, trial) ↦
      rw (granted, grants) (omega (arith, grants_in_trial ts (allow now b).1 half trial))
]
