-- ===== src/Breaker/Tests.antt =====
-- The breaker on examples: two failures open it, for ten ticks.
use reroll_sync.Base.{◌≡◌, refl, false, [], ◌∷◌, arith, some}
use reroll_sync.Base.{◌≢◌, ◌+◌, ◌≤◌, ℕ}
use reroll_sync.Breaker.{escaped, Ending, refused}
use reroll_sync.Breaker.{Breaker, make, open_, asks, ends, failed, run, call}
use reroll_sync.Breaker.Safety.{IsValid, run-make-IsValid}
use reroll_sync.Breaker.Trips.{call_frees}

abbrev tripped : Breaker
tripped = record {
  failure_threshold = 2;
  recovery_timeout = 10;
  state = open_;
  consecutive_failures = 2;
  opened_at = some 5;
  trial_in_flight = false;
}

run-make-IsValid_example :
    IsValid (run (make 2 10) (asks 0 ∷ ends failed 1 ∷ asks 2 ∷ ends failed 3 ∷ asks 14 ∷ []))
run-make-IsValid_example =
    run-make-IsValid 2 10 (asks 0 ∷ ends failed 1 ∷ asks 2 ∷ ends failed 3 ∷ asks 14 ∷ [])
      (omega arith)

call_frees_example :
    (failed ≢ escaped → (call 15 failed 18 tripped).1.trial_in_flight ≡ false)
    × ((t : ℕ)
        → tripped.state ≡ open_
        → tripped.opened_at ≡ some t
        → t + tripped.recovery_timeout ≤ 15
        → (now' later' : ℕ) (e' : Ending)
        → call now' e' later' (call 15 escaped 18 tripped).1
          ≡ (refused, (call 15 escaped 18 tripped).1))
call_frees_example = call_frees 15 18 failed tripped refl
