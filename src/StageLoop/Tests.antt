-- ===== src/StageLoop/Tests.antt =====
-- The loop on examples.
use reroll_sync.Base.{ℕ, true, false, [], ◌∷◌, Option, none}
use reroll_sync.StageLoop.{
  StageLoop, interval_trigger, Turn, worked, failed, run_forever, Iteration,
}
use reroll_sync.StageLoop.Schedule.{Spaced, run_forever-Spaced}

abbrev fresh : StageLoop (Option ℕ)
fresh = record {
  trigger = none;
  paused = false;
  last_run_at = none;
  last_success_at = none;
  consecutive_failures = 0;
}

abbrev turn : Iteration → Turn
turn i = record { set_before = false; duration = 3; iteration = i; set_while = false; late = 1 }

run_forever-Spaced_example :
    Spaced 10 none
      (run_forever (interval_trigger 10) 100 (turn (worked true) ∷ turn failed ∷ []) fresh).1
run_forever-Spaced_example =
    run_forever-Spaced 10 100 (turn (worked true) ∷ turn failed ∷ []) fresh tt
