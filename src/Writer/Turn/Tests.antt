-- ===== src/Writer/Turn/Tests.antt =====
-- A writer with batches of one operation, to which two operations and a stop come.
use reroll_sync.Base.{ℕ, ◌≡◌, refl, true, false, List, [], ◌∷◌, arith, none}
use reroll_sync.Db.{empty as empty_db, next_seq, raise, integrity_error, ◌>>◌}
use reroll_sync.Writer.{apply_batch, commit_batch}
use reroll_sync.Writer.Loop.{Op, Settings, Loop, Turn, opened, start, submit, stop}
use reroll_sync.Writer.Turn.{resolve, applies, turn}
use reroll_sync.Writer.Turn.Served.{
  Event, submitting, stopping, turning, run, keys, op_ids, run-resolves,
}
use reroll_sync.Writer.Turn.Serial.{run-refines}
use reroll_sync.Writer.Turn.Drains.{turns, stop-turns}

abbrev settings : Settings
settings = record {
  batch_size = 1;
  batch_interval = 100;
  checkpoint_interval = 60000;
  vacuum_interval = 3600000;
  queue_maxsize = 10;
}

abbrev calm_turn : Turn
calm_turn = record { at_get = 5; at_test = 6; at_check = 7; commit_error = none; busy = false }

abbrev taking : Op ℕ
taking = record { id = 1; apply = next_seq }

abbrev failing : Op ℕ
failing = record { id = 2; apply = next_seq >> raise integrity_error }

abbrev events : List (Event ℕ)
events =
    submitting taking
    ∷ submitting failing
    ∷ turning calm_turn
    ∷ stopping true
    ∷ submitting taking
    ∷ turning calm_turn
    ∷ []

ended : (run events (start settings empty_db 0, [])).0.running ≡ false
unfolding run start submit stop turn commit_batch next_seq
ended = refl

run-resolves_example :
    (keys (run events (start settings empty_db 0, [])).0.resolved
      ≡ op_ids (run events (start settings empty_db 0, [])).1)
    × ((run events (start settings empty_db 0, [])).0.stopped ≡ true)
run-resolves_example = run-resolves settings empty_db 0 events ended

run-refines_example :
    ((run events (start settings empty_db 0, [])).0.resolved
      ≡ resolve
          (run events (start settings empty_db 0, [])).1
          (apply_batch
            (applies (run events (start settings empty_db 0, [])).1)
            (opened empty_db)).0)
    × ((run events (start settings empty_db 0, [])).0.writer
        ≡ (apply_batch
            (applies (run events (start settings empty_db 0, [])).1)
            (opened empty_db)).1)
run-refines_example =
    run-refines settings empty_db 0 events (tt, (tt, (refl, (refl, (tt, (refl, tt)))))) ended

abbrev waiting : Loop ℕ
waiting = record (start settings empty_db 0) { queue = taking ∷ failing ∷ [] }

stop-turns_example : (turns (calm_turn ∷ calm_turn ∷ []) (stop true waiting)).running ≡ false
unfolding start
stop-turns_example = stop-turns waiting 1 (calm_turn ∷ calm_turn ∷ []) refl (omega arith) refl
