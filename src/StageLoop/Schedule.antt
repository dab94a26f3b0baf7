-- ===== src/StageLoop/Schedule.antt =====
-- The times of the iterations of a loop, and its counters.
use reroll_sync.Base.{
  ℕ, suc, ◌+◌, ◌≤◌, ◌≡◌, refl, true, false, List, [], ◌∷◌, arith, Option, none, some, inl, inr,
  Bool-cases,
}
use reroll_sync.StageLoop.{
  Trigger, interval_trigger, Iteration, worked, fatal, failed, StageLoop, pause, run_once, Turn,
  run_forever, checked, is_crash, start_of, next_turn,
}

module _ {ℓ} {S : Type ℓ} (t : Trigger S) where
  -- A paused stage never calls its iteration: it returns that no work was done, and the records of
  -- success and failure stay as they were.
  pub run_once_paused :
      (now later : ℕ) (i : Iteration) (l : StageLoop S)
      → let (called, r, l') = run_once t now later i (pause l) in
        (called ≡ false)
        × (r ≡ some false)
        × (l'.last_success_at ≡ l.last_success_at)
        × (l'.consecutive_failures ≡ l.consecutive_failures)
        × (l'.last_run_at ≡ some now)
  unfolding run_once pause
  run_once_paused now later i l = ground arith

  -- iterations one after the other, each with its start and end
  unfoldable pub run_all : List (ℕ × ℕ × Iteration) → StageLoop S → StageLoop S
  run_all [] l = l
  run_all ((now, later, i) ∷ rest) l = run_all rest (run_once t now later i l).2

-- the failures since the last success
abbrev pub trailing : ℕ → List (ℕ × ℕ × Iteration) → ℕ
trailing n [] = n
trailing n ((now, later, worked b) ∷ rest) = trailing 0 rest
trailing n ((now, later, failed) ∷ rest) = trailing (suc n) rest
trailing n ((now, later, fatal) ∷ rest) = trailing n rest

-- The counter of consecutive failures is the number of failures since the last success.
pub failures-run_all :
    {S : Type 0} (t : Trigger S) (runs : List (ℕ × ℕ × Iteration)) (l : StageLoop S)
    → l.paused ≡ false
    → (run_all t runs l).consecutive_failures ≡ trailing l.consecutive_failures runs
unfolding run_all run_once
failures-run_all t [] l h = refl
failures-run_all t ((now, later, worked b) ∷ rest) l h =
    ground (arith, failures-run_all t rest (run_once t now later (worked b) l).2, h)
failures-run_all t ((now, later, failed) ∷ rest) l h =
    ground (arith, failures-run_all t rest (run_once t now later failed l).2, h)
failures-run_all t ((now, later, fatal) ∷ rest) l h =
    ground (arith, failures-run_all t rest (run_once t now later fatal l).2, h)

-- the time noted by an interval trigger is not in the future
abbrev pub IsPast : ℕ → Option ℕ → Type 0
IsPast now none = Unit
IsPast now (some last) = last ≤ now

-- After the wait that an interval trigger asks for, its next run is due.
pub interval_wait_due :
    (interval now late : ℕ) (last : Option ℕ)
    → IsPast now last
    → let t = interval_trigger interval in t.due (now + t.wait_seconds now last + late) last ≡ true
unfolding interval_trigger
interval_wait_due interval now late last h = ground arith

-- each start comes at least `interval` after the one before
abbrev pub Spaced : ℕ → Option ℕ → List ℕ → Type 0
Spaced interval last [] = Unit
Spaced interval none (n ∷ ns) = Spaced interval (some n) ns
Spaced interval (some last) (n ∷ ns) = (last + interval ≤ n) × Spaced interval (some n) ns

Spaced-earlier :
    (interval first last : ℕ) (ns : List ℕ)
    → first ≤ last
    → Spaced interval (some last) ns
    → Spaced interval (some first) ns
Spaced-earlier interval first last [] h s = tt
Spaced-earlier interval first last (n ∷ ns) h s = (omega (arith, s.0), s.1)

Spaced-past :
    (interval last : ℕ) (first : Option ℕ) (ns : List ℕ)
    → IsPast last first
    → Spaced interval (some last) ns
    → Spaced interval first ns
Spaced-past interval last none [] h s = tt
Spaced-past interval last none (n ∷ ns) h s = s.1
Spaced-past interval last (some first) ns h s = Spaced-earlier interval first last ns h s

checked-Spaced :
    (interval now : ℕ) (turn : Turn) (l : StageLoop (Option ℕ)) (ns : List ℕ)
    → IsPast now l.trigger
    → let t = interval_trigger interval in
      let (outcome, l') = checked t now turn l in
      (is_crash t outcome ≡ false)
      → Spaced interval l'.trigger ns
      → Spaced interval l.trigger (start_of t now outcome ns)
unfolding run_once interval_trigger
checked-Spaced interval now turn l ns h k s = ground (
  arith,
  Spaced-earlier interval now (now + turn.duration) ns,
  Spaced-past interval now l.trigger ns h,
)

checked-alone :
    (interval now : ℕ) (turn : Turn) (l : StageLoop (Option ℕ))
    → IsPast now l.trigger
    → let t = interval_trigger interval in
      Spaced interval l.trigger (start_of t now (checked t now turn l).0 [])
unfolding run_once interval_trigger
checked-alone interval now turn l h = ground arith

checked-IsPast :
    (interval now : ℕ) (turn : Turn) (l : StageLoop (Option ℕ))
    → IsPast now l.trigger
    → let t = interval_trigger interval in
      let l' = (checked t now turn l).1 in IsPast (next_turn t now turn l') l'.trigger
unfolding run_once interval_trigger
checked-IsPast interval now turn l h = ground arith

-- A stage on an interval timer starts its iterations at least the interval apart, however long they
-- take and however they end, paused or not.
pub run_forever-Spaced :
    (interval now : ℕ) (turns : List Turn) (l : StageLoop (Option ℕ))
    → IsPast now l.trigger
    → Spaced interval l.trigger (run_forever (interval_trigger interval) now turns l).1
unfolding run_forever
run_forever-Spaced interval now [] l h = tt
run_forever-Spaced interval now (turn ∷ turns) l h =
    let t = interval_trigger interval in
    let l' = (checked t now turn l).1 in
    let rest =
      run_forever-Spaced interval (next_turn t now turn l') turns l'
        (checked-IsPast interval now turn l h) in
    let alone = checked-alone interval now turn l h in
    elim (Bool-cases (is_crash t (checked t now turn l).0)) [
      | inl e ↦ ground (arith, e, alone)
      | inr e ↦ ground (arith, e, alone, checked-Spaced interval now turn l _ h e rest)
    ]
