-- ===== src/Fetch/Queue/Tests.antt =====
-- The queue on examples, with items that are their own size.
use reroll_sync.Base.{ℕ, ◌+◌, ◌≤◌, ◌≡◌, refl, false, List, [], ◌∷◌, ◌++◌, arith, max, sum_by}
use reroll_sync.Fetch.Queue.{Queue, make}
use reroll_sync.Fetch.Queue.Budget.{
  Event, puts, gets, releases, closes, run, started, handoff_bounded,
}

abbrev size : ℕ → ℕ
size n = n

abbrev new_queue : Queue ℕ
new_queue = record { budget_bytes = 10; items = []; charged = 0; released = 0; closed = false }

abbrev events : List (Event ℕ)
events = puts 7 ∷ puts 5 ∷ gets ∷ releases 0 ∷ puts 5 ∷ closes ∷ gets ∷ []

handoff_bounded_example :
    let w = run size events (started size new_queue) in
    (sum_by size w.queue.items + sum_by size w.held ≤ max 10 7)
    × (w.put_in ≡ w.got ++ w.queue.items)
unfolding make
handoff_bounded_example =
    handoff_bounded size 10 7 new_queue events refl
      (omega arith, (omega arith, (tt, (tt, (omega arith, (tt, (tt, tt)))))))
