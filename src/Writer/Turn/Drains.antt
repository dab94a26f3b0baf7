-- ===== src/Writer/Turn/Drains.antt =====
-- A stop with draining ends the thread.
use reroll_sync.Base.{
  ℕ, zero, suc, ◌≤◌, ◌≡◌, ◌∙◌, refl, ap, true, false, List, [], ◌∷◌, arith, length, ◌⊎◌, inl, inr,
}
use reroll_sync.Writer.Loop.{Loop, Turn, stop}
use reroll_sync.Writer.Turn.{take_op, should_flush, flush, check_wal, check_vacuum, finish, turn}

module _ {A : Type 0} where
  -- the turns of the thread, one after the other
  unfoldable pub turns : List Turn → Loop A → Loop A
  turns [] l = l
  turns (t ∷ ts) l = turns ts (turn t l)

  -- the thread has ended, or it drains and has at most so many operations in its queue
  abbrev Drains : ℕ → Loop A → Type 0
  Drains n l =
      (l.running ≡ false)
      ⊎ ((l.stop_requested ≡ true) × (l.drain_on_stop ≡ true) × (length l.queue ≤ n))

  turn_ended : (t : Turn) (l : Loop A) → l.running ≡ false → turn t l ≡ l
  unfolding turn
  turn_ended t l e = simp e

  turns_ended : (ts : List Turn) (l : Loop A) → l.running ≡ false → (turns ts l).running ≡ false
  unfolding turns
  turns_ended [] l e = e
  turns_ended (t ∷ ts) l e =
      turns_ended ts (turn t l) (ap (λ (m : Loop A). m.running) (turn_ended t l e) ∙ e)

  turn-Drains :
      (t : Turn) (n : ℕ) (l : Loop A)
      → l.stop_requested ≡ true
      → l.drain_on_stop ≡ true
      → length l.queue ≤ suc n
      → Drains n (turn t l)
  unfolding turn take_op flush should_flush check_wal check_vacuum finish
  turn-Drains t n l s d q = ground arith

  turn_last :
      (t : Turn) (l : Loop A)
      → l.stop_requested ≡ true
      → l.drain_on_stop ≡ true
      → length l.queue ≤ 1
      → (turn t l).running ≡ false
  unfolding turn take_op flush should_flush check_wal check_vacuum finish
  turn_last t l s d q = ground arith

  drained :
      (n : ℕ) (ts : List Turn) (l : Loop A)
      → length ts ≡ suc n
      → Drains (suc n) l
      → (turns ts l).running ≡ false
  unfolding turns
  drained n [] l h v = absurd (omega arith)
  drained n (t ∷ ts) l h (inl e) = turns_ended (t ∷ ts) l e
  drained zero (t ∷ ts) l h (inr (s, d, q)) = turns_ended ts (turn t l) (turn_last t l s d q)
  drained (suc n) (t ∷ ts) l h (inr (s, d, q)) =
      drained n ts (turn t l) (omega arith) (turn-Drains t (suc n) l s d q)

-- A stop with draining of a writer that was not stopped: as many turns of the thread as the queue
-- has operations, and one turn where it has none, end the thread, whatever the clock and the
-- database say meanwhile.
pub stop-turns :
    {A : Type 0} (l : Loop A) (n : ℕ) (ts : List Turn)
    → l.stopped ≡ false
    → length l.queue ≤ suc n
    → length ts ≡ suc n
    → (turns ts (stop true l)).running ≡ false
unfolding stop
stop-turns l n ts e q h = drained n ts (stop true l) h (simp e (inr (refl, refl, q)))
