-- ===== src/Dispatcher/Claim/InFlight.antt =====
-- Wheels that are in flight, over any further claims and releases.
use reroll_sync.Base.{
  ℕ, ◌≡◌, ◌≢◌, refl, Bool, true, false, List, [], ◌∷◌, arith, All, All-imp, Bool-cases, ◌==◌,
  String, inl, inr,
}
use reroll_sync.Sql.{delete}
use reroll_sync.Db.{Db, Stage, Timestamp}
use reroll_sync.Dispatcher.Outcome.{QueueItem}
use reroll_sync.Dispatcher.Claim.{Queue, contains, ids, to_item, claim}
use reroll_sync.Dispatcher.Claim.Pages.{claim_rows_sound, claim_items, contains-append}
use reroll_sync.Dispatcher.Claim.Exclusive.{All-map}
use reroll_sync.Dispatcher.Apply.{StageState, release_item}

-- What happens to the queue of a stage: a claim, on any tables and at any time, or a release.
pub data Event : Type 0 where
  claims : ℕ → Timestamp → Db → Event
  releases : ℕ → Event

abbrev pub ReleasesNot : ℕ → Event → Type 0
ReleasesNot i (claims limit now db) = Unit {0}
ReleasesNot i (releases j) = j ≢ i

contains-delete :
    (i j : ℕ) (is : List ℕ)
    → j ≢ i
    → contains i is ≡ true
    → contains i (delete (λ k. k == j) is) ≡ true
unfolding delete
contains-delete i j [] ne h = h
contains-delete i j (k ∷ ks) ne h = ground (arith, contains-delete i j ks ne)

module _ (text_lt : String → String → Bool) (stage : Stage) where
  unfoldable pub step : StageState → Event → StageState
  unfolding claim release_item
  step s (claims limit now db) = record s { queue = (claim text_lt stage limit now db s.queue).1 }
  step s (releases i) = release_item i s

  unfoldable pub run : StageState → List Event → StageState
  unfolding step
  run s [] = s
  run s (e ∷ es) = run (step s e) es

  step-in_flight :
      (i : ℕ) (s : StageState) (e : Event)
      → ReleasesNot i e
      → contains i s.queue.in_flight ≡ true
      → contains i (step s e).queue.in_flight ≡ true
  unfolding step release_item
  step-in_flight i s (claims limit now db) h held = ground (
    arith,
    contains-append i s.queue.in_flight (ids (claim text_lt stage limit now db s.queue).0),
  )
  step-in_flight i s (releases j) ne held = contains-delete i j s.queue.in_flight ne held

  run-in_flight :
      (i : ℕ) (s : StageState) (es : List Event)
      → All (ReleasesNot i) es
      → contains i s.queue.in_flight ≡ true
      → contains i (run s es).queue.in_flight ≡ true
  unfolding run
  run-in_flight i s [] h held = held
  run-in_flight i s (e ∷ es) h held =
      run-in_flight i (step s e) es h.1 (step-in_flight i s e h.0 held)

  claimed-in_flight :
      (i limit : ℕ) (now : Timestamp) (db : Db) (s : StageState)
      → contains i (ids (claim text_lt stage limit now db s.queue).0) ≡ true
      → contains i (step s (claims limit now db)).queue.in_flight ≡ true
  unfolding step
  claimed-in_flight i limit now db s h = ground (
    arith,
    contains-append i s.queue.in_flight (ids (claim text_lt stage limit now db s.queue).0),
  )

  not_handed :
      (i limit : ℕ) (now : Timestamp) (db : Db) (q : Queue)
      → contains i q.in_flight ≡ true
      → contains i (ids (claim text_lt stage limit now db q).0) ≡ false
  not_handed i limit now db q held = rw (claim_items text_lt stage limit now db q) (
      none_of _ (
        All-map (λ (x : QueueItem). contains x.id q.in_flight ≡ false) (to_item stage) _
          (All-imp _ _ (λ w h. h.2) _ (claim_rows_sound text_lt stage limit now db q))))
    where
      none_of :
          (items : List QueueItem)
          → All (λ (x : QueueItem). contains x.id q.in_flight ≡ false) items
          → contains i (ids items) ≡ false
      none_of [] h = refl
      none_of (x ∷ xs) h = elim (Bool-cases (x.id == i)) [
        | inl e ↦ absurd (
            let same : x.id ≡ i = ground arith in
            let free : contains i q.in_flight ≡ false = rw same at h.0 in cc)
        | inr e ↦ ground (arith, none_of xs h.1)
      ]

  -- A wheel that one claim handed out no later claim hands out before the wheel is released,
  -- whatever claims on whatever tables and at whatever times, and whatever releases of other
  -- wheels, come in between.
  pub claim_exclusive :
      (i limit limit' : ℕ) (now now' : Timestamp) (db db' : Db) (s : StageState) (es : List Event)
      → contains i (ids (claim text_lt stage limit now db s.queue).0) ≡ true
      → All (ReleasesNot i) es
      → let later = run (step s (claims limit now db)) es in
        contains i (ids (claim text_lt stage limit' now' db' later.queue).0) ≡ false
  claim_exclusive i limit limit' now now' db db' s es handed h =
      not_handed i limit' now' db' _
        (run-in_flight i _ es h (claimed-in_flight i limit now db s handed))
