-- ===== src/Dispatcher/Claim/Pages.antt =====
-- What a page of a derived queue holds.
use reroll_sync.Base.{
  ℕ, ◌≤◌, ◌≡◌, refl, inl, inr, String, Bool, true, false, ◌&&◌, ◌||◌, none, List, [], ◌∷◌, ◌++◌,
  map, arith, All, All-take, All-imp, any, length, length-take_le, Bool-cases,
}
use reroll_sync.Schema.Diagram.{state_eq_iff}
use reroll_sync.Sql.Laws.{select-All}
use reroll_sync.Db.{Db, Stage, Timestamp, Wheel, WorkRow, work_key}
use reroll_sync.Db.Laws.{stage_eq_iff}
use reroll_sync.Dispatcher.Outcome.{queue_state}
use reroll_sync.Dispatcher.Claim.{
  Queue, contains, ids, to_item, defers, is_deferred, insert_row, order_rows, is_claimable,
  claim_rows, claim, before,
}

-- No work row for this stage holds the wheel back: none is quarantined and each is due.
abbrev pub IsDue : Stage → Timestamp → Db → Wheel → Type 0
IsDue stage now db w =
    All
      (λ r.
        r.wheel_id ≡ w.id → r.stage ≡ stage → (r.quarantined_at ≡ none) × (r.next_attempt_at ≤ now))
      db.work

any-false {ℓ} :
    {A : Type ℓ} (p : A → Bool) (xs : List A) → any p xs ≡ false → All (λ x. p x ≡ false) xs
any-false p [] h = tt
any-false p (x ∷ xs) h = elim (Bool-cases (p x)) [
  | inl e ↦ absurd (ground arith)
  | inr e ↦ (e, any-false p xs (ground arith))
]

row_due :
    (stage : Stage) (now : Timestamp) (w : Wheel) (r : WorkRow)
    → (work_key w.id stage r && defers now r) ≡ false
    → r.wheel_id ≡ w.id
    → r.stage ≡ stage
    → (r.quarantined_at ≡ none) × (r.next_attempt_at ≤ now)
unfolding defers
row_due stage now w r h i s = ground (arith, stage_eq_iff r.stage stage)

is_deferred-false :
    (stage : Stage) (now : Timestamp) (db : Db) (w : Wheel)
    → is_deferred stage now db w ≡ false
    → IsDue stage now db w
unfolding is_deferred
is_deferred-false stage now db w h =
    All-imp _ _ (row_due stage now w) db.work
      (any-false (λ r. work_key w.id stage r && defers now r) db.work h)

row_not_deferring :
    (stage : Stage) (now : Timestamp) (w : Wheel) (r : WorkRow)
    → (r.wheel_id ≡ w.id → r.stage ≡ stage → (r.quarantined_at ≡ none) × (r.next_attempt_at ≤ now))
    → (work_key w.id stage r && defers now r) ≡ false
unfolding defers
row_not_deferring stage now w r h = elim (Bool-cases (work_key w.id stage r)) [
  | inl e ↦
      let (i, s) : (r.wheel_id ≡ w.id) × (r.stage ≡ stage) =
        ground (arith, stage_eq_iff r.stage stage) in
      let (free, due) = h i s in ground arith
  | inr e ↦ rw e refl
]

-- A wheel that is due is not held back.
pub is_deferred-due :
    (stage : Stage) (now : Timestamp) (db : Db) (w : Wheel)
    → IsDue stage now db w
    → is_deferred stage now db w ≡ false
unfolding is_deferred
is_deferred-due stage now db w h =
    none_defers db.work (All-imp _ _ (row_not_deferring stage now w) db.work h)
  where
    none_defers :
        (rs : List WorkRow)
        → All (λ r. (work_key w.id stage r && defers now r) ≡ false) rs
        → any (λ r. work_key w.id stage r && defers now r) rs ≡ false
    none_defers [] h = refl
    none_defers (r ∷ rs) h = rw h.0 (none_defers rs h.1)

pub contains-append :
    (i : ℕ) (js ks : List ℕ) → contains i (js ++ ks) ≡ (contains i js || contains i ks)
contains-append i [] ks = refl
contains-append i (j ∷ js) ks = ground (arith, contains-append i js ks)

module _ (text_lt : String → String → Bool) where
  All-insert_row {κ} :
      (P : Wheel → Type κ) (v : Wheel) (ws : List Wheel)
      → P v
      → All P ws
      → All P (insert_row text_lt v ws)
  unfolding insert_row
  All-insert_row P v [] h hs = (h, tt)
  All-insert_row P v (w ∷ ws) h hs = elim (Bool-cases (before text_lt w v)) [
    | inl e ↦ rw e (hs.0, All-insert_row P v ws h hs.1)
    | inr e ↦ rw e (h, hs)
  ]

  All-order_rows {κ} :
      (P : Wheel → Type κ) (ws : List Wheel) → All P ws → All P (order_rows text_lt ws)
  unfolding order_rows
  All-order_rows P [] h = tt
  All-order_rows P (w ∷ ws) h =
      All-insert_row P w (order_rows text_lt ws) h.0 (All-order_rows P ws h.1)

  module _ (stage : Stage) (limit : ℕ) (now : Timestamp) (db : Db) (q : Queue) where
    abbrev claimed_rows : List Wheel
    claimed_rows = claim_rows text_lt stage q.cursor q.in_flight now limit db

    rows_claimable :
        All (λ w. is_claimable text_lt stage q.cursor q.in_flight now db w ≡ true) claimed_rows
    unfolding claim_rows
    rows_claimable = All-take _ limit _ (
        All-order_rows _ _
          (select-All (is_claimable text_lt stage q.cursor q.in_flight now db) db.wheels))

    claimable_parts :
        (w : Wheel)
        → is_claimable text_lt stage q.cursor q.in_flight now db w ≡ true
        → (w.state ≡ queue_state stage) × IsDue stage now db w × (contains w.id q.in_flight ≡ false)
    unfolding is_claimable
    claimable_parts w h = (
      (state_eq_iff w.state (queue_state stage)).0 (ground arith),
      is_deferred-false stage now db w (ground arith),
      ground arith,
    )

    -- Every row of a page is in the stage's state, is due, and was not in flight.
    pub claim_rows_sound :
        All
          (λ w.
            (w.state ≡ queue_state stage)
            × IsDue stage now db w
            × (contains w.id q.in_flight ≡ false))
          claimed_rows
    claim_rows_sound = All-imp _ _ claimable_parts claimed_rows rows_claimable

    pub claim_items : (claim text_lt stage limit now db q).0 ≡ map (to_item stage) claimed_rows
    unfolding claim
    claim_items = refl

    pub claim_in_flight :
        (claim text_lt stage limit now db q).1.in_flight
        ≡ q.in_flight ++ ids (claim text_lt stage limit now db q).0
    unfolding claim
    claim_in_flight = refl

    pub length-claim_rows : length claimed_rows ≤ limit
    unfolding claim_rows
    length-claim_rows = length-take_le limit _
