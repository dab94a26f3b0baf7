-- ===== src/Dispatcher/Claim/Exclusive.antt =====
-- Claims over time, and what a claim covers.
use mathlib.Core.List.{Memᴰ}
use reroll_sync.Base.{
  ℕ, zero, suc, ◌≤◌, ◌≡◌, refl, subst, ◌∙◌, ap, inl, inr, String, Bool, true, false, ◌||◌, none,
  List, [], ◌∷◌, ◌++◌, map, arith, All, All-imp, take, length, Bool-cases, ◌==◌,
}
use reroll_sync.Schema.{state_eq}
use reroll_sync.Schema.Diagram.{state_eq_iff}
use reroll_sync.Sql.{select, count}
use reroll_sync.Db.{Db, Stage, Timestamp, Wheel}
use reroll_sync.Dispatcher.Outcome.{queue_state}
use reroll_sync.Dispatcher.Claim.{
  Queue, contains, ids, to_item, insert_row, order_rows, before, is_claimable, claim_rows, claim,
  past_cursor,
}
use reroll_sync.Dispatcher.Claim.Pages.{
  IsDue, is_deferred-due, claim_rows_sound, claim_items, length-claim_rows, contains-append,
}

pub All-map {ℓ κ ρ} :
    {A : Type ℓ} {B : Type κ} (P : B → Type ρ) (f : A → B) (xs : List A)
    → All (λ x. P (f x)) xs
    → All P (map f xs)
All-map P f [] h = tt
All-map P f (x ∷ xs) h = (h.0, All-map P f xs h.1)

not_contained : (i : ℕ) (js ks : List ℕ) → contains i (js ++ ks) ≡ false → contains i ks ≡ false
not_contained i js ks h = ground (arith, contains-append i js ks)

length-map-items : (stage : Stage) (ws : List Wheel) → length (map (to_item stage) ws) ≡ length ws
length-map-items stage [] = refl
length-map-items stage (w ∷ ws) = ap suc (length-map-items stage ws)

take_all {ℓ} : {A : Type ℓ} (n : ℕ) (xs : List A) → length xs ≤ n → take n xs ≡ xs
take_all zero [] h = refl
take_all zero (x ∷ xs) h = absurd (omega arith)
take_all (suc n) [] h = refl
take_all (suc n) (x ∷ xs) h = ap (◌∷◌ x) (take_all n xs (omega arith))

abbrev row_ids : List Wheel → List ℕ
row_ids = map (λ (w : Wheel). w.id)

ids-items : (stage : Stage) (ws : List Wheel) → ids (map (to_item stage) ws) ≡ row_ids ws
ids-items stage [] = refl
ids-items stage (w ∷ ws) = ap (◌∷◌ w.id) (ids-items stage ws)

selected :
    (p : Wheel → Bool) (w : Wheel) (ws : List Wheel)
    → Memᴰ w ws
    → p w ≡ true
    → contains w.id (row_ids (select p ws)) ≡ true
unfolding select
selected p w [] m h = elim m [ ]
selected p w (x ∷ ws) (Memᴰ.head e) h =
    let e' : p x ≡ true = subst (λ v. p v ≡ true) e h in
    rw e' (ground (arith, ap (λ (v : Wheel). v.id) e))
selected p w (x ∷ ws) (Memᴰ.tail m) h = ground (arith, selected p w ws m h)

module _ (text_lt : String → String → Bool) where
  contains-insert_row :
      (i : ℕ) (v : Wheel) (ws : List Wheel)
      → contains i (row_ids (insert_row text_lt v ws)) ≡ contains i (row_ids (v ∷ ws))
  unfolding insert_row
  contains-insert_row i v [] = refl
  contains-insert_row i v (w ∷ ws) = elim (Bool-cases (before text_lt w v)) [
    | inl e ↦ rw e (ground (arith, contains-insert_row i v ws))
    | inr e ↦ rw e
  ]

  contains-order_rows :
      (i : ℕ) (ws : List Wheel)
      → contains i (row_ids (order_rows text_lt ws)) ≡ contains i (row_ids ws)
  unfolding order_rows
  contains-order_rows i [] = refl
  contains-order_rows i (w ∷ ws) =
      contains-insert_row i w (order_rows text_lt ws)
      ∙ ap (λ b. w.id == i || b) (contains-order_rows i ws)

  length-insert_row :
      (v : Wheel) (ws : List Wheel) → length (insert_row text_lt v ws) ≡ suc (length ws)
  unfolding insert_row
  length-insert_row v [] = refl
  length-insert_row v (w ∷ ws) = ground (arith, length-insert_row v ws)

  length-order_rows : (ws : List Wheel) → length (order_rows text_lt ws) ≡ length ws
  unfolding order_rows
  length-order_rows [] = refl
  length-order_rows (w ∷ ws) =
      length-insert_row w (order_rows text_lt ws) ∙ ap suc (length-order_rows ws)

  module _ (stage : Stage) (limit : ℕ) (now : Timestamp) (db : Db) (q : Queue) where
    -- A claim hands out at most `limit` items, each in the stage's state and none that was in
    -- flight before.
    pub claim_sound :
        let items = (claim text_lt stage limit now db q).0 in
        (length items ≤ limit)
        × All (λ i. (i.state ≡ queue_state stage) × (contains i.id q.in_flight ≡ false)) items
    claim_sound =
        rw (claim_items text_lt stage limit now db q, length-map-items)
          (
            length-claim_rows text_lt stage limit now db q,
            All-map _ (to_item stage) _ (
                All-imp _ _ (λ w h. (refl, h.2)) _ (claim_rows_sound text_lt stage limit now db q)),
          )

    -- Every item that a claim hands out comes from a wheel that is in the stage's state and that
    -- no work row of the stage holds back, by a quarantine or by a later attempt.
    pub claim-IsDue :
        All
          (λ w. (w.state ≡ queue_state stage) × IsDue stage now db w)
          (claim_rows text_lt stage q.cursor q.in_flight now limit db)
    claim-IsDue = All-imp _ _ (λ w h. (h.0, h.1)) _ (claim_rows_sound text_lt stage limit now db q)

    claimable_of :
        (w : Wheel)
        → w.state ≡ queue_state stage
        → IsDue stage now db w
        → contains w.id q.in_flight ≡ false
        → is_claimable text_lt stage none q.in_flight now db w ≡ true
    unfolding is_claimable past_cursor
    claimable_of w state due free =
        let same : state_eq w.state (queue_state stage) ≡ true =
          (state_eq_iff w.state (queue_state stage)).1 state in
        rw (same, is_deferred-due stage now db w due, free) refl

    selected_few :
        (ws : List Wheel)
        → length (select (is_claimable text_lt stage none q.in_flight now db) ws)
          ≤ count (λ w. state_eq w.state (queue_state stage)) ws
    unfolding select count is_claimable
    selected_few [] = omega arith
    selected_few (x ∷ xs) = ground (arith, selected_few xs)

    -- A claim from the start of the queue with a limit of at least the number of wheels in the
    -- stage's state hands out every wheel in that state that no work row holds back and that is
    -- not in flight.
    pub claim_complete :
        q.cursor ≡ none
        → count (λ w. state_eq w.state (queue_state stage)) db.wheels ≤ limit
        → (w : Wheel) → Memᴰ w db.wheels
        → w.state ≡ queue_state stage
        → IsDue stage now db w
        → contains w.id q.in_flight ≡ false
        → contains w.id (ids (claim text_lt stage limit now db q).0) ≡ true
    unfolding claim_rows
    claim_complete start room w m state due free =
        let p = is_claimable text_lt stage none q.in_flight now db in
        let fits : length (select p db.wheels) ≤ limit =
          omega (arith, room, selected_few db.wheels) in
        let h = claimable_of w state due free in
        rw (claim_items text_lt stage limit now db q, start)
          (ap (contains w.id) (ids-items stage _)
            ∙ (ap (λ ws. contains w.id (row_ids ws))
                  (take_all limit _ (rw (length-order_rows (select p db.wheels)) fits))
                ∙ (contains-order_rows w.id (select p db.wheels) ∙ selected p w db.wheels m h)))
