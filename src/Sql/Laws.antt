-- ===== src/Sql/Laws.antt =====
-- What the statements do to a table, row by row.
use reroll_sync.Base.{
  ◌≡◌, refl, Bool, true, false, none, some, List, [], ◌∷◌, ◌++◌, arith, All, inl, inr, Bool-cases,
  any, Member, ◌∙◌, ◌||◌, ap, length, suc, ◌≤◌, subst,
}
use reroll_sync.Sql.{select, delete, update, find, upsert, insert_by, order_by}

module _ {ℓ} {A : Type ℓ} where
  pub All-select {κ} :
      (P : A → Type κ) (p : A → Bool) (xs : List A) → All P xs → All P (select p xs)
  unfolding select
  All-select P p [] h = tt
  All-select P p (x ∷ xs) h = elim (Bool-cases (p x)) [
    | inl e ↦ rw e (h.0, All-select P p xs h.1)
    | inr e ↦ rw e (All-select P p xs h.1)
  ]

  -- Every row that a SELECT returns satisfies its WHERE clause.
  pub select-All : (p : A → Bool) (xs : List A) → All (λ x. p x ≡ true) (select p xs)
  unfolding select
  select-All p [] = tt
  select-All p (x ∷ xs) = elim (Bool-cases (p x)) [
    | inl e ↦ rw e (e, select-All p xs)
    | inr e ↦ rw e (select-All p xs)
  ]

  pub All-delete {κ} :
      (P : A → Type κ) (p : A → Bool) (xs : List A) → All P xs → All P (delete p xs)
  unfolding delete
  All-delete P p [] h = tt
  All-delete P p (x ∷ xs) h = elim (Bool-cases (p x)) [
    | inl e ↦ rw e (All-delete P p xs h.1)
    | inr e ↦ rw e (h.0, All-delete P p xs h.1)
  ]

  pub All-update {κ ρ} :
      (P : A → Type κ) (Q : A → Type ρ) (p : A → Bool) (f : A → A)
      → ((x : A) → p x ≡ true → P x → Q (f x))
      → ((x : A) → p x ≡ false → P x → Q x)
      → (xs : List A) → All P xs
      → All Q (update p f xs)
  unfolding update
  All-update P Q p f hit miss [] h = tt
  All-update P Q p f hit miss (x ∷ xs) h = elim (Bool-cases (p x)) [
    | inl e ↦ rw e (hit x e h.0, All-update P Q p f hit miss xs h.1)
    | inr e ↦ rw e (miss x e h.0, All-update P Q p f hit miss xs h.1)
  ]

  pub All-upsert {κ} :
      (P : A → Type κ) (p : A → Bool) (f : A → A) (new : A)
      → ((x : A) → p x ≡ true → P x → P (f x))
      → P new
      → (xs : List A) → All P xs
      → All P (upsert p f new xs)
  unfolding upsert
  All-upsert P p f new hit fresh [] h = (fresh, tt)
  All-upsert P p f new hit fresh (x ∷ xs) h = elim (Bool-cases (p x)) [
    | inl e ↦ rw e (hit x e h.0, h.1)
    | inr e ↦ rw e (h.0, All-upsert P p f new hit fresh xs h.1)
  ]

  -- Nothing that a DELETE matched is left.
  pub find-delete : (p : A → Bool) (xs : List A) → find p (delete p xs) ≡ none
  unfolding find delete
  find-delete p [] = refl
  find-delete p (x ∷ xs) = elim (Bool-cases (p x)) [
    | inl e ↦ rw e (find-delete p xs)
    | inr e ↦ rw (e, e) (find-delete p xs)
  ]

  -- A DELETE of other rows does not change what a key selects.
  pub find-delete_ne :
      (q p : A → Bool)
      → ((x : A) → q x ≡ true → p x ≡ false)
      → (xs : List A) → find q (delete p xs) ≡ find q xs
  unfolding find delete
  find-delete_ne q p h [] = refl
  find-delete_ne q p h (x ∷ xs) = ground (arith, h x, find-delete_ne q p h xs)

  -- An UPDATE of the row that a key selects, which keeps the key.
  pub find-update :
      (p : A → Bool) (f : A → A)
      → ((x : A) → p x ≡ true → p (f x) ≡ true)
      → (xs : List A)
      → find p (update p f xs) ≡ (elim (find p xs) [ none ↦ none | some x ↦ some (f x) ])
  unfolding find update
  find-update p f h [] = refl
  find-update p f h (x ∷ xs) = elim (Bool-cases (p x)) [
    | inl e ↦ rw (e, h x e)
    | inr e ↦ rw (e, e) (find-update p f h xs)
  ]

  -- An UPDATE of other rows, which leaves them other, does not change what a key selects.
  pub find-update_ne :
      (q p : A → Bool) (f : A → A)
      → ((x : A) → p x ≡ true → q x ≡ false)
      → ((x : A) → p x ≡ true → q (f x) ≡ false)
      → (xs : List A) → find q (update p f xs) ≡ find q xs
  unfolding find update
  find-update_ne q p f h k [] = refl
  find-update_ne q p f h k (x ∷ xs) = ground (arith, h x, k x, find-update_ne q p f h k xs)

  -- After an upsert the key selects the merged row, or the new one.
  pub find-upsert :
      (p : A → Bool) (f : A → A) (new : A)
      → ((x : A) → p x ≡ true → p (f x) ≡ true)
      → p new ≡ true
      → (xs : List A)
      → find p (upsert p f new xs) ≡ some (elim (find p xs) [ none ↦ new | some x ↦ f x ])
  unfolding find upsert
  find-upsert p f new h k [] = rw k
  find-upsert p f new h k (x ∷ xs) = elim (Bool-cases (p x)) [
    | inl e ↦ rw e (rw (h x e))
    | inr e ↦ rw e (rw e (find-upsert p f new h k xs))
  ]

  pub find-snoc :
      (p : A → Bool) (xs : List A) (x : A)
      → find p xs ≡ none
      → p x ≡ true
      → find p (xs ++ x ∷ []) ≡ some x
  unfolding find
  find-snoc p [] x e h = rw h
  find-snoc p (y ∷ ys) x e h = ground (arith, find-snoc p ys x)

  -- The row that a key selects is a row, and it has the key.
  pub find-All {κ} :
      (P : A → Type κ) (p : A → Bool) (xs : List A) (x : A)
      → find p xs ≡ some x
      → All P xs
      → P x × (p x ≡ true)
  unfolding find
  find-All P p [] x e h = absurd (cc)
  find-All P p (y ∷ ys) x e h = elim (Bool-cases (p y)) [
    | inl t ↦ let same : y ≡ x = ground arith in subst (λ z. P z × (p z ≡ true)) same (h.0, t)
    | inr f ↦ find-All P p ys x (ground arith) h.1
  ]

  pub length-delete_le : (p : A → Bool) (xs : List A) → length (delete p xs) ≤ length xs
  unfolding delete
  length-delete_le p [] = omega arith
  length-delete_le p (x ∷ xs) = ground (arith, length-delete_le p xs)

  pub length-delete_found :
      (p : A → Bool) (xs : List A) (x : A)
      → find p xs ≡ some x
      → suc (length (delete p xs)) ≤ length xs
  unfolding find delete
  length-delete_found p [] x e = absurd (cc)
  length-delete_found p (y ∷ ys) x e =
      ground (arith, length-delete_le p ys, length-delete_found p ys x)

  any-insert_by :
      (lt : A → A → Bool) (p : A → Bool) (v : A) (ws : List A)
      → any p (insert_by lt v ws) ≡ (p v || any p ws)
  unfolding insert_by
  any-insert_by lt p v [] = refl
  any-insert_by lt p v (w ∷ ws) = ground (arith, any-insert_by lt p v ws)

  -- Sorting keeps the rows.
  pub any-order_by :
      (lt : A → A → Bool) (p : A → Bool) (xs : List A) → any p (order_by lt xs) ≡ any p xs
  unfolding order_by
  any-order_by lt p [] = refl
  any-order_by lt p (x ∷ xs) =
      any-insert_by lt p x (order_by lt xs) ∙ ap (λ b. p x || b) (any-order_by lt p xs)

  All-insert_by {κ} :
      (lt : A → A → Bool) (P : A → Type κ) (v : A) (ws : List A)
      → All P (insert_by lt v ws)
      → P v × All P ws
  unfolding insert_by
  All-insert_by lt P v [] h = h
  All-insert_by lt P v (w ∷ ws) h = elim (Bool-cases (lt w v)) [
    | inl e ↦
        let h' : P w × All P (insert_by lt v ws) = rw e at h in
        let (first, others) = All-insert_by lt P v ws h'.1 in (first, (h'.0, others))
    | inr e ↦ let h' : P v × All P (w ∷ ws) = rw e at h in h'
  ]

  pub All-order_by {κ} :
      (lt : A → A → Bool) (P : A → Type κ) (xs : List A) → All P (order_by lt xs) → All P xs
  unfolding order_by
  All-order_by lt P [] h = tt
  All-order_by lt P (x ∷ xs) h =
      let (first, others) = All-insert_by lt P x (order_by lt xs) h in
      (first, All-order_by lt P xs others)

Member-insert_by :
    {A : Type 0} (lt : A → A → Bool) (a v : A) (ws : List A)
    → Member a (v ∷ ws)
    → Member a (insert_by lt v ws)
unfolding insert_by
Member-insert_by lt a v [] m = m
Member-insert_by lt a v (w ∷ ws) m = elim (Bool-cases (lt w v)) [
  | inl e ↦ rw e (elim m [
    | inl same ↦ inr (Member-insert_by lt a v ws (inl same))
    | inr (inl here) ↦ inl here
    | inr (inr later) ↦ inr (Member-insert_by lt a v ws (inr later))
  ])
  | inr e ↦ rw e m
]

pub Member-order_by :
    {A : Type 0} (lt : A → A → Bool) (a : A) (xs : List A) → Member a xs → Member a (order_by lt xs)
unfolding order_by
Member-order_by lt a [] m = m
Member-order_by lt a (x ∷ xs) m =
    Member-insert_by lt a x (order_by lt xs)
      (elim m [ inl e ↦ inl e | inr n ↦ inr (Member-order_by lt a xs n) ])

All-inserted_by {κ} :
    {A : Type 0} (lt : A → A → Bool) (P : A → Type κ) (v : A) (ws : List A)
    → P v
    → All P ws
    → All P (insert_by lt v ws)
unfolding insert_by
All-inserted_by lt P v [] h hs = (h, tt)
All-inserted_by lt P v (w ∷ ws) h hs = elim (Bool-cases (lt w v)) [
  | inl e ↦ rw e (hs.0, All-inserted_by lt P v ws h hs.1)
  | inr e ↦ rw e (h, hs)
]

pub All-ordered_by {κ} :
    {A : Type 0} (lt : A → A → Bool) (P : A → Type κ) (xs : List A)
    → All P xs
    → All P (order_by lt xs)
unfolding order_by
All-ordered_by lt P [] h = tt
All-ordered_by lt P (x ∷ xs) h =
    All-inserted_by lt P x (order_by lt xs) h.0 (All-ordered_by lt P xs h.1)

-- A row that satisfies the WHERE clause is selected.
pub Member-select :
    {A : Type 0} (p : A → Bool) (a : A) (xs : List A)
    → p a ≡ true
    → Member a xs
    → Member a (select p xs)
unfolding select
Member-select p a [] h m = absurd m
Member-select p a (x ∷ xs) h m = elim (Bool-cases (p x)) [
  | inl t ↦ rw t (elim m [ inl e ↦ inl e | inr n ↦ inr (Member-select p a xs h n) ])
  | inr f ↦ rw f (elim m [
    | inl e ↦ absurd (let h' : p x ≡ true = rw e h in cc)
    | inr n ↦ Member-select p a xs h n
  ])
]
