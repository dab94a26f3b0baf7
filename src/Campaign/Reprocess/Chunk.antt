-- ===== src/Campaign/Reprocess/Chunk.antt =====
-- What one chunk does to the rows that a campaign on a version selects. `key` is a row's wheel.
use reroll_sync.Base.{
  ℕ, ◌≤◌, ◌<◌, ◌≡◌, ◌∙◌, refl, sym, Bool, true, false, not, ◌&&◌, List, [], ◌∷◌, arith, length, inl,
  inr, All, Bool-cases, take, any, take_short, take_head,
}
use reroll_sync.Sql.{select, count, delete, order_by}
use reroll_sync.Sql.Laws.{any-order_by, All-order_by}
use reroll_sync.Dispatcher.Claim.{contains}

module _ {R : Type 0} (key : R → ℕ) where
  -- the rows that a chunk leaves
  abbrev pub is_left : (R → Bool) → List ℕ → R → Bool
  is_left p ids r = p r && not (contains (key r) ids)

  pub left_after :
      (p p' d : R → Bool) (ids : List ℕ)
      → ((r : R) → d r ≡ true → contains (key r) ids ≡ true)
      → ((r : R) → d r ≡ false → contains (key r) ids ≡ true → p' r ≡ false)
      → ((r : R) → contains (key r) ids ≡ false → p' r ≡ p r)
      → (rows : List R) → count p' (delete d rows) ≡ count (is_left p ids) rows
  unfolding count delete
  left_after p p' d ids hit kept other [] = refl
  left_after p p' d ids hit kept other (x ∷ xs) =
      ground (arith, hit x, kept x, other x, left_after p p' d ids hit kept other xs)

  pub left_le :
      (p : R → Bool) (ids : List ℕ) (rows : List R) → count (is_left p ids) rows ≤ count p rows
  unfolding count
  left_le p ids [] = omega arith
  left_le p ids (x ∷ xs) = ground (arith, left_le p ids xs)

  pub left_none : (p : R → Bool) (rows : List R) → count (is_left p []) rows ≡ count p rows
  unfolding count
  left_none p [] = refl
  left_none p (x ∷ xs) = ground (arith, left_none p xs)

  left_fewer :
      (p : R → Bool) (ids : List ℕ) (rows : List R)
      → any (λ r. contains (key r) ids) (select p rows) ≡ true
      → count (is_left p ids) rows < count p rows
  unfolding count select
  left_fewer p ids [] h = absurd (cc)
  left_fewer p ids (x ∷ xs) h = ground (arith, left_fewer p ids xs, left_le p ids xs)

  left_zero :
      (p : R → Bool) (ids : List ℕ) (rows : List R)
      → All (λ r. contains (key r) ids ≡ true) (select p rows)
      → count (is_left p ids) rows ≡ 0
  unfolding count select
  left_zero p ids [] h = refl
  left_zero p ids (x ∷ xs) h = elim (Bool-cases (p x)) [
    | inl e ↦
        let h' : (contains (key x) ids ≡ true)
            × All (λ r. contains (key r) ids ≡ true) (select p xs) =
          rw e at h in
        rw (e, h'.0) (left_zero p ids xs h'.1)
    | inr e ↦ rw e (left_zero p ids xs (rw e at h))
  ]

  -- A chunk of a sorted query: where it has a row, there are fewer left; where it is short, none is.
  module _ (p : R → Bool) (lt : R → R → Bool) (size : ℕ) (rows : List R) (ids : List ℕ) where
    abbrev chunk : List R
    chunk = take size (order_by lt (select p rows))

    pub chunk_fewer :
        (y : R) (ys : List R)
        → chunk ≡ y ∷ ys
        → contains (key y) ids ≡ true
        → count (is_left p ids) rows < count p rows
    chunk_fewer y ys e h =
        let (zs, whole) = take_head size (order_by lt (select p rows)) y ys e in
        left_fewer p ids rows
          (sym (any-order_by lt (λ r. contains (key r) ids) (select p rows)) ∙ rw whole (rw h))

    pub chunk_last :
        length chunk < size
        → All (λ r. contains (key r) ids ≡ true) chunk
        → count (is_left p ids) rows ≡ 0
    chunk_last short all = left_zero p ids rows (
        All-order_by lt _ (select p rows)
          (rw (take_short size (order_by lt (select p rows)) short) at all))
