-- ===== src/Archive/Verify/Sound.antt =====
-- What a verification without problems says of the rows of `blobs`.
use reroll_sync.Base.{
  ◌≡◌, refl, true, List, [], ◌∷◌, ◌++◌, arith, Option, none, some, inl, inr, All, Option-cases,
  Bool-cases, if◌then◌else◌, String, text_eq, text_eq_iff, Member,
}
use reroll_sync.Archive.Verify.{
  Place, place_eq, Positions, lookup, check_footer, check_blobs, items, unless_later,
  compare_places, missing,
}

pub append_nil_parts : {A : Type 0} (xs ys : List A) → xs ++ ys ≡ [] → (xs ≡ []) × (ys ≡ [])
append_nil_parts [] ys e = (refl, e)
append_nil_parts (x ∷ xs) ys e = absurd (cc)

All-unless_later :
    (P : String × Place → Type 0) (o : Option Place) (q : String × Place) (rest : Positions)
    → All P (unless_later o q rest)
    → All P rest
All-unless_later P none q rest h = h.1
All-unless_later P (some r) q rest h = h

-- The items of a dictionary are what it looks up.
pub items-All :
    (P : String × Place → Type 0) (sha : String) (p : Place) (ps : Positions)
    → All P (items ps)
    → lookup sha ps ≡ some p
    → P (sha, p)
unfolding items lookup
items-All P sha p [] h e = absurd (cc)
items-All P sha p ((s, q) ∷ ps) h e = elim (Option-cases (lookup sha ps)) [
  | inl none_later ↦
      let e' : (if text_eq s sha then some q else none) ≡ some p = rw none_later at e in
      elim (Bool-cases (text_eq s sha)) [
        | inl same ↦
            let eq : s ≡ sha = (text_eq_iff s sha).0 same in
            let placed : q ≡ p = ground arith in
            let gone : lookup s ps ≡ none = rw eq none_later in
            let h' : P (s, q) × All P (items ps) = rw gone at h in rw (← eq, ← placed) h'.0
        | inr other ↦ absurd (ground arith)
      ]
  | inr (r, later) ↦
      let same : r ≡ p = ground arith in
      items-All P sha p ps (All-unless_later P (lookup s ps) (s, q) (items ps) h)
        (rw (← same) later)
]

pub lookup-Member :
    (sha : String) (p : Place) (ps : Positions) → lookup sha ps ≡ some p → Member (sha, p) ps
unfolding lookup
lookup-Member sha p [] e = absurd (cc)
lookup-Member sha p ((s, q) ∷ ps) e = elim (Option-cases (lookup sha ps)) [
  | inl none_later ↦
      let e' : (if text_eq s sha then some q else none) ≡ some p = rw none_later at e in
      elim (Bool-cases (text_eq s sha)) [
        | inl same ↦
            let eq : s ≡ sha = (text_eq_iff s sha).0 same in
            let placed : q ≡ p = ground arith in inl (rw (eq, placed))
        | inr other ↦ absurd (ground arith)
      ]
  | inr (r, later) ↦
      let same : r ≡ p = ground arith in inr (lookup-Member sha p ps (rw (← same) later))
]

-- no problem in the loop over the footer
pub check_footer_clean :
    (blobs ps : Positions)
    → check_footer blobs ps ≡ []
    → All (λ q. (r : Place) × (lookup q.0 blobs ≡ some r) × (place_eq r q.1 ≡ true)) ps
unfolding check_footer
check_footer_clean blobs [] e = tt
check_footer_clean blobs ((s, q) ∷ ps) e =
    let (here, others) =
      append_nil_parts (compare_places s q (lookup s blobs)) (check_footer blobs ps) e in
    (same_place s q (lookup s blobs) here, check_footer_clean blobs ps others)
  where
    same_place :
        (s : String) (q : Place) (o : Option Place)
        → compare_places s q o ≡ []
        → (r : Place) × (o ≡ some r) × (place_eq r q ≡ true)
    same_place s q none e = absurd (cc)
    same_place s q (some r) e = (r, refl, ground arith)

pub check_blobs_clean :
    (footer ps : Positions)
    → check_blobs footer ps ≡ []
    → All (λ q. (r : Place) × (lookup q.0 footer ≡ some r)) ps
unfolding check_blobs
check_blobs_clean footer [] e = tt
check_blobs_clean footer ((s, q) ∷ ps) e =
    let (here, others) = append_nil_parts (missing s (lookup s footer)) (check_blobs footer ps) e in
    (found s (lookup s footer) here, check_blobs_clean footer ps others)
  where
    found : (s : String) (o : Option Place) → missing s o ≡ [] → (r : Place) × (o ≡ some r)
    found s none e = absurd (cc)
    found s (some r) e = (r, refl)
