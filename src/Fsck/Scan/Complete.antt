-- ===== src/Fsck/Scan/Complete.antt =====
-- The scan of fsck.py finds every row.
use reroll_sync.Base.{
  ℕ, zero, suc, ◌≤◌, ◌<◌, ◌≡◌, refl, sym, ap, ◌∙◌, Bool, true, false, List, [], ◌∷◌, ◌++◌, Option,
  none, some, length, take, drop, ltb, arith, Bool-cases, ◌⊎◌, inl, inr,
}
use reroll_sync.Sql.{select, insert_by, order_by}
use reroll_sync.Fsck.Scan.{
  Row, values, past, earlier, page_rows, last_of, next_cursor, with_page, chunked_scan, RowCheck,
  violation_of, reported, run_row_check,
}

-- The rows in the order of their rowids, each `lo` or more.
abbrev pub Ascending : ℕ → List Row → Type 0
Ascending lo [] = Unit {0}
Ascending lo (r ∷ rs) = (lo ≤ r.1) × Ascending (suc r.1) rs

order_by-Ascending : (lo : ℕ) (xs : List Row) → Ascending lo xs → order_by earlier xs ≡ xs
unfolding order_by insert_by
order_by-Ascending lo [] h = refl
order_by-Ascending lo (x ∷ []) h = refl
order_by-Ascending lo (x ∷ y ∷ ys) (_, h) =
    let same = order_by-Ascending (suc x.1) (y ∷ ys) h in
    let late : ltb y.1 x.1 ≡ false = ground arith in ap (insert_by earlier x) same ∙ rw late refl

pub Ascending-le : (k lo : ℕ) (xs : List Row) → k ≤ lo → Ascending lo xs → Ascending k xs
Ascending-le k lo [] le h = tt
Ascending-le k lo (x ∷ xs) le (first, h) = (omega arith, h)

select-past : (c : ℕ) (xs : List Row) → Ascending (suc c) xs → select (past (some c)) xs ≡ xs
unfolding select
select-past c [] h = refl
select-past c (x ∷ xs) (le, h) =
    let later : ltb c x.1 ≡ true = ground arith in
    let rest = select-past c xs (Ascending-le (suc c) (suc x.1) xs (omega arith) h) in
    rw (later, rest) refl

last_of_le : (lo n k : ℕ) (xs : List Row) → k ≤ lo → Ascending lo xs → k ≤ last_of lo (take n xs)
last_of_le lo zero k xs le h = le
last_of_le lo (suc n) k [] le h = le
last_of_le lo (suc n) k (x ∷ xs) le (first, h) =
    last_of_le x.1 n k xs (omega arith) (Ascending-le x.1 (suc x.1) xs (omega arith) h)

-- What is past the last row of a page are the rows after the page.
select_next :
    (n lo : ℕ) (x : Row) (xs : List Row)
    → Ascending lo (x ∷ xs)
    → select (past (some (last_of x.1 (take n xs)))) (x ∷ xs) ≡ drop n xs
unfolding select
select_next zero lo x xs (_, h) =
    let this : ltb x.1 x.1 ≡ false = ground arith in rw (this, select-past x.1 xs h) refl
select_next (suc n) lo x [] (_, h) = let this : ltb x.1 x.1 ≡ false = ground arith in rw this refl
select_next (suc n) lo x (y ∷ ys) (_, h) =
    let le = last_of_le y.1 n (suc x.1) ys h.0 (Ascending-le y.1 (suc y.1) ys (omega arith) h.1) in
    let this : ltb (last_of y.1 (take n ys)) x.1 ≡ false = ground arith in
    rw this (select_next n (suc x.1) y ys h)

select-select :
    (p q : Row → Bool)
    → ((x : Row) → q x ≡ true → p x ≡ true)
    → (xs : List Row) → select q (select p xs) ≡ select q xs
unfolding select
select-select p q imp [] = refl
select-select p q imp (x ∷ xs) = elim (Bool-cases (p x)) [
  | inl t ↦ rw (t, select-select p q imp xs) refl
  | inr f ↦ elim (Bool-cases (q x)) [
    | inl t ↦ absurd (let both = imp x t in cc)
    | inr g ↦ rw (f, g, select-select p q imp xs) refl
  ]
]

take-take : (n : ℕ) (xs : List Row) → take n (take (suc n) xs) ≡ take n xs
take-take zero xs = refl
take-take (suc n) [] = refl
take-take (suc n) (x ∷ xs) = ap (λ ys. x ∷ ys) (take-take n xs)

-- Either there is a next page, or the page has all rows.
page_cases :
    (n : ℕ) (xs : List Row)
    → (ltb n (length (take (suc n) xs)) ≡ true)
      ⊎ ((ltb n (length (take (suc n) xs)) ≡ false) × (take n xs ≡ xs))
page_cases zero [] = inr (ground arith, refl)
page_cases zero (x ∷ xs) = inl (ground arith)
page_cases (suc n) [] = inr (ground arith, refl)
page_cases (suc n) (x ∷ xs) = elim (page_cases n xs) [
  | inl t ↦ inl (ground arith)
  | inr (f, e) ↦ inr (ground arith, ap (λ ys. x ∷ ys) e)
]

values_split : (n : ℕ) (xs : List Row) → values (take n xs) ++ values (drop n xs) ≡ values xs
values_split zero xs = refl
values_split (suc n) [] = refl
values_split (suc n) (x ∷ xs) = ap (λ vs. x.0 ∷ vs) (values_split n xs)

length-drop_le : (n : ℕ) (xs : List Row) → length (drop n xs) ≤ length xs
length-drop_le zero xs = omega arith
length-drop_le (suc n) [] = omega arith
length-drop_le (suc n) (x ∷ xs) = omega (arith, length-drop_le n xs)

Ascending-drop :
    (n b : ℕ) (xs : List Row)
    → Ascending (suc b) xs
    → Ascending (suc (last_of b (take n xs))) (drop n xs)
Ascending-drop zero b xs h = h
Ascending-drop (suc n) b [] h = tt
Ascending-drop (suc n) b (y ∷ ys) (_, h) = Ascending-drop n y.1 ys h

abbrev Below : Option ℕ → ℕ → Type 0
Below none lo = Unit {0}
Below (some c) lo = c < lo

past_mono :
    (cursor : Option ℕ) (lo next : ℕ)
    → Below cursor lo
    → lo ≤ next
    → (r : Row) → past (some next) r ≡ true
    → past cursor r ≡ true
past_mono none lo next below le r h = refl
past_mono (some c) lo next below le r h = ground arith

-- the rows past the next cursor, from those past this one
select_after :
    (n lo : ℕ) (cursor : Option ℕ) (rows : List Row) (x : Row) (xs : List Row)
    → select (past cursor) rows ≡ x ∷ xs
    → Below cursor lo
    → Ascending lo (x ∷ xs)
    → select (past (some (last_of x.1 (take n xs)))) rows ≡ drop n xs
select_after n lo cursor rows x xs all below h =
    let next = last_of x.1 (take n xs) in
    let le =
      last_of_le x.1 n x.1 xs (omega arith) (Ascending-le x.1 (suc x.1) xs (omega arith) h.1) in
    let imp = past_mono cursor lo next below (omega (arith, le, h.0)) in
    sym (select-select (past cursor) (past (some next)) imp rows)
    ∙ ap (select (past (some next))) all
    ∙ select_next n lo x xs h

page_more :
    (size fuel : ℕ) (cursor : Option ℕ) (rows found page : List Row)
    → page_rows size cursor rows ≡ found
    → take size found ≡ page
    → ltb size (length found) ≡ true
    → chunked_scan (suc fuel) size cursor rows
      ≡ with_page (values page) (chunked_scan fuel size (next_cursor page) rows)
unfolding chunked_scan
page_more size fuel cursor rows found page e cut t = rw (e, t, cut) refl

page_last :
    (size fuel : ℕ) (cursor : Option ℕ) (rows found page : List Row)
    → page_rows size cursor rows ≡ found
    → take size found ≡ page
    → ltb size (length found) ≡ false
    → chunked_scan (suc fuel) size cursor rows ≡ some (values page)
unfolding chunked_scan
page_last size fuel cursor rows found page e cut f = rw (e, f, cut) refl

page_rows_lem :
    (size lo : ℕ) (cursor : Option ℕ) (rows rest : List Row)
    → select (past cursor) rows ≡ rest
    → Ascending lo rest
    → page_rows size cursor rows ≡ take (suc size) rest
unfolding page_rows
page_rows_lem size lo cursor rows rest all h =
    ap (take (suc size)) (ap (order_by earlier) all ∙ order_by-Ascending lo rest h)

chunked_scan_from :
    (n lo fuel : ℕ) (cursor : Option ℕ) (rows rest : List Row)
    → select (past cursor) rows ≡ rest
    → Below cursor lo
    → Ascending lo rest
    → length rest < fuel
    → chunked_scan fuel (suc n) cursor rows ≡ some (values rest)
chunked_scan_from n lo zero cursor rows rest all below h room = absurd (omega (arith, room))
chunked_scan_from n lo (suc fuel) cursor rows [] all below h room =
    page_last (suc n) fuel cursor rows [] [] (page_rows_lem (suc n) lo cursor rows [] all h) refl
      (ground arith)
chunked_scan_from n lo (suc fuel) cursor rows (x ∷ xs) all below h room =
    let found = page_rows_lem (suc n) lo cursor rows (x ∷ xs) all h in
    let cut = take-take (suc n) (x ∷ xs) in
    let next = last_of x.1 (take n xs) in
    let rest =
      chunked_scan_from n (suc next) fuel (some next) rows (drop n xs)
        (select_after n lo cursor rows x xs all below h) (omega arith) (Ascending-drop n x.1 xs h.1)
        (omega (arith, room, length-drop_le n xs)) in
    elim (page_cases (suc n) (x ∷ xs)) [
      | inl t ↦
          page_more (suc n) fuel cursor rows _ _ found cut t
          ∙ ap (with_page (values (x ∷ take n xs))) rest
          ∙ ap some (values_split (suc n) (x ∷ xs))
      | inr (f, e) ↦
          page_last (suc n) fuel cursor rows _ _ found cut f ∙ ap (λ ys. some (values ys)) e
    ]

select_all : (rows : List Row) → select (past none) rows ≡ rows
unfolding select
select_all [] = refl
select_all (r ∷ rs) = ap (λ ys. r ∷ ys) (select_all rs)

-- A check whose rows are in the order of their rowids, with pages of one row or more and more
-- rounds of fuel than rows: it ends, and it reports nothing where there is no row, and otherwise
-- the number of all rows and the values of the first, at most `limit`.
pub run_row_check_complete :
    (n fuel limit : ℕ) (check : RowCheck)
    → Ascending 0 check.rows
    → length check.rows < fuel
    → run_row_check fuel (suc n) limit check ≡ some (violation_of limit check (values check.rows))
unfolding run_row_check
run_row_check_complete n fuel limit check h room =
    ap (reported limit check)
      (chunked_scan_from n 0 fuel none check.rows check.rows (select_all check.rows) tt h room)
