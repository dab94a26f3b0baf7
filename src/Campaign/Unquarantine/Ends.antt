-- ===== src/Campaign/Unquarantine/Ends.antt =====
-- The loop of `unquarantine`: it ends, and what it leaves.
use reroll_sync.Base.{
  ℕ, zero, suc, ◌+◌, ◌<◌, ◌≡◌, ◌∙◌, refl, sym, ap, true, false, List, [], ◌∷◌, arith, length,
  Option, some, inl, inr, Bool-cases, ltb, ltb→lt, String,
}
use reroll_sync.Sql.{count}
use reroll_sync.Db.{Conn, Timestamp, Wheel, Result, ok}
use reroll_sync.Campaign.Selector.{Selector}
use reroll_sync.Campaign.Unquarantine.{
  is_quarantined, is_target, row_ids, chunk_rows, campaign, unquarantine, project_filter, is_empty,
}
use reroll_sync.Campaign.Unquarantine.Requeue.{
  is_left, is_left_none, chunk_runs, chunk_fewer, chunk_last,
}

abbrev pub IsCleared : Option String → ℕ → Conn → Option (Result ℕ × Conn) → Type 0
IsCleared project total c outcome =
    (n : ℕ) × (c' : Conn) × (outcome ≡ some (ok (total + n), c'))
    × (count (is_target project) c'.db.wheels ≡ 0)
    × (n + count is_quarantined c'.db.wheels ≡ count is_quarantined c.db.wheels)

is_empty_rows :
    (rows : List Wheel) → is_empty rows ≡ false → (y : Wheel) × (ys : List Wheel) × (rows ≡ y ∷ ys)
is_empty_rows [] e = absurd (cc)
is_empty_rows (y ∷ ys) e = (y, ys, refl)

is_empty_eq : (rows : List Wheel) → is_empty rows ≡ true → rows ≡ []
is_empty_eq [] e = refl
is_empty_eq (y ∷ ys) e = absurd (cc)

campaign-IsCleared :
    (fuel : ℕ) (project : Option String) (size : ℕ) (clock : ℕ → Timestamp) (total : ℕ) (c : Conn)
    → 0 < size
    → count (is_target project) c.db.wheels < fuel
    → IsCleared project total c (campaign fuel project size clock total c)
unfolding campaign
campaign-IsCleared zero project size clock total c pos h = absurd (omega arith)
campaign-IsCleared (suc fuel) project size clock total c pos h =
    let rows = chunk_rows project size c.db in
    let (n, c', run, left, counted) = chunk_runs project size (clock fuel) c (row_ids rows) in
    elim (Bool-cases (is_empty rows)) [
      | inl e ↦
          let nothing : rows ≡ [] = is_empty_eq rows e in
          let zero_left : count (is_target project) c.db.wheels ≡ 0 =
            sym (is_left_none project c.db.wheels)
            ∙ ap (λ ws. count (is_left project (row_ids ws)) c.db.wheels) (sym nothing)
            ∙ chunk_last project size (clock fuel) c (rw nothing pos) in
          rw e (0, c, ap (λ t. some (ok t, c)) (omega arith), zero_left, omega arith)
      | inr e ↦ elim (Bool-cases (ltb (length rows) size)) [
        | inl short ↦
            rw (e, run, short)
              (
                n,
                c',
                refl,
                left ∙ chunk_last project size (clock fuel) c (ltb→lt _ _ short),
                counted,
              )
        | inr full ↦
            let (y, ys, some_rows) = is_empty_rows rows e in
            let (m, c'', eq, cleared, counted') =
              campaign-IsCleared fuel project size clock (total + n) c' pos
                (omega (arith, left, chunk_fewer project size (clock fuel) c y ys some_rows)) in
            rw (e, run, full)
              (
                n + m,
                c'',
                rw eq (ap (λ t. some (ok t, c'')) (omega arith)),
                cleared,
                omega (arith, counted, counted'),
              )
      ]
    ]

-- The campaign on a selector that is supported, with chunks of one wheel or more and more rounds of
-- fuel than there are targets: it ends, no quarantined wheel of the selection is left, and the
-- number returned is that of the wheels that left quarantine.
pub unquarantine-IsCleared :
    (fuel : ℕ) (selector : Selector) (project : Option String) (size : ℕ) (clock : ℕ → Timestamp)
    (c : Conn)
    → project_filter selector ≡ ok project
    → 0 < size
    → count (is_target project) c.db.wheels < fuel
    → IsCleared project 0 c (unquarantine fuel selector size clock c)
unfolding unquarantine
unquarantine-IsCleared fuel selector project size clock c e pos h =
    rw e (campaign-IsCleared fuel project size clock 0 c pos h)
