-- ===== src/Campaign/Reprocess/Versions.antt =====
-- `reprocess` on a version: its two loops end, and what they leave.
use reroll_sync.Base.{
  ℕ, zero, suc, ◌+◌, ◌≤◌, ◌<◌, ◌≡◌, ◌∙◌, refl, sym, Bool, true, false, ◌||◌, List, [], ◌∷◌, arith,
  length, some, inl, inr, All, Bool-cases, ltb, String, ltb→lt, subst, map, All-imp,
}
use reroll_sync.Sql.{count}
use reroll_sync.Db.{Conn, Timestamp, RepodataRow, SkipRow, ok}
use reroll_sync.Dispatcher.Claim.{contains}
use reroll_sync.Campaign.Selector.{reroll_version_below}
use reroll_sync.Campaign.Reprocess.{
  Outcome, is_stale_row, is_joined_skip, repodata_rows, skip_rows, distinct,
}
use reroll_sync.Campaign.Reprocess.Chunk.{is_left, left_le, left_none, chunk_fewer, chunk_last}
use reroll_sync.Campaign.Reprocess.Rounds.{
  repodata_ids, skip_ids, is_empty, repodata_rounds, skip_rounds, reprocess,
}
use reroll_sync.Campaign.Reprocess.Stale.{
  repodata_key, skip_key, stale_rows, stale_skips, chunk_runs,
}

-- `distinct` keeps every id.
contains-distinct :
    (i : ℕ) (seen xs : List ℕ)
    → (contains i seen || contains i (distinct seen xs)) ≡ (contains i seen || contains i xs)
contains-distinct i seen [] = refl
contains-distinct i seen (x ∷ xs) =
    ground (arith, contains-distinct i seen xs, contains-distinct i (x ∷ seen) xs)

module _ {R : Type 0} (key : R → ℕ) where
  All-contains : (rows : List R) → All (λ r. contains (key r) (map key rows) ≡ true) rows
  All-contains [] = tt
  All-contains (r ∷ rows) =
      (ground arith, All-imp _ _ (λ v h. ground arith) rows (All-contains rows))

  All-contains-distinct :
      (rows : List R) → All (λ r. contains (key r) (distinct [] (map key rows)) ≡ true) rows
  All-contains-distinct rows =
      All-imp _ _ (λ r h. contains-distinct (key r) [] (map key rows) ∙ h) rows (All-contains rows)

is_empty-false {ℓ} :
    {A : Type ℓ} (xs : List A) → is_empty xs ≡ false → (y : A) × (ys : List A) × (xs ≡ y ∷ ys)
is_empty-false [] e = absurd (cc)
is_empty-false (y ∷ ys) e = (y, ys, refl)

is_empty-true {ℓ} : {A : Type ℓ} (xs : List A) → is_empty xs ≡ true → xs ≡ []
is_empty-true [] e = refl
is_empty-true (y ∷ ys) e = absurd (cc)

All_head :
    {R : Type 0} (P : R → Type 0) (rows : List R) (y : R) (ys : List R)
    → rows ≡ y ∷ ys
    → All P rows
    → P y
All_head P [] y ys e h = absurd (cc)
All_head P (x ∷ xs) y ys e h = let same : x ≡ y = ground arith in subst P same h.0

-- No row of either table is stale any more.
abbrev pub IsFresh : (String → String → Bool) → String → Outcome → Type 0
IsFresh text_lt version outcome =
    (n : ℕ) × (c' : Conn) × (outcome ≡ some (ok n, c'))
    × (stale_rows text_lt version c'.db ≡ 0)
    × (stale_skips text_lt version c'.db ≡ 0)

module _ (text_lt : String → String → Bool) (version : String) (size : ℕ) (clock : ℕ → Timestamp)
    (pos : 0 < size) where
  rows_left :
      (c : Conn) (ids : List ℕ)
      → length (repodata_rows text_lt version size c.db) < size
      → All (λ r. contains (repodata_key r) ids ≡ true) (repodata_rows text_lt version size c.db)
      → count (is_left repodata_key (is_stale_row text_lt version c.db) ids) c.db.wheel_repodata ≡ 0
  unfolding repodata_rows
  rows_left c ids short all = chunk_last repodata_key _ _ size c.db.wheel_repodata ids short all

  rows_fewer :
      (c : Conn) (ids : List ℕ) (y : RepodataRow) (ys : List RepodataRow)
      → repodata_rows text_lt version size c.db ≡ y ∷ ys
      → contains (repodata_key y) ids ≡ true
      → count (is_left repodata_key (is_stale_row text_lt version c.db) ids) c.db.wheel_repodata
        < stale_rows text_lt version c.db
  unfolding repodata_rows
  rows_fewer c ids y ys e h = chunk_fewer repodata_key _ _ size c.db.wheel_repodata ids y ys e h

  abbrev Phase1 : Conn → Outcome → Type 0
  Phase1 c outcome =
      (n : ℕ) × (c' : Conn) × (outcome ≡ some (ok n, c'))
      × (stale_rows text_lt version c'.db ≡ 0)
      × (stale_skips text_lt version c'.db ≤ stale_skips text_lt version c.db)

  repodata_rounds_lem :
      (fuel total : ℕ) (c : Conn)
      → stale_rows text_lt version c.db < fuel
      → Phase1 c (repodata_rounds text_lt size clock fuel version total c)
  unfolding repodata_rounds
  repodata_rounds_lem zero total c h = absurd (omega arith)
  repodata_rounds_lem (suc fuel) total c h =
      let rows = repodata_rows text_lt version size c.db in
      let ids = repodata_ids rows in
      let all = All-contains repodata_key rows in
      let (n, c', run, fewer, skips) = chunk_runs text_lt version ids (clock fuel) c in
      let fewer_skips = left_le skip_key (is_joined_skip text_lt version c.db) ids c.db.skips in
      elim (Bool-cases (is_empty rows)) [
        | inl e ↦
            let nothing : rows ≡ [] = is_empty-true rows e in
            rw e (
              total,
              c,
              refl,
              sym (left_none repodata_key (is_stale_row text_lt version c.db) c.db.wheel_repodata)
                  ∙ rows_left c [] (rw nothing pos) (rw nothing tt),
              omega arith,
            )
        | inr e ↦
            let (y, ys, first) = is_empty-false rows e in
            elim (Bool-cases (ltb (length rows) size)) [
              | inl short ↦
                  rw (e, run, short)
                    (
                      total + n,
                      c',
                      refl,
                      fewer ∙ rows_left c ids (ltb→lt _ _ short) all,
                      omega (arith, skips, fewer_skips),
                    )
              | inr full ↦
                  let less = rows_fewer c ids y ys first (All_head _ rows y ys first all) in
                  let (m, c'', eq, done, fewer') =
                    repodata_rounds_lem fuel (total + n) c' (omega (arith, fewer, less)) in
                  rw (e, run, full) (m, c'', eq, done, omega (arith, fewer', skips, fewer_skips))
            ]
      ]

  skips_left :
      (c : Conn) (ids : List ℕ)
      → length (skip_rows text_lt version size c.db) < size
      → All (λ r. contains (skip_key r) ids ≡ true) (skip_rows text_lt version size c.db)
      → count (is_left skip_key (is_joined_skip text_lt version c.db) ids) c.db.skips ≡ 0
  unfolding skip_rows
  skips_left c ids short all = chunk_last skip_key _ _ size c.db.skips ids short all

  skips_fewer :
      (c : Conn) (ids : List ℕ) (y : SkipRow) (ys : List SkipRow)
      → skip_rows text_lt version size c.db ≡ y ∷ ys
      → contains (skip_key y) ids ≡ true
      → count (is_left skip_key (is_joined_skip text_lt version c.db) ids) c.db.skips
        < stale_skips text_lt version c.db
  unfolding skip_rows
  skips_fewer c ids y ys e h = chunk_fewer skip_key _ _ size c.db.skips ids y ys e h

  skip_rounds-IsFresh :
      (fuel total : ℕ) (c : Conn)
      → stale_rows text_lt version c.db ≡ 0
      → stale_skips text_lt version c.db < fuel
      → IsFresh text_lt version (skip_rounds text_lt size clock fuel version total c)
  unfolding skip_rounds
  skip_rounds-IsFresh zero total c z h = absurd (omega arith)
  skip_rounds-IsFresh (suc fuel) total c z h =
      let rows = skip_rows text_lt version size c.db in
      let ids = skip_ids rows in
      let all = All-contains-distinct skip_key rows in
      let (n, c', run, row, fewer) = chunk_runs text_lt version ids (clock fuel) c in
      let none_more =
        left_le repodata_key (is_stale_row text_lt version c.db) ids c.db.wheel_repodata in
      let still : stale_rows text_lt version c'.db ≡ 0 = omega (arith, row, none_more, z) in
      elim (Bool-cases (is_empty rows)) [
        | inl e ↦
            let nothing : rows ≡ [] = is_empty-true rows e in
            rw e (
              total,
              c,
              refl,
              z,
              sym (left_none skip_key (is_joined_skip text_lt version c.db) c.db.skips)
                  ∙ skips_left c [] (rw nothing pos) (rw nothing tt),
            )
        | inr e ↦
            let (y, ys, first) = is_empty-false rows e in
            elim (Bool-cases (ltb (length rows) size)) [
              | inl short ↦
                  rw (e, run, short)
                    (total + n, c', refl, still, fewer ∙ skips_left c ids (ltb→lt _ _ short) all)
              | inr full ↦
                  let less = skips_fewer c ids y ys first (All_head _ rows y ys first all) in
                  let (m, c'', eq, done, done') =
                    skip_rounds-IsFresh fuel (total + n) c' still (omega (arith, fewer, less)) in
                  rw (e, run, full) (m, c'', eq, done, done')
            ]
      ]

-- The campaign on a version, with chunks of one row or more and more rounds of fuel for each loop
-- than it has rows at the start: it ends, and then neither table has a row below the version that
-- it selects, a row of a wheel that is not deleted and, for a skip, not permanent.
pub reprocess-IsFresh :
    (text_lt : String → String → Bool) (version : String) (size : ℕ) (clock : ℕ → Timestamp)
    (fuel : ℕ) (c : Conn)
    → 0 < size
    → stale_rows text_lt version c.db < fuel
    → stale_skips text_lt version c.db < fuel
    → IsFresh text_lt version (reprocess text_lt size clock fuel (reroll_version_below version) c)
unfolding reprocess
reprocess-IsFresh text_lt version size clock fuel c pos h k =
    let (n, c', eq, z, le) = repodata_rounds_lem text_lt version size clock pos fuel 0 c h in
    rw eq (skip_rounds-IsFresh text_lt version size clock pos fuel n c' z (omega arith))
