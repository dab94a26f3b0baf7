-- ===== src/Fsck/Checks/Report.antt =====
-- What a run of the checks of fsck.py reports.
use reroll_sync.Base.{◌++◌, take, ap, All-append}
use reroll_sync.Fsck.Scan.{Value}
use reroll_sync.Fsck.Checks.{
  scans, attempt_checks, blob_segment_unresolved, orphaned_blob, skips_where, work_where,
  blobs_where,
}
use reroll_sync.Db.{BlobRow}
use reroll_sync.Base.{
  ℕ, suc, ◌≡◌, refl, Bool, ◌⊎◌, true, false, List, [], ◌∷◌, some, length, map, arith, Bool-cases,
  All, inl, inr, ◌↔◌,
}
use reroll_sync.Db.{Db, Wheel, SkipRow, WorkRow, BlobRow}
use reroll_sync.Sql.{select}
use reroll_sync.Fsck.Scan.{Value, Row, RowCheck, Violation, values, violation_of}
use reroll_sync.Fsck.Scan.Complete.{Ascending, Ascending-le, run_row_check_complete}
use reroll_sync.Fsck.Checks.{
  ready_without_repodata, repodata_without_ready, need_convert_without_blob,
  need_metadata_with_blob, no_metadata_with_metadata_sha256, skipped_without_skips_row,
  quarantined_without_work_row, deleted_without_deleted_at, deleted_at_without_deleted_state,
  permanent_skip_with_reroll_version, non_permanent_skip_without_reroll_version, stale_skip,
  work_row_for_terminal_wheel, blob_sha256_unresolved, conda_name_outside_ready,
  tombstoned_with_repodata, attempts_exceeds_max, max_attempts_without_quarantine, wheel_row,
  repodata_row, numbered, wheels_where, row_checks, keep_found, run_checks, report_ok, skips_where,
  work_where,
}

-- The tables in the order of their rowids.
abbrev pub IsOrdered : Db → Type 0
IsOrdered db =
    Ascending 0 (map wheel_row db.wheels) × Ascending 0 (map repodata_row db.wheel_repodata)

-- What a check is to report on its rows: nothing where it has none, and otherwise their number and
-- the values of the first.
abbrev pub complaints : ℕ → RowCheck → List Row → List Violation
complaints limit k [] = []
complaints limit k (r ∷ rs) =
    record {
      invariant = k.invariant;
      count = length (r ∷ rs);
      example_ids = take limit (map (λ (x : Row). x.0) (r ∷ rs));
      informational = k.informational;
    }
    ∷ []

abbrev pub violations : ℕ → List RowCheck → List Violation
violations limit [] = []
violations limit (k ∷ ks) = complaints limit k k.rows ++ violations limit ks

length-values : (rs : List Row) → length (values rs) ≡ length rs
length-values [] = refl
length-values (r ∷ rs) = ap suc (length-values rs)

keep_found-complaints :
    (limit : ℕ) (k : RowCheck) (rows : List Row) (vs : List Violation)
    → keep_found (violation_of limit k (values rows)) vs ≡ complaints limit k rows ++ vs
keep_found-complaints limit k [] vs = refl
keep_found-complaints limit k (r ∷ rs) vs = rw (length-values rs) refl

select-Ascending :
    {A : Type 0} (row : A → Row) (p : A → Bool) (lo : ℕ) (xs : List A)
    → Ascending lo (map row xs)
    → Ascending lo (map row (select p xs))
unfolding select
select-Ascending row p lo [] h = tt
select-Ascending row p lo (x ∷ xs) (le, h) =
    let rest = select-Ascending row p (suc (row x).1) xs h in
    elim (Bool-cases (p x)) [
      | inl t ↦ rw t (le, rest)
      | inr f ↦ rw f (Ascending-le lo (suc (row x).1) _ (omega arith) rest)
    ]

numbered-Ascending :
    {A : Type 0} (p : A → Bool) (value : A → Value) (n : ℕ) (xs : List A)
    → Ascending n (numbered p value n xs)
numbered-Ascending p value n [] = tt
numbered-Ascending p value n (x ∷ xs) =
    let rest = numbered-Ascending p value (suc n) xs in
    elim (Bool-cases (p x)) [
      | inl t ↦ rw t (omega arith, rest)
      | inr f ↦ rw f (Ascending-le n (suc n) _ (omega arith) rest)
    ]

run_checks-violations :
    (n limit : ℕ) (ks : List RowCheck)
    → All (λ (k : RowCheck). Ascending 0 k.rows) ks
    → run_checks (suc n) limit ks ≡ some (violations limit ks)
unfolding run_checks
run_checks-violations n limit [] h = refl
run_checks-violations n limit (k ∷ ks) (first, h) =
    rw
      (
        run_row_check_complete n (suc (length k.rows)) limit k first (omega arith),
        run_checks-violations n limit ks h,
      )
      (ap some (keep_found-complaints limit k k.rows (violations limit ks)))

-- nothing to complain about: no row, or rows that are only for information
abbrev pub IsClean : RowCheck → Type 0
IsClean k = (k.informational ≡ true) ⊎ (k.rows ≡ [])

found_ok :
    (limit : ℕ) (k : RowCheck) (rows : List Row) (vs : List Violation)
    → (report_ok (complaints limit k rows ++ vs) ≡ true)
      ↔ (((k.informational ≡ true) ⊎ (rows ≡ [])) × (report_ok vs ≡ true))
found_ok limit k [] vs = (λ h. (inr refl, h), λ h. h.1)
found_ok limit k (r ∷ rs) vs = elim (Bool-cases k.informational) [
  | inl t ↦ (λ h. (inl t, (rw t at h)), λ h. rw t h.1)
  | inr f ↦ (
    λ h. absurd (let h' : false ≡ true = rw f at h in ground arith),
    λ h. elim h.0 [ inl t ↦ absurd (ground arith) | inr e ↦ absurd (ground arith) ],
  )
]

violations-ok :
    (limit : ℕ) (ks : List RowCheck) → (report_ok (violations limit ks) ≡ true) ↔ All IsClean ks
violations-ok limit [] = (λ h. tt, λ h. refl)
violations-ok limit (k ∷ ks) =
    let here = found_ok limit k k.rows (violations limit ks) in
    let there = violations-ok limit ks in
    (λ h. ((here.0 h).0, there.0 (here.0 h).1), λ h. here.1 (h.0, there.1 h.1))

row_checks-Ascending :
    (db : Db) → IsOrdered db → All (λ (k : RowCheck). Ascending 0 k.rows) (row_checks db)
unfolding row_checks ready_without_repodata repodata_without_ready need_convert_without_blob
    need_metadata_with_blob no_metadata_with_metadata_sha256 skipped_without_skips_row
    quarantined_without_work_row deleted_without_deleted_at deleted_at_without_deleted_state
    permanent_skip_with_reroll_version non_permanent_skip_without_reroll_version stale_skip
    work_row_for_terminal_wheel blob_sha256_unresolved blob_segment_unresolved orphaned_blob
    conda_name_outside_ready tombstoned_with_repodata
row_checks-Ascending db h =
    let w : (p : Wheel → Bool) → Ascending 0 (wheels_where db p) =
      λ p. select-Ascending wheel_row p 0 db.wheels h.0 in
    let s : (p : SkipRow → Bool) → Ascending 0 (skips_where db p) =
      λ p. Ascending-le 0 1 _ (omega arith) (numbered-Ascending p _ 1 db.skips) in
    let k : (p : WorkRow → Bool) → Ascending 0 (work_where db p) =
      λ p. Ascending-le 0 1 _ (omega arith) (numbered-Ascending p _ 1 db.work) in
    let b : (p : BlobRow → Bool) → Ascending 0 (blobs_where db p) =
      λ p. Ascending-le 0 1 _ (omega arith) (numbered-Ascending p _ 1 db.blobs) in
    (
      w _,
      (
        select-Ascending repodata_row _ 0 db.wheel_repodata h.1,
        (
          w _,
          (
            w _,
            (
              w _,
              (
                w _,
                (
                  w _,
                  (w _, (w _, (s _, (s _, (s _, (k _, (w _, (b _, (b _, (w _, (w _, tt))))))))))),
                ),
              ),
            ),
          ),
        ),
      ),
    )

scans-Ascending :
    (db : Db) (max_attempts : ℕ)
    → IsOrdered db
    → All (λ (k : RowCheck). Ascending 0 k.rows) (scans db max_attempts)
unfolding attempt_checks attempts_exceeds_max max_attempts_without_quarantine
scans-Ascending db max_attempts h =
    let k : (p : WorkRow → Bool) → Ascending 0 (work_where db p) =
      λ p. Ascending-le 0 1 _ (omega arith) (numbered-Ascending p _ 1 db.work) in
    All-append _ (row_checks db) (attempt_checks db max_attempts) (row_checks-Ascending db h)
      (k _, (k _, tt))

-- A run of the checks that scan rows, on tables that are in the order of their rowids, with pages of
-- one row or more: it ends, with one violation for each check that has rows, which has their number
-- and the values of the first of them. The report on these is ok exactly when each check that is not
-- for information only has no row.
pub run_checks_complete :
    (n limit max_attempts : ℕ) (db : Db)
    → IsOrdered db
    → (run_checks (suc n) limit (scans db max_attempts)
        ≡ some (violations limit (scans db max_attempts)))
      × ((report_ok (violations limit (scans db max_attempts)) ≡ true)
          ↔ All IsClean (scans db max_attempts))
run_checks_complete n limit max_attempts db h = (
  run_checks-violations n limit _ (scans-Ascending db max_attempts h),
  violations-ok limit (scans db max_attempts),
)
