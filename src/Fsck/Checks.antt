-- ===== src/Fsck/Checks.antt =====
-- fsck.py: the queries of its checks on rows, and the loop of `run`
-- over them. A wheel's rowid is its id, as is that of its repodata; the other tables number their
-- rows as they stand.
pub mod Report
use reroll_sync.Base.{
  ℕ, zero, suc, Bool, true, false, not, ◌&&◌, ◌||◌, List, [], ◌∷◌, ◌++◌, Option, none, some, map,
  any, ltb, ◌==◌, text_eq, is_some, is_none, String, if◌then◌else◌, length,
}
use reroll_sync.Schema.{
  WheelState, need_metadata, no_metadata, need_convert, ready, skipped, quarantined, deleted,
  state_eq,
}
use reroll_sync.Db.{Db, Wheel, RepodataRow, SkipRow, WorkRow, BlobRow, SegmentRow, has_id}
use reroll_sync.Sql.{select}
use reroll_sync.Fsck.Scan.{Value, number, text, Row, RowCheck, Violation, run_row_check}

abbrev pub wheel_row : Wheel → Row
wheel_row w = (number w.id, w.id)

abbrev pub repodata_row : RepodataRow → Row
repodata_row r = (number r.wheel_id, r.wheel_id)

-- the rows of a table without an id of its own, which a query numbers from `n`
abbrev pub numbered : {A : Type 0} → (A → Bool) → (A → Value) → ℕ → List A → List Row
numbered p value n [] = []
numbered p value n (x ∷ xs) =
    let rest = numbered p value (suc n) xs in if p x then (value x, n) ∷ rest else rest

module _ (db : Db) where
  abbrev pub wheels_where : (Wheel → Bool) → List Row
  wheels_where p = map wheel_row (select p db.wheels)

  abbrev pub skips_where : (SkipRow → Bool) → List Row
  skips_where p = numbered p (λ (r : SkipRow). number r.wheel_id) 1 db.skips

  abbrev pub work_where : (WorkRow → Bool) → List Row
  work_where p = numbered p (λ (r : WorkRow). number r.wheel_id) 1 db.work

  abbrev pub blobs_where : (BlobRow → Bool) → List Row
  blobs_where p = numbered p (λ (b : BlobRow). text b.sha256) 1 db.blobs

  -- JOIN wheels w ON w.id = ... WHERE
  abbrev joined : ℕ → (Wheel → Bool) → Bool
  joined id p = any (λ w. has_id id w && p w) db.wheels

  abbrev has_repodata : ℕ → Bool
  has_repodata id = any (λ (r : RepodataRow). r.wheel_id == id) db.wheel_repodata

  abbrev resolves : Option String → Bool
  resolves none = false
  resolves (some sha) = any (λ (b : BlobRow). text_eq b.sha256 sha) db.blobs

  unfoldable pub ready_without_repodata : List Row
  unfolding select
  ready_without_repodata = wheels_where (λ w. state_eq w.state ready && not (has_repodata w.id))

  unfoldable pub repodata_without_ready : List Row
  unfolding select
  repodata_without_ready = map repodata_row (
      select (λ (r : RepodataRow). joined r.wheel_id (λ w. not (state_eq w.state ready)))
        db.wheel_repodata)

  unfoldable pub need_convert_without_blob : List Row
  unfolding select
  need_convert_without_blob =
      wheels_where (λ w. state_eq w.state need_convert && not (resolves w.blob_sha256))

  unfoldable pub need_metadata_with_blob : List Row
  unfolding select
  need_metadata_with_blob =
      wheels_where (λ w. state_eq w.state need_metadata && is_some w.blob_sha256)

  unfoldable pub no_metadata_with_metadata_sha256 : List Row
  unfolding select
  no_metadata_with_metadata_sha256 =
      wheels_where (λ w. state_eq w.state no_metadata && is_some w.metadata_sha256)

  unfoldable pub skipped_without_skips_row : List Row
  unfolding select
  skipped_without_skips_row =
      wheels_where
        (λ w. state_eq w.state skipped && not (any (λ (r : SkipRow). r.wheel_id == w.id) db.skips))

  unfoldable pub quarantined_without_work_row : List Row
  unfolding select
  quarantined_without_work_row = wheels_where (λ w.
      state_eq w.state quarantined
      && not (any (λ (r : WorkRow). r.wheel_id == w.id && is_some r.quarantined_at) db.work))

  unfoldable pub deleted_without_deleted_at : List Row
  unfolding select
  deleted_without_deleted_at = wheels_where (λ w. state_eq w.state deleted && is_none w.deleted_at)

  unfoldable pub deleted_at_without_deleted_state : List Row
  unfolding select
  deleted_at_without_deleted_state =
      wheels_where (λ w. is_some w.deleted_at && not (state_eq w.state deleted))

  unfoldable pub permanent_skip_with_reroll_version : List Row
  permanent_skip_with_reroll_version = skips_where (λ r. r.permanent && is_some r.reroll_version)

  unfoldable pub non_permanent_skip_without_reroll_version : List Row
  non_permanent_skip_without_reroll_version =
      skips_where (λ r. not r.permanent && is_none r.reroll_version)

  unfoldable pub stale_skip : List Row
  stale_skip = skips_where (λ r. joined r.wheel_id (λ w. not (state_eq w.state skipped)))

  -- `_TERMINAL_FOR_WORK`
  abbrev pub terminal_for_work : WheelState → Bool
  terminal_for_work s = any (state_eq s) (ready ∷ skipped ∷ no_metadata ∷ deleted ∷ [])

  unfoldable pub work_row_for_terminal_wheel : List Row
  work_row_for_terminal_wheel = work_where (λ r. joined r.wheel_id (λ w. terminal_for_work w.state))

  unfoldable pub attempts_exceeds_max : ℕ → List Row
  attempts_exceeds_max max_attempts = work_where (λ r. ltb max_attempts r.attempts)

  unfoldable pub max_attempts_without_quarantine : ℕ → List Row
  max_attempts_without_quarantine max_attempts =
      work_where (λ r. r.attempts == max_attempts && is_none r.quarantined_at)

  unfoldable pub blob_sha256_unresolved : List Row
  unfolding select
  blob_sha256_unresolved = wheels_where (λ w. is_some w.blob_sha256 && not (resolves w.blob_sha256))

  unfoldable pub blob_segment_unresolved : List Row
  blob_segment_unresolved =
      blobs_where (λ b. not (any (λ (g : SegmentRow). g.id == b.segment_id) db.segments))

  abbrev links : String → Option String → Bool
  links sha none = false
  links sha (some s) = text_eq s sha

  unfoldable pub orphaned_blob : List Row
  orphaned_blob =
      blobs_where (λ b. not (any (λ (w : Wheel). links b.sha256 w.blob_sha256) db.wheels))

  unfoldable pub conda_name_outside_ready : List Row
  unfolding select
  conda_name_outside_ready =
      wheels_where (λ w. is_some w.conda_name && not (state_eq w.state ready))

  unfoldable pub tombstoned_with_repodata : List Row
  unfolding select
  tombstoned_with_repodata = wheels_where (λ w. state_eq w.state deleted && has_repodata w.id)

  abbrev pub check_of : String → List Row → RowCheck
  check_of name rows = record { invariant = name; rows = rows; informational = false }

  -- `_ROW_CHECKS`
  unfoldable pub row_checks : List RowCheck
  unfolding ready_without_repodata repodata_without_ready need_convert_without_blob
      need_metadata_with_blob no_metadata_with_metadata_sha256 skipped_without_skips_row
      quarantined_without_work_row deleted_without_deleted_at deleted_at_without_deleted_state
      permanent_skip_with_reroll_version non_permanent_skip_without_reroll_version stale_skip
      work_row_for_terminal_wheel blob_sha256_unresolved blob_segment_unresolved orphaned_blob
      conda_name_outside_ready tombstoned_with_repodata
  row_checks =
      check_of "1a_ready_without_repodata" ready_without_repodata
      ∷ check_of "1b_repodata_without_ready" repodata_without_ready
      ∷ check_of "2_need_convert_without_blob" need_convert_without_blob
      ∷ check_of "3_need_metadata_with_blob" need_metadata_with_blob
      ∷ check_of "4_no_metadata_with_metadata_sha256" no_metadata_with_metadata_sha256
      ∷ check_of "5_skipped_without_skips_row" skipped_without_skips_row
      ∷ check_of "6_quarantined_without_work_row" quarantined_without_work_row
      ∷ check_of "7a_deleted_without_deleted_at" deleted_without_deleted_at
      ∷ check_of "7b_deleted_at_without_deleted_state" deleted_at_without_deleted_state
      ∷ check_of "9a_permanent_skip_with_reroll_version" permanent_skip_with_reroll_version
      ∷ check_of "9b_non_permanent_skip_without_reroll_version"
          non_permanent_skip_without_reroll_version
      ∷ check_of "10_stale_skip" stale_skip
      ∷ check_of "11_work_row_for_terminal_wheel" work_row_for_terminal_wheel
      ∷ check_of "13_blob_sha256_unresolved" blob_sha256_unresolved
      ∷ check_of "14_blob_segment_unresolved" blob_segment_unresolved
      ∷ record { invariant = "16_orphaned_blob"; rows = orphaned_blob; informational = true }
      ∷ check_of "19_conda_name_outside_ready" conda_name_outside_ready
      ∷ record {
        invariant = "20_tombstoned_with_repodata";
        rows = tombstoned_with_repodata;
        informational = true;
      }
      ∷ []

  -- `_check_attempts_exceeds_max` and `_check_max_attempts_without_quarantine`
  unfoldable pub attempt_checks : ℕ → List RowCheck
  unfolding attempts_exceeds_max max_attempts_without_quarantine
  attempt_checks max_attempts =
      check_of "12a_attempts_exceeds_max" (attempts_exceeds_max max_attempts)
      ∷ check_of "12b_max_attempts_without_quarantine"
          (max_attempts_without_quarantine max_attempts)
      ∷ []

  -- the checks that scan rows, in the order of `run`; check 8 has no row, since a state here is one
  -- of `WheelState`
  abbrev pub scans : ℕ → List RowCheck
  scans max_attempts = row_checks ++ attempt_checks max_attempts

abbrev pub keep_found : Option Violation → List Violation → List Violation
keep_found none vs = vs
keep_found (some v) vs = v ∷ vs

abbrev both : Option (Option Violation) → Option (List Violation) → Option (List Violation)
both none rest = none
both (some v) none = none
both (some v) (some vs) = some (keep_found v vs)

-- the loop of `run`; a scan has more rounds of fuel than its check has rows
unfoldable pub run_checks : ℕ → ℕ → List RowCheck → Option (List Violation)
unfolding run_row_check
run_checks size limit [] = some []
run_checks size limit (k ∷ ks) =
    both (run_row_check (suc (length k.rows)) size limit k) (run_checks size limit ks)

-- `FsckReport.ok`
abbrev pub report_ok : List Violation → Bool
report_ok vs = not (any (λ (v : Violation). not v.informational) vs)
