-- ===== src/Fsck/Tests.antt =====
-- A scan in pages, and a check of a small database: a wheel in READY that has no repodata.
use reroll_sync.Base.{◌≡◌, ◌↔◌, refl, [], ◌∷◌, some, none, All, arith, true, false}
use reroll_sync.Schema.{ready}
use reroll_sync.Sql.{select, order_by}
use reroll_sync.Db.{Db, Wheel, empty}
use reroll_sync.Fsck.Scan.{number, chunked_scan}
use reroll_sync.Fsck.Checks.{scans, run_checks, report_ok}
use reroll_sync.Fsck.Checks.Report.{violations, IsClean, run_checks_complete}

three :
    chunked_scan 6 2 none ((number 7, 1) ∷ (number 8, 2) ∷ (number 9, 4) ∷ [])
    ≡ some (number 7 ∷ number 8 ∷ number 9 ∷ [])
unfolding chunked_scan order_by select
three = refl

abbrev wheel : Wheel
wheel = record {
  id = 4;
  filename = "demo.whl";
  project = "demo";
  conda_name = none;
  state = ready;
  lane = 0;
  url = "https://demo";
  wheel_sha256 = none;
  metadata_sha256 = none;
  size = none;
  upload_time = none;
  requires_python = none;
  yanked = false;
  yanked_reason = none;
  blob_sha256 = none;
  serial = 3;
  change_seq = 4;
  deleted_at = none;
  updated_at = 0;
}

abbrev tables : Db
tables = record empty { wheels = wheel ∷ [] }

run_checks_complete_example :
    (run_checks 2 5 (scans tables 8) ≡ some (violations 5 (scans tables 8)))
    × ((report_ok (violations 5 (scans tables 8)) ≡ true) ↔ All IsClean (scans tables 8))
run_checks_complete_example = run_checks_complete 1 5 8 tables ((ground arith, tt), tt)
