-- ===== src/Ingest/Tests.antt =====
-- One wheel and one page.
use reroll_sync.Base.{ℕ, ◌≡◌, ◌↔◌, true, false, [], ◌∷◌, arith, none, some, String}
use reroll_sync.Schema.{ready}
use reroll_sync.Sql.{find, count}
use reroll_sync.Db.{Db, empty, Conn, Wheel, ok}
use reroll_sync.Ingest.Diff.{ProjectFile, diff_common}
use reroll_sync.Ingest.Diff.Converges.{Agrees, diff_common-Agrees}
use reroll_sync.Ingest.Plan.{plan_project, ProjectPlan}
use reroll_sync.Ingest.Write.{gone_op, project_op, is_index, ApplyResult}
use reroll_sync.Ingest.Write.Gone.{live, gone_op_clears}
use reroll_sync.Ingest.Write.Synced.{project_op-Agrees}
use reroll_sync.Ingest.Diff.{ChangedWheel, column_changes, next_state}
use reroll_sync.Ingest.Plan.{plan_changed, plan_vanished}
use reroll_sync.Db.{IndexRow, has_id}
use reroll_sync.Base.{Option, refl}

abbrev wheel : ℕ → String → Wheel
wheel id filename = record {
  id = id;
  filename = filename;
  project = "demo";
  conda_name = none;
  state = ready;
  lane = 0;
  url = "https://old";
  wheel_sha256 = some "aa";
  metadata_sha256 = some "m1";
  size = some 10;
  upload_time = none;
  requires_python = none;
  yanked = false;
  yanked_reason = none;
  blob_sha256 = some "m1";
  serial = 3;
  change_seq = 7;
  deleted_at = none;
  updated_at = 0;
}

abbrev file : String → ProjectFile
file filename = record {
  filename = filename;
  url = "https://new";
  wheel_sha256 = some "aa";
  metadata_sha256 = some "m2";
  has_metadata = true;
  size = some 10;
  upload_time = none;
  requires_python = some ">=3.9";
  yanked = true;
  yanked_reason = none;
}

abbrev local : Wheel
local = wheel 1 "demo-1.whl"

abbrev remote : ProjectFile
remote = file "demo-1.whl"

diff_common-Agrees_example : (diff_common local remote ≡ none) ↔ Agrees local remote
diff_common-Agrees_example = diff_common-Agrees local remote

abbrev tables : Db
tables = record empty {
  wheels = local ∷ wheel 2 "demo-2.whl" ∷ [];
  pypi_index = record { name = "demo"; serial = 3; updated_at = 0 } ∷ [];
}

abbrev conn : Conn
conn = record { db = tables; seq = 7 }

gone_op_clears_example :
    let (r, c') = gone_op 3 "demo" 1 50 conn in
    ((a : ApplyResult) × (r ≡ ok a) × (a.project_gone ≡ true))
    × (live "demo" c'.db ≡ 0)
    × (find (is_index "demo") c'.db.pypi_index ≡ none)
unfolding count
gone_op_clears_example = gone_op_clears 3 "demo" 0 50 conn (omega arith)

abbrev plan : ProjectPlan
plan = plan_project "demo" 9 [] tables.wheels (remote ∷ file "demo-3.whl" ∷ [])

abbrev change_of : Option ChangedWheel → ChangedWheel
change_of none = record {
  wheel_id = 0;
  changes = [];
  delete_no_sidecar_skip = false;
  delete_repodata = false;
}
change_of (some x) = x

abbrev the_change : ChangedWheel
the_change = change_of (diff_common local remote)

project_op-Agrees_example :
    let (r, c') = project_op plan 50 "1.0" conn in
    ((a : ApplyResult) × (r ≡ ok a))
    × ((v : Wheel) × (find (has_id 1) c'.db.wheels ≡ some v)
        × Agrees v remote
        × (diff_common v remote ≡ none))
    × ((r : IndexRow) × (find (is_index "demo") c'.db.pypi_index ≡ some r) × (r.serial ≡ 9))
unfolding diff_common column_changes next_state plan_project plan_changed plan_vanished find
project_op-Agrees_example =
    project_op-Agrees plan 50 "1.0" conn [] [] the_change local remote refl tt tt
      ((λ e. omega (arith, e)), tt) refl refl
