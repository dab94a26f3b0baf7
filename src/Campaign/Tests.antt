-- ===== src/Campaign/Tests.antt =====
-- Campaigns on tables with two quarantined wheels, an old record and a stale skip.
use Prim.Native.Nat.{◌-◌}
use reroll_sync.Base.{ℕ, refl, Bool, false, ◌&&◌, [], ◌∷◌, arith, none, some, String, text_eq}
use reroll_sync.Schema.{WheelState, quarantined, ready, skipped}
use reroll_sync.Sql.{count}
use reroll_sync.Db.{Conn, Timestamp, Wheel, RepodataRow, SkipRow, convert, empty as empty_db}
use reroll_sync.Campaign.Selector.{project_selector, reroll_version_below}
use reroll_sync.Campaign.Unquarantine.{unquarantine, project_filter}
use reroll_sync.Campaign.Unquarantine.Ends.{IsCleared, unquarantine-IsCleared}
use reroll_sync.Campaign.Reprocess.Rounds.{reprocess}
use reroll_sync.Campaign.Reprocess.Versions.{IsFresh, reprocess-IsFresh}

abbrev wheel : ℕ → String → WheelState → Wheel
wheel id project state = record {
  id = id;
  filename = "w.whl";
  project = project;
  conda_name = none;
  state = state;
  lane = 1;
  url = "https://files/w.whl";
  wheel_sha256 = none;
  metadata_sha256 = none;
  size = none;
  upload_time = none;
  requires_python = none;
  yanked = false;
  yanked_reason = none;
  blob_sha256 = none;
  serial = 5;
  change_seq = 7;
  deleted_at = none;
  updated_at = 1000;
}

abbrev stored : RepodataRow
stored = record {
  wheel_id = 2;
  repodata = "{}";
  name_conv = none;
  requires_prerelease = false;
  reroll_version = "1";
}

abbrev stale : SkipRow
stale = record {
  wheel_id = 4;
  stage = convert;
  reason = "unsupported";
  permanent = false;
  reroll_version = some "1";
  created_at = 500;
}

abbrev conn : Conn
conn = record {
  db = record empty_db {
    wheels =
        wheel 1 "numpy" quarantined
        ∷ wheel 2 "numpy" ready
        ∷ wheel 3 "numpy" quarantined
        ∷ wheel 4 "scipy" skipped
        ∷ [];
    wheel_repodata = stored ∷ [];
    skips = stale ∷ [];
  };
  seq = 7;
}

abbrev clock : ℕ → Timestamp
clock n = 2000 - n

abbrev text_lt : String → String → Bool
text_lt s t = text_eq s "1" && text_eq t "2"

unquarantine-IsCleared_example :
    IsCleared (some "numpy") 0 conn (unquarantine 3 (project_selector "numpy") 1 clock conn)
unfolding project_filter count
unquarantine-IsCleared_example =
    unquarantine-IsCleared 3 (project_selector "numpy") (some "numpy") 1 clock conn refl
      (omega arith) (omega arith)

reprocess-IsFresh_example :
    IsFresh text_lt "2" (reprocess text_lt 1 clock 2 (reroll_version_below "2") conn)
unfolding count
reprocess-IsFresh_example =
    reprocess-IsFresh text_lt "2" 1 clock 2 conn (omega arith) (omega arith) (omega arith)
