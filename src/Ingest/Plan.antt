-- ===== src/Ingest/Plan.antt =====
-- ingest.py: the plan of `sync_project`.
--
-- The dictionaries of `sync_project` are lists: `files` are the `.whl` files of the page in the
-- order of their names, each name once, and `rows` are the rows of `wheels` for the project. A page
-- that could not be fetched gives no plan.
use reroll_sync.Base.{
  ℕ, Bool, not, ◌&&◌, List, [], ◌∷◌, Option, none, some, if◌then◌else◌, String, text_eq, is_none,
  any,
}
use reroll_sync.Sql.{find}
use reroll_sync.Db.{Wheel, UnlinkedRow}
use reroll_sync.Ingest.Diff.{ProjectFile, NewWheel, ChangedWheel, plan_new_wheel, diff_common}

pub record ProjectPlan : Type 0 where
  pub project : String
  pub remote_serial : ℕ
  pub new_wheels : List NewWheel
  pub changed_wheels : List ChangedWheel
  pub vanished_wheel_ids : List ℕ

abbrev pub has_filename : String → Wheel → Bool
has_filename name w = text_eq w.filename name

abbrev is_file : String → ProjectFile → Bool
is_file name f = text_eq f.filename name

abbrev blob_of : Option UnlinkedRow → Option String
blob_of none = none
blob_of (some r) = some r.sha256

-- `unlinked.get(filename)`
abbrev unlinked_blob : List UnlinkedRow → String → Option String
unlinked_blob unlinked name = blob_of (find (λ r. text_eq r.filename name) unlinked)

-- `new_wheels`
unfoldable pub plan_new : List UnlinkedRow → List Wheel → List ProjectFile → List NewWheel
plan_new unlinked rows [] = []
plan_new unlinked rows (f ∷ fs) =
    let rest = plan_new unlinked rows fs in
    if any (has_filename f.filename) rows
    then rest
    else plan_new_wheel f (unlinked_blob unlinked f.filename) ∷ rest

abbrev cons_some : Option ChangedWheel → List ChangedWheel → List ChangedWheel
cons_some none cs = cs
cons_some (some c) cs = c ∷ cs

abbrev diff_found : Option Wheel → ProjectFile → Option ChangedWheel
diff_found none file = none
diff_found (some local) file = diff_common local file

-- `changed_wheels`
unfoldable pub plan_changed : List Wheel → List ProjectFile → List ChangedWheel
plan_changed rows [] = []
plan_changed rows (f ∷ fs) =
    cons_some (diff_found (find (has_filename f.filename) rows) f) (plan_changed rows fs)

-- `vanished_wheel_ids`
unfoldable pub plan_vanished : List ProjectFile → List Wheel → List ℕ
plan_vanished files [] = []
plan_vanished files (w ∷ ws) =
    let rest = plan_vanished files ws in
    if not (any (is_file w.filename) files) && is_none w.deleted_at then w.id ∷ rest else rest

-- the end of `sync_project`, once the page is there and the rows are read
unfoldable pub plan_project :
    String → ℕ → List UnlinkedRow → List Wheel → List ProjectFile → ProjectPlan
plan_project name serial unlinked rows files = record {
  project = name;
  remote_serial = serial;
  new_wheels = plan_new unlinked rows files;
  changed_wheels = plan_changed rows files;
  vanished_wheel_ids = plan_vanished files rows;
}
