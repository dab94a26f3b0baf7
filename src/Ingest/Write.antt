-- ===== src/Ingest/Write.antt =====
-- ingest.py: the operations that `apply_project_outcome` submits.
pub mod Gone
pub mod Project
pub mod Synced
use Prim.Native.String.{◌++◌ as join}
use reroll_sync.Base.{
  ℕ, zero, suc, ◌+◌, ◌*◌, ◌≤◌, ◌<◌, ◌≡◌, ◌≢◌, ◌↔◌, ◌∙◌, refl, sym, ap, Bool, true, false, not, ◌&&◌,
  ◌||◌, List, [], ◌∷◌, ◌++◌, arith, length, max, min, sum_by, sum_by-append, length-append, Option,
  none, some, append_assoc, append-nil, ◌⊎◌, inl, inr, get_elem?, All, All-append, Option-cases,
  List-cases, Bool-cases, if◌then◌else◌, ltb, leb, ◌==◌, String, text_eq, is_some, is_none, any,
  take,
}
use reroll_sync.Schema.{WheelState, deleted}
use reroll_sync.Sql.{select, delete, update, find, upsert, count}
use reroll_sync.Db.{
  Db, Timestamp, Wheel, SkipRow, UnlinkedRow, IndexRow, ErrorRow, Write, Conn, has_id, query,
  execute, next_seq, ◌>>=◌, ◌>>◌, pure, repodata_key,
}
use reroll_sync.Dispatcher.Ops.{insert_error}
use reroll_sync.Ingest.Plan.{ProjectPlan, has_filename}
use reroll_sync.Ingest.Diff.{
  ProjectFile, NewWheel, ChangedWheel, Change, plan_new_wheel, diff_common, assign_all,
}

-- `ProjectApplyResult`
pub record ApplyResult : Type 0 where
  pub inserted : ℕ
  pub updated : ℕ
  pub tombstoned : ℕ
  pub project_gone : Bool

abbrev id_of : Option Wheel → Option ℕ
id_of none = none
id_of (some w) = some w.id

-- the message, with the quotes that `!r` puts around a name without special characters
abbrev duplicate_details : String → String
duplicate_details filename =
    join "filename '" (join filename "' already exists under a different project")

-- `_record_duplicate_filename`
unfoldable pub record_duplicate_filename : String → String → String → Timestamp → Db → Db
record_duplicate_filename filename project version now db =
    insert_error
      (record {
        wheel_id = id_of (find (has_filename filename) db.wheels);
        error_category = "duplicate_filename";
        error_subcat = some project;
        details = some (duplicate_details filename);
        reroll_version = version;
        created_at = now;
      })
      db

-- the id that sqlite gives to a new row of `wheels`: one more than the largest
unfoldable pub next_id : List Wheel → ℕ
next_id [] = 1
next_id (w ∷ ws) = max (suc w.id) (next_id ws)

abbrev new_row : ℕ → String → ℕ → ℕ → Timestamp → NewWheel → Wheel
new_row id project serial seq now n = record {
  id = id;
  filename = n.filename;
  project = project;
  conda_name = none;
  state = n.state;
  lane = 0;
  url = n.url;
  wheel_sha256 = n.wheel_sha256;
  metadata_sha256 = n.metadata_sha256;
  size = n.size;
  upload_time = n.upload_time;
  requires_python = n.requires_python;
  yanked = n.yanked;
  yanked_reason = n.yanked_reason;
  blob_sha256 = n.blob_sha256;
  serial = serial;
  change_seq = seq;
  deleted_at = none;
  updated_at = now;
}

abbrev drop_unlinked : Option String → List UnlinkedRow → List UnlinkedRow
drop_unlinked none rows = rows
drop_unlinked (some filename) rows = delete (λ r. text_eq r.filename filename) rows

-- one new wheel: the INSERT, whose `filename` is UNIQUE, and what follows it
unfoldable pub insert_wheel : String → ℕ → ℕ → Timestamp → NewWheel → Db → Db
insert_wheel project serial seq now n db = record db {
  wheels = db.wheels ++ (new_row (next_id db.wheels) project serial seq now n ∷ []);
  unlinked_blobs = drop_unlinked n.unlinked_blob_filename db.unlinked_blobs;
}

unfoldable pub write_new : String → ℕ → String → Timestamp → List NewWheel → Write ℕ
unfolding next_seq
write_new project serial version now [] = pure 0
write_new project serial version now (n ∷ ns) = do
  seq ← next_seq
  taken ← query (λ db. any (has_filename n.filename) db.wheels)
  execute (λ db.
      if taken
      then record_duplicate_filename n.filename project version now db
      else insert_wheel project serial seq now n db)
  rest ← write_new project serial version now ns
  pure (if taken then rest else suc rest)

-- `NO_SIDECAR_SKIP_REASON`
abbrev pub no_sidecar_skip_reason : String
no_sidecar_skip_reason = "no_sidecar"

abbrev is_no_sidecar_skip : ℕ → SkipRow → Bool
is_no_sidecar_skip id r =
    r.wheel_id == id && (text_eq r.reason no_sidecar_skip_reason && r.permanent)

-- one changed wheel
unfoldable pub update_wheel : ℕ → Timestamp → ChangedWheel → Db → Db
update_wheel seq now c db = record db {
  wheels =
      update (has_id c.wheel_id)
        (λ w. record (assign_all c.changes w) { change_seq = seq; updated_at = now }) db.wheels;
  skips =
      if c.delete_no_sidecar_skip
      then delete (is_no_sidecar_skip c.wheel_id) db.skips
      else db.skips;
  wheel_repodata =
      if c.delete_repodata
      then delete (repodata_key c.wheel_id) db.wheel_repodata
      else db.wheel_repodata;
}

unfoldable pub write_changed : Timestamp → List ChangedWheel → Write ℕ
unfolding next_seq
write_changed now [] = pure 0
write_changed now (c ∷ cs) = do
  seq ← next_seq
  execute (update_wheel seq now c)
  rest ← write_changed now cs
  pure (suc rest)

-- one vanished wheel: `UPDATE wheels SET deleted_at = ?, state = ?, ... WHERE id = ?`
unfoldable pub tombstone : ℕ → Timestamp → ℕ → Db → Db
tombstone seq now id db = record db {
  wheels =
      update (has_id id)
        (λ w. record w {
          deleted_at = some now;
          state = deleted;
          change_seq = seq;
          updated_at = now;
        })
        db.wheels;
}

unfoldable pub write_vanished : Timestamp → List ℕ → Write ℕ
unfolding next_seq
write_vanished now [] = pure 0
write_vanished now (id ∷ ids) = do
  seq ← next_seq
  execute (tombstone seq now id)
  rest ← write_vanished now ids
  pure (suc rest)

abbrev pub is_index : String → IndexRow → Bool
is_index name r = text_eq r.name name

-- `INSERT INTO pypi_index ... ON CONFLICT(name) DO UPDATE`
unfoldable pub upsert_index : String → ℕ → Timestamp → Db → Db
upsert_index name serial now db = record db {
  pypi_index =
      upsert (is_index name) (λ r. record r { serial = serial; updated_at = now })
        (record { name = name; serial = serial; updated_at = now }) db.pypi_index;
}

-- `_build_project_write_op`
unfoldable pub project_op : ProjectPlan → Timestamp → String → Write ApplyResult
project_op plan now version = do
  inserted ← write_new plan.project plan.remote_serial version now plan.new_wheels
  updated ← write_changed now plan.changed_wheels
  tombstoned ← write_vanished now plan.vanished_wheel_ids
  execute (upsert_index plan.project plan.remote_serial now)
  pure (record {
    inserted = inserted;
    updated = updated;
    tombstoned = tombstoned;
    project_gone = false;
  })

-- the rows that one turn of the loop in `_build_gone_write_op` reads
abbrev pub is_live_of : String → Wheel → Bool
is_live_of name w = text_eq w.project name && is_none w.deleted_at

abbrev pub wheel_ids : List Wheel → List ℕ
wheel_ids [] = []
wheel_ids (w ∷ ws) = w.id ∷ wheel_ids ws

-- one turn of the loop in `_build_gone_write_op`: at most `chunk` live wheels become tombstones
unfoldable pub gone_chunk : String → ℕ → Timestamp → Write ℕ
unfolding write_vanished
gone_chunk name chunk now = do
  rows ← query (λ db. take chunk (select (is_live_of name) db.wheels))
  write_vanished now (wheel_ids rows)

-- the loop, on fuel: it ends with the turn that finds no row
abbrev pub go_on : ℕ → Write ℕ → Write ℕ
go_on zero again = pure 0
go_on (suc n) again = do rest ← again; pure (suc n + rest)

unfoldable pub gone_loop : ℕ → String → ℕ → Timestamp → Write ℕ
gone_loop zero name chunk now = pure 0
gone_loop (suc fuel) name chunk now = do
  n ← gone_chunk name chunk now
  go_on n (gone_loop fuel name chunk now)

-- `DELETE FROM pypi_index WHERE name = ?`
unfoldable pub delete_index : String → Db → Db
delete_index name db = record db { pypi_index = delete (is_index name) db.pypi_index }

-- `_build_gone_write_op`, with its chunk size and the fuel of its loop
unfoldable pub gone_op : ℕ → String → ℕ → Timestamp → Write ApplyResult
unfolding gone_loop
gone_op fuel name chunk now = do
  tombstoned ← gone_loop fuel name chunk now
  execute (delete_index name)
  pure (record { inserted = 0; updated = 0; tombstoned = tombstoned; project_gone = true })
