-- ===== src/Db.antt =====
-- The sqlite database of src/reroll_sync/schema.py as a record of tables, with the row types that
-- its `Table` values declare, and the write operations of writer.py as actions on it.
--
-- Text columns are `String`. A timestamp column is the number of microseconds since the epoch: the
-- ISO-8601 texts that the code stores compare as these numbers do. A row's own rowid is not kept
-- where no statement reads it (`errors.id`).
pub mod Laws
use reroll_sync.Base.{
  ℕ, suc, ◌+◌, String, Bool, true, false, Option, none, some, List, [], ◌∷◌, ◌++◌, ◌==◌,
  if◌then◌else◌, any, max,
}
use reroll_sync.Schema.{WheelState}
use reroll_sync.Sql.{update, delete, count}

abbrev pub Timestamp : Type 0
Timestamp = ℕ

-- `Stage` of dispatcher.py; `work.stage` and `skips.stage` hold its value
pub data Stage : Type 0 where
  fetch convert : Stage

abbrev pub stage_eq : Stage → Stage → Bool
stage_eq fetch fetch = true
stage_eq convert convert = true
stage_eq _ _ = false

pub record Wheel : Type 0 where
  pub id : ℕ
  pub filename : String
  pub project : String
  pub conda_name : Option String
  pub state : WheelState
  pub lane : ℕ
  pub url : String
  pub wheel_sha256 : Option String
  pub metadata_sha256 : Option String
  pub size : Option ℕ
  pub upload_time : Option String
  pub requires_python : Option String
  pub yanked : Bool
  pub yanked_reason : Option String
  pub blob_sha256 : Option String
  pub serial : ℕ
  pub change_seq : ℕ
  pub deleted_at : Option Timestamp
  pub updated_at : Timestamp

pub record BlobRow : Type 0 where
  pub sha256 : String
  pub segment_id : ℕ
  pub block_no : ℕ
  pub offset : ℕ
  pub length : ℕ

-- `segments`; `bytes`, `records` and `footer_sha` stay empty until the segment is sealed
pub record SegmentRow : Type 0 where
  pub id : ℕ
  pub sealed_at : Option Timestamp
  pub bytes : Option ℕ
  pub records : Option ℕ
  pub footer_sha : Option String

-- The zstd payloads are the texts that were compressed.
pub record RepodataRow : Type 0 where
  pub wheel_id : ℕ
  pub repodata : String
  pub name_conv : Option String
  pub requires_prerelease : Bool
  pub reroll_version : String

pub record SkipRow : Type 0 where
  pub wheel_id : ℕ
  pub stage : Stage
  pub reason : String
  pub permanent : Bool
  pub reroll_version : Option String
  pub created_at : Timestamp

pub record WorkRow : Type 0 where
  pub wheel_id : ℕ
  pub stage : Stage
  pub attempts : ℕ
  pub next_attempt_at : Timestamp
  pub last_error : Option String
  pub quarantined_at : Option Timestamp

pub record ErrorRow : Type 0 where
  pub wheel_id : Option ℕ
  pub error_category : String
  pub error_subcat : Option String
  pub details : Option String
  pub reroll_version : String
  pub created_at : Timestamp

pub record IndexRow : Type 0 where
  pub name : String
  pub serial : ℕ
  pub updated_at : Timestamp

pub record UnlinkedRow : Type 0 where
  pub filename : String
  pub sha256 : String
  pub noted_at : Timestamp

pub record Db : Type 0 where
  pub pypi_index : List IndexRow
  pub wheels : List Wheel
  pub segments : List SegmentRow
  pub blobs : List BlobRow
  pub wheel_repodata : List RepodataRow
  pub skips : List SkipRow
  pub work : List WorkRow
  pub errors : List ErrorRow
  pub unlinked_blobs : List UnlinkedRow

abbrev pub empty : Db
empty = record {
  pypi_index = [];
  wheels = [];
  segments = [];
  blobs = [];
  wheel_repodata = [];
  skips = [];
  work = [];
  errors = [];
  unlinked_blobs = [];
}

-- `WHERE id = ?`
abbrev pub has_id : ℕ → Wheel → Bool
has_id i w = w.id == i

-- `WHERE wheel_id = ? AND stage = ?` on `work` and on `skips`
abbrev pub work_key : ℕ → Stage → WorkRow → Bool
work_key i s r = if r.wheel_id == i then stage_eq r.stage s else false

abbrev pub skip_key : ℕ → Stage → SkipRow → Bool
skip_key i s r = if r.wheel_id == i then stage_eq r.stage s else false

abbrev pub repodata_key : ℕ → RepodataRow → Bool
repodata_key i r = r.wheel_id == i

-- The exceptions that an operation on the database raises.
pub data DbError : Type 0 where
  illegal_transition : WheelState → WheelState → DbError
  integrity_error : DbError
  unsupported_selector : DbError
  transaction_boundary : DbError
  writer_stopped : DbError
  unknown_child : DbError

pub data Result {ℓ} (A : Type ℓ) : Type ℓ where
  ok : A → Result A
  err : DbError → Result A

-- What the writer thread works on: the tables, and the counter behind `Writer.next_seq`.
pub record Conn : Type 0 where
  pub db : Db
  pub seq : ℕ

-- `WriteOp.apply`. An exception leaves the statements that ran before it in the open savepoint.
abbrev pub Write : Type 0 → Type 0
Write A = Conn → Result A × Conn

abbrev resume : {A B : Type 0} → Result A → (A → Write B) → Write B
resume (ok a) f c = f a c
resume (err e) f c = (err e, c)

infixl 10 ◌>>=◌ ◌>>◌
abbrev pub ◌>>=◌ : {A B : Type 0} → Write A → (A → Write B) → Write B
◌>>=◌ m f c = let (r, c') = m c in resume r f c'

abbrev pub ◌>>◌ : {A B : Type 0} → Write A → Write B → Write B
m >> n = m >>= λ _. n

abbrev pub pure : {A : Type 0} → A → Write A
pure a c = (ok a, c)

abbrev pub raise : {A : Type 0} → DbError → Write A
raise e c = (err e, c)

-- a query inside an operation
abbrev pub query : {A : Type 0} → (Db → A) → Write A
query f c = (ok (f c.db), c)

-- a statement that succeeds
abbrev pub execute : (Db → Db) → Write (Unit {0})
execute f c = (ok tt, record c { db = f c.db })

-- `Writer.next_seq`: the counter lives in the writer object, so no rollback takes it back.
unfoldable pub next_seq : Write ℕ
next_seq c = (ok (suc c.seq), record c { seq = suc c.seq })

-- Whether the row that a `wheel_id` column refers to is there (`PRAGMA foreign_keys = ON`).
unfoldable pub has_wheel : ℕ → Db → Bool
has_wheel i db = any (has_id i) db.wheels

-- An INSERT into a table whose `wheel_id` references `wheels(id)`.
unfoldable pub execute_insert : ℕ → (Db → Db) → Write (Unit {0})
execute_insert i f c =
    if has_wheel i c.db then (ok tt, record c { db = f c.db }) else (err integrity_error, c)
