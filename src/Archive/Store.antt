-- ===== src/Archive/Store.antt =====
-- archive/store.py: `ArchiveStore`, on the tables `segments` and `blobs` and on the files of its
-- directory: the open ones by their segment, with what a crashed writer left in them, and the sealed
-- ones with their bytes. What a live writer wrote stands in its `file`.
pub mod Laws
use reroll_sync.Base.{
  ℕ, zero, suc, ◌+◌, ◌*◌, ◌≤◌, ◌<◌, ◌≡◌, ◌≢◌, ◌↔◌, ◌∙◌, refl, sym, ap, Bool, true, false, not, ◌&&◌,
  ◌||◌, List, [], ◌∷◌, ◌++◌, arith, length, max, min, sum_by, sum_by-append, length-append, Option,
  none, some, append_assoc, append-nil, ◌⊎◌, inl, inr, get_elem?, All, All-append, Option-cases,
  List-cases, Bool-cases, if◌then◌else◌, ltb, leb, ◌==◌, String, text_eq, is_some, map, any,
}
use reroll_sync.Sql.{select, update, find, order_by, delete}
use reroll_sync.Db.{Db, BlobRow, SegmentRow, Timestamp}
use reroll_sync.Archive.Format.{Bytes, BlobLocation, Codec}
use reroll_sync.Archive.Segment.{SegmentStats, SegmentWriter, open_segment, add, seal, should_seal}
use reroll_sync.Archive.Reader.{Files}

pub record SegmentFile : Type 0 where
  pub id : ℕ
  pub content : Bytes

pub record Store : Type 0 where
  pub open_files : List SegmentFile
  pub sealed_files : List SegmentFile
  pub current : Option SegmentWriter

-- the defaults of `SegmentWriter`; its clock counts seconds
abbrev pub default_block_target_bytes : ℕ
default_block_target_bytes = 4 * 1024 * 1024

abbrev pub default_seal_bytes : ℕ
default_seal_bytes = 64 * 1024 * 1024

abbrev pub default_seal_after_seconds : ℕ
default_seal_after_seconds = 6 * 60 * 60

-- one more than the greatest of the ids, 0 where there is none
abbrev pub after_all : List ℕ → ℕ
after_all [] = 0
after_all (i ∷ is) = max (suc i) (after_all is)

abbrev pub file_ids : List SegmentFile → List ℕ
file_ids = map (λ (f : SegmentFile). f.id)

-- `_SEGMENT_FILENAME`: the names of six digits, which are those of the numbers below a million
abbrev pub seen_files : List SegmentFile → List SegmentFile
seen_files = select (λ f. ltb f.id 1000000)

abbrev pub segment_ids : List SegmentRow → List ℕ
segment_ids = map (λ (r : SegmentRow). r.id)

-- `_next_segment_id`
unfoldable pub next_segment_id : Db → Store → ℕ
next_segment_id db s =
    max (after_all (segment_ids db.segments))
      (after_all (file_ids (seen_files s.open_files) ++ file_ids (seen_files s.sealed_files)))

abbrev pub has_sha : String → BlobRow → Bool
has_sha sha256 r = text_eq r.sha256 sha256

abbrev pub to_location : BlobRow → BlobLocation
to_location r = record {
  sha256 = r.sha256;
  segment_id = r.segment_id;
  block_no = r.block_no;
  offset = r.offset;
  length = r.length;
}

abbrev pub to_row : BlobLocation → BlobRow
to_row l = record {
  sha256 = l.sha256;
  segment_id = l.segment_id;
  block_no = l.block_no;
  offset = l.offset;
  length = l.length;
}

abbrev located : Option BlobRow → Option BlobLocation
located none = none
located (some r) = some (to_location r)

-- `location_for`
unfoldable pub location_for : String → Db → Option BlobLocation
location_for sha256 db = located (find (has_sha sha256) db.blobs)

-- `INSERT OR IGNORE INTO blobs`
unfoldable pub insert_blob : BlobRow → List BlobRow → List BlobRow
insert_blob row rows = if is_some (find (has_sha row.sha256) rows) then rows else rows ++ row ∷ []

-- `open_writer`
unfoldable pub open_writer : ℕ → Db × Store → SegmentWriter × (Db × Store)
unfolding next_segment_id
open_writer now (db, s) =
    let id = next_segment_id db s in
    let w =
      open_segment id default_block_target_bytes default_seal_bytes default_seal_after_seconds
        now in
    let row : SegmentRow = record {
      id = id;
      sealed_at = none;
      bytes = none;
      records = none;
      footer_sha = none;
    } in
    (
      w,
      (
        record db { segments = db.segments ++ row ∷ [] },
        record s {
          open_files = s.open_files ++ record { id = id; content = [] } ∷ [];
          current = some w;
        },
      ),
    )

abbrev pub writer_or_open : ℕ → Option SegmentWriter → Db × Store → SegmentWriter × (Db × Store)
writer_or_open now (some w) ds = (w, ds)
writer_or_open now none ds = open_writer now ds

-- `current_writer`
unfoldable pub current_writer : ℕ → Db × Store → SegmentWriter × (Db × Store)
unfolding open_writer
current_writer now (db, s) = writer_or_open now s.current (db, s)

-- `_is_sealed`
abbrev pub is_sealed_row : ℕ → SegmentRow → Bool
is_sealed_row id r = r.id == id && is_some r.sealed_at

unfoldable pub is_sealed : ℕ → Db → Bool
is_sealed id db = any (is_sealed_row id) db.segments

-- `_recover_stale_open_segments`
unfoldable pub recover_stale_open_segments : Db → Store → Store
unfolding is_sealed
recover_stale_open_segments db s = record s {
  open_files = update (λ f. not (is_sealed f.id db)) (λ f. record f { content = [] }) s.open_files;
}

-- `sealed_segment_ids`
unfoldable pub sealed_segment_ids : Db → List ℕ
sealed_segment_ids db = order_by ltb (segment_ids (select (λ r. is_some r.sealed_at) db.segments))

-- `blob_rows_for_segment`; `text_lt` is sqlite's BINARY collation
unfoldable pub blob_rows_for_segment : (String → String → Bool) → ℕ → Db → List BlobRow
blob_rows_for_segment text_lt id db =
    order_by (λ r t. text_lt r.sha256 t.sha256) (select (λ r. r.segment_id == id) db.blobs)

-- what a reader of the directory sees
abbrev content_of : Option SegmentFile → Option Bytes
content_of none = none
content_of (some f) = some f.content

unfoldable pub files_of : Store → Files
files_of s id = content_of (find (λ f. f.id == id) s.sealed_files)

-- the UPDATE of a sealed segment's row, in `seal_writer` and in `_seal_write_op` of fetch.py
unfoldable pub mark_sealed : SegmentStats → Timestamp → Db → Db
mark_sealed stats now db = record db {
  segments =
      update (λ r. r.id == stats.segment_id)
        (λ r. record r {
          sealed_at = some now;
          bytes = some stats.bytes;
          records = some stats.records;
          footer_sha = some stats.footer_sha256;
        })
        db.segments;
}

module _ (c : Codec) where
  abbrev pub indexed :
      Option BlobLocation × SegmentWriter → Db × Store → Option BlobLocation × (Db × Store)
  indexed (none, w) (db, s) = (none, (db, record s { current = some w }))
  indexed (some l, w) (db, s) = (
    some l,
    (record db { blobs = insert_blob (to_row l) db.blobs }, record s { current = some w }),
  )

  -- `ArchiveStore.add`: `none` is the `RuntimeError` of a sealed segment
  unfoldable pub add_blob : Bytes → ℕ → Db × Store → Option BlobLocation × (Db × Store)
  unfolding current_writer insert_blob
  add_blob bytes now ds = let (w, ds') = current_writer now ds in indexed (add c bytes w) ds'

  -- the file of a writer that `seal` renamed; an exception leaves it open
  abbrev pub sealed_into : Option SegmentStats × SegmentWriter → Store → Option SegmentStats × Store
  sealed_into (none, w) s = (none, record s { current = some w })
  sealed_into (some stats, w) s = (
    some stats,
    record s {
      open_files = delete (λ f. f.id == w.segment_id) s.open_files;
      sealed_files = s.sealed_files ++ record { id = w.segment_id; content = w.file } ∷ [];
      current = some w;
    },
  )

  abbrev recorded :
      Option SegmentStats × Store → Timestamp → Db → Option SegmentStats × (Db × Store)
  recorded (none, s) now db = (none, (db, s))
  recorded (some stats, s) now db =
      (some stats, (mark_sealed stats now db, record s { current = none }))

  -- `seal_writer` on the current writer
  unfoldable pub seal_writer :
      SegmentWriter → Timestamp → Db × Store → Option SegmentStats × (Db × Store)
  unfolding mark_sealed
  seal_writer w now (db, s) = recorded (sealed_into (seal c w) s) now db
