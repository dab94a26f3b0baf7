-- ===== src/Archive/Tests/Runs.antt =====
-- A segment of three records, of which one repeats another, in two blocks.
use reroll_sync.Base.{
  ◌<◌, ◌≡◌, refl, Bool, ◌&&◌, List, [], ◌∷◌, arith, length, Option, none, some, All, if◌then◌else◌,
  ◌==◌, String, text_eq, map, text_eq_iff, inl,
}
use reroll_sync.Sql.{find, select, order_by}
use reroll_sync.Db.{Db, BlobRow, empty as empty_db}
use reroll_sync.Archive.Format.{
  Bytes, Footer, BlobLocation, encode_trailer, decode_trailer, encode_footer, encode_trailer,
  decode_footer,
}
use reroll_sync.Archive.Format.Trailer.{decode_trailer-encode_trailer}
use reroll_sync.Archive.Segment.{SegmentStats, SegmentWriter, open_segment, seal, add}
use reroll_sync.Archive.Segment.Adds.{add_all}
use reroll_sync.Archive.Reader.{Files, got, load_footer, load_entry, read_plain}
use reroll_sync.Archive.Reader.RoundTrip.{IsReadBack, read_plain-add_all-seal}
use reroll_sync.Archive.Reader.Cache.{open_reader, read_all}
use reroll_sync.Archive.Reader.Cache.Refines.{IsFaithful, read_all-refines}
use reroll_sync.Archive.Store.{
  SegmentFile, Store, open_writer, add_blob, location_for, blob_rows_for_segment, segment_ids,
  to_location,
}
use reroll_sync.Archive.Store.Laws.{open_writer-fresh, location_for-add_blob, first_of}
use reroll_sync.Archive.Verify.{verify_segment, lookup}
use reroll_sync.Archive.Verify.Readable.{verify_segment-reads, IsKey}
use reroll_sync.Archive.Tests.{toy, toy-IsCodec, one, two}

abbrev records : List Bytes
records = one ∷ two ∷ one ∷ []

abbrev writer : SegmentWriter
writer = open_segment 3 2 100 100 0

abbrev sealed : Option SegmentStats × SegmentWriter
sealed = seal toy (add_all toy records writer).1

abbrev files : Files
files id = if id == 3 then some sealed.1.file else none

abbrev stats : SegmentStats
stats = record { segment_id = 3; bytes = 56; records = 2; footer_sha256 = "b" }

sealed_stats : seal toy (add_all toy records writer).1 ≡ (some stats, sealed.1)
unfolding open_segment add add_all seal encode_footer encode_trailer find
sealed_stats = refl

read_plain-add_all-seal_example : All (IsReadBack toy files) (add_all toy records writer).0
read_plain-add_all-seal_example =
    read_plain-add_all-seal toy toy-IsCodec 3 2 100 100 0 records stats sealed.1 files sealed_stats
      refl

abbrev first : BlobLocation
first = record { sha256 = "a"; segment_id = 3; block_no = 0; offset = 0; length = 1 }

abbrev second : BlobLocation
second = record { sha256 = "b"; segment_id = 3; block_no = 1; offset = 0; length = 2 }

abbrev elsewhere : BlobLocation
elsewhere = record { sha256 = "b"; segment_id = 4; block_no = 0; offset = 0; length = 2 }

read_all-refines_example :
    ((read_all toy files (first ∷ second ∷ elsewhere ∷ first ∷ []) (open_reader 1)).0
      ≡ map (read_plain toy files) (first ∷ second ∷ elsewhere ∷ first ∷ []))
    × IsFaithful toy files
        (read_all toy files (first ∷ second ∷ elsewhere ∷ first ∷ []) (open_reader 1)).1
read_all-refines_example = read_all-refines toy files (first ∷ second ∷ elsewhere ∷ first ∷ []) 1

decode_trailer-encode_trailer_example :
    decode_trailer (elim (encode_trailer 1000 70000 305419896) [ some t ↦ t | none ↦ [] ])
    ≡ some (1000, 70000, 305419896)
unfolding encode_trailer
decode_trailer-encode_trailer_example = decode_trailer-encode_trailer 1000 70000 305419896 _ refl

abbrev store : Store
store = record {
  open_files = record { id = 4; content = [] } ∷ [];
  sealed_files = record { id = 2; content = 7 ∷ [] } ∷ [];
  current = none;
}

abbrev row : BlobRow
row = record { sha256 = "b"; segment_id = 3; block_no = 1; offset = 0; length = 2 }

abbrev tables : Db
tables = record empty_db { blobs = row ∷ [] }

open_writer-fresh_example :
    let id = (open_writer 9 (tables, store)).0.segment_id in
    All (λ i. i < id) (segment_ids tables.segments)
    × All (λ (f : SegmentFile). f.id < 1000000 → f.id < id) store.open_files
    × All (λ (f : SegmentFile). f.id < 1000000 → f.id < id) store.sealed_files
open_writer-fresh_example = open_writer-fresh 9 tables store

abbrev fifth : BlobLocation
fifth = record { sha256 = "a"; segment_id = 5; block_no = 0; offset = 0; length = 1 }

location_for-add_blob_example :
    location_for "a" (add_blob toy one 9 (tables, store)).1.0
    ≡ some (first_of (location_for "a" tables) fifth)
unfolding add_blob add find open_writer open_segment select
location_for-add_blob_example = location_for-add_blob toy one 9 tables store fifth refl

abbrev text_lt : String → String → Bool
text_lt s t = text_eq s "a" && text_eq t "b"

abbrev both : Db
both = record empty_db {
  blobs = row ∷ record { sha256 = "a"; segment_id = 3; block_no = 0; offset = 0; length = 1 } ∷ [];
}

abbrev footer : Footer
footer = record { version = 1; blocks = sealed.1.blocks; records = sealed.1.records }

loaded : load_footer toy files 3 ≡ got footer
unfolding open_segment add add_all seal encode_footer encode_trailer find load_footer decode_footer
    decode_trailer
loaded = refl

clean : verify_segment toy files text_lt 3 both ≡ got []
unfolding open_segment add add_all seal encode_footer encode_trailer find load_footer decode_footer
    decode_trailer verify_segment select blob_rows_for_segment order_by load_entry lookup
clean = refl

ranged : All (λ k. k.block_no < length footer.blocks) footer.records
unfolding open_segment add add_all seal encode_footer encode_trailer find
ranged = omega arith

keyed : IsKey both row
keyed = ((λ e. refl), ((λ e. absurd (ground (arith, text_eq_iff "a" "b"))), tt))

verify_segment-reads_example :
    (bytes : Bytes) × (read_plain toy files (to_location row) ≡ got bytes)
    × (toy.sha256 bytes ≡ "b")
verify_segment-reads_example =
    verify_segment-reads toy files 3 footer loaded text_lt both row clean ranged (inl refl) refl
      keyed
