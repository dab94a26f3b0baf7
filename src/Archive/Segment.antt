-- ===== src/Archive/Segment.antt =====
-- archive/writer.py: `SegmentWriter`. The file is what was written to it; flushing and renaming it
-- are not seen by the program itself but in the name of the file, which is `is_sealed`.
pub mod Layout
pub mod Adds
use Prim.Native.Nat.{◌-◌}
use reroll_sync.Base.{
  ℕ, zero, suc, ◌+◌, ◌*◌, ◌≤◌, ◌<◌, ◌≡◌, ◌≢◌, ◌↔◌, ◌∙◌, refl, sym, ap, Bool, true, false, not, ◌&&◌,
  ◌||◌, List, [], ◌∷◌, ◌++◌, arith, length, max, min, sum_by, sum_by-append, length-append, Option,
  none, some, append_assoc, append-nil, ◌⊎◌, inl, inr, get_elem?, All, All-append, Option-cases,
  List-cases, Bool-cases, if◌then◌else◌, ltb, leb, ◌==◌, String, text_eq,
}
use reroll_sync.Sql.{find}
use reroll_sync.Archive.Format.{
  Bytes, BlockEntry, RecordEntry, BlobLocation, Codec, encode_footer, encode_trailer,
}

pub record SegmentStats : Type 0 where
  pub segment_id : ℕ
  pub bytes : ℕ
  pub records : ℕ
  pub footer_sha256 : String

pub record SegmentWriter : Type 0 where
  pub segment_id : ℕ
  pub block_target_bytes : ℕ
  pub seal_bytes : ℕ
  pub seal_after : ℕ
  pub start : ℕ
  pub file : Bytes
  pub position : ℕ
  pub compressed_bytes : ℕ
  pub block_no : ℕ
  pub block_buffer : Bytes
  pub block_raw_size : ℕ
  pub pending_records : ℕ
  pub blocks : List BlockEntry
  pub records : List RecordEntry
  pub locations : List BlobLocation
  pub is_sealed : Bool

-- `__init__`, after the file was created
unfoldable pub open_segment : ℕ → ℕ → ℕ → ℕ → ℕ → SegmentWriter
open_segment segment_id block_target_bytes seal_bytes seal_after now = record {
  segment_id = segment_id;
  block_target_bytes = block_target_bytes;
  seal_bytes = seal_bytes;
  seal_after = seal_after;
  start = now;
  file = [];
  position = 0;
  compressed_bytes = 0;
  block_no = 0;
  block_buffer = [];
  block_raw_size = 0;
  pending_records = 0;
  blocks = [];
  records = [];
  locations = [];
  is_sealed = false;
}

-- `should_seal`
unfoldable pub should_seal : ℕ → SegmentWriter → Bool
should_seal now w = leb w.seal_bytes w.compressed_bytes || leb w.seal_after (now - w.start)

-- the key of `_locations`
abbrev pub is_at : String → BlobLocation → Bool
is_at sha256 l = text_eq l.sha256 sha256

module _ (c : Codec) where
  -- `_flush_block`
  unfoldable pub flush_block : SegmentWriter → SegmentWriter
  flush_block w =
      let compressed = c.compress w.block_buffer in
      record w {
        file = w.file ++ compressed;
        blocks =
            w.blocks
            ++ (record {
              offset = w.position;
              length = length compressed;
              raw_length = w.block_raw_size;
            }
                ∷ []);
        position = w.position + length compressed;
        compressed_bytes = w.compressed_bytes + length compressed;
        block_no = suc w.block_no;
        block_buffer = [];
        block_raw_size = 0;
        pending_records = 0;
      }

  -- where `add` puts a record that is new
  abbrev pub location_of : Bytes → SegmentWriter → BlobLocation
  location_of bytes w = record {
    sha256 = c.sha256 bytes;
    segment_id = w.segment_id;
    block_no = w.block_no;
    offset = w.block_raw_size;
    length = length bytes;
  }

  unfoldable pub append_record : Bytes → SegmentWriter → SegmentWriter
  append_record bytes w = record w {
    block_buffer = w.block_buffer ++ bytes;
    block_raw_size = w.block_raw_size + length bytes;
    pending_records = suc w.pending_records;
    locations = location_of bytes w ∷ w.locations;
    records =
        w.records
        ++ (record {
          sha256 = c.sha256 bytes;
          block_no = w.block_no;
          offset = w.block_raw_size;
          length = length bytes;
        }
            ∷ []);
  }

  -- the flush at the head of `add`, where the block would grow past its target
  unfoldable pub make_room : Bytes → SegmentWriter → SegmentWriter
  unfolding flush_block
  make_room bytes w =
      if ltb 0 w.pending_records && ltb w.block_target_bytes (w.block_raw_size + length bytes)
      then flush_block w
      else w

  abbrev pub add_found : Bytes → Option BlobLocation → SegmentWriter → BlobLocation × SegmentWriter
  add_found bytes (some existing) w = (existing, w)
  add_found bytes none w =
      let w' = make_room bytes w in (location_of bytes w', append_record bytes w')

  abbrev returning : BlobLocation × SegmentWriter → Option BlobLocation × SegmentWriter
  returning (l, w) = (some l, w)

  -- `add`: `none` is the `RuntimeError` of a sealed segment
  unfoldable pub add : Bytes → SegmentWriter → Option BlobLocation × SegmentWriter
  unfolding make_room append_record
  add bytes w =
      if w.is_sealed
      then (none, w)
      else returning (add_found bytes (find (is_at (c.sha256 bytes)) w.locations) w)

  -- the flush at the head of `seal`
  unfoldable pub flush_pending : SegmentWriter → SegmentWriter
  unfolding flush_block
  flush_pending w = if ltb 0 w.pending_records then flush_block w else w

  -- the rest of `seal`, by the trailer; `none` is the error of a number that does not fit into it
  abbrev pub write_trailer :
      Bytes → Option Bytes → SegmentWriter → Option SegmentStats × SegmentWriter
  write_trailer footer none w = (none, record w { file = w.file ++ footer })
  write_trailer footer (some trailer) w = (
    some (record {
      segment_id = w.segment_id;
      bytes = w.position + length footer + length trailer;
      records = length w.records;
      footer_sha256 = c.sha256 footer;
    }),
    record w { file = (w.file ++ footer) ++ trailer; is_sealed = true },
  )

  abbrev pub write_footer : SegmentWriter → Option SegmentStats × SegmentWriter
  write_footer w =
      let footer = encode_footer c w.blocks w.records in
      write_trailer footer (encode_trailer w.position (length footer) (c.crc32 footer)) w

  -- `seal`: `none` is an exception
  unfoldable pub seal : SegmentWriter → Option SegmentStats × SegmentWriter
  unfolding flush_pending
  seal w = if w.is_sealed then (none, w) else write_footer (flush_pending w)
