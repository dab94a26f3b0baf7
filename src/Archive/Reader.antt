-- ===== src/Archive/Reader.antt =====
-- archive/reader.py: `SegmentReader`. `files` gives the bytes of the sealed file of a segment.
pub mod RoundTrip
pub mod Cache
use Prim.Native.Nat.{◌-◌}
use reroll_sync.Base.{
  ℕ, ◌+◌, length, Option, none, some, get_elem?, if◌then◌else◌, ltb, ◌==◌, text_eq, drop,
}
use reroll_sync.Archive.Format.{
  Bytes, BlockEntry, BlobLocation, Footer, Codec, slice, decode_trailer, decode_footer,
  trailer_size, Document, document, other_shape,
}

-- The exceptions of a read.
pub data ReadError : Type 0 where
  file_not_found corrupt_segment index_error zstd_error wrong_shape : ReadError

pub data Read (A : Type 0) : Type 0 where
  got : A → Read A
  failed : ReadError → Read A

abbrev pub and_then : {A B : Type 0} → Read A → (A → Read B) → Read B
and_then (got a) f = f a
and_then (failed e) f = failed e

abbrev pub or_corrupt : {A : Type 0} → Option A → Read A
or_corrupt none = failed corrupt_segment
or_corrupt (some a) = got a

abbrev pub of_document : Option Document → Read Footer
of_document none = failed corrupt_segment
of_document (some other_shape) = failed wrong_shape
of_document (some (document f)) = got f

abbrev pub or_missing : {A : Type 0} → ReadError → Option A → Read A
or_missing e none = failed e
or_missing e (some a) = got a

abbrev pub Files : Type 0
Files = ℕ → Option Bytes

module _ (c : Codec) where
  -- the part of `_footer_for` that follows the trailer
  unfoldable pub footer_at : Bytes → ℕ × ℕ × ℕ → Read Footer
  footer_at file (footer_offset, footer_length, expected_crc) =
      let compressed = slice footer_offset footer_length file in
      if ltb (length file) (footer_offset + footer_length + trailer_size)
      then failed corrupt_segment
      else (if c.crc32 compressed == expected_crc
          then of_document (decode_footer c compressed)
          else failed corrupt_segment)

  -- `_footer_for` without its cache
  unfoldable pub load_footer : Files → ℕ → Read Footer
  unfolding footer_at
  load_footer files id = and_then (or_missing file_not_found (files id)) (λ file.
      if ltb (length file) trailer_size
      then failed corrupt_segment
      else and_then (or_corrupt (decode_trailer (drop (length file - trailer_size) file)))
          (footer_at file))

  -- the part of `_block_bytes` that reads a block of a segment whose footer is at hand
  unfoldable pub load_entry : Files → ℕ → BlockEntry → Read Bytes
  load_entry files id entry =
      and_then (or_missing file_not_found (files id))
        (λ file. or_missing zstd_error (c.decompress (slice entry.offset entry.length file)))

  unfoldable pub load_block_with : Files → ℕ → ℕ → Footer → Read Bytes
  unfolding load_entry
  load_block_with files id n footer =
      and_then (or_missing index_error (get_elem? footer.blocks n)) (load_entry files id)

  -- `_block_bytes` without its cache
  unfoldable pub load_block : Files → ℕ → ℕ → Read Bytes
  unfolding load_footer load_block_with
  load_block files id n = and_then (load_footer files id) (load_block_with files id n)

  -- the check at the end of `read`
  unfoldable pub checked : BlobLocation → Bytes → Read Bytes
  checked l block =
      let bytes = slice l.offset l.length block in
      if text_eq (c.sha256 bytes) l.sha256 then got bytes else failed corrupt_segment

  -- `read` without the caches
  unfoldable pub read_plain : Files → BlobLocation → Read Bytes
  unfolding load_block checked
  read_plain files l = and_then (load_block files l.segment_id l.block_no) (checked l)
