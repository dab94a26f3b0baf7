-- ===== src/Archive/Format.antt =====
-- archive/format.py and archive/location.py: the trailer of a segment file and the documents that
-- a file holds. zstd, msgpack, crc32 and sha256 are parameters; `pack` of the standard `struct`
-- module is modelled for the formats that the trailer uses, little-endian numbers of fixed width.
pub mod Slices
pub mod Trailer
use reroll_sync.Base.{
  ℕ, zero, suc, ◌+◌, ◌*◌, ◌≤◌, ◌<◌, ◌≡◌, ◌≢◌, ◌↔◌, ◌∙◌, refl, sym, ap, Bool, true, false, not, ◌&&◌,
  ◌||◌, List, [], ◌∷◌, ◌++◌, arith, length, max, min, sum_by, sum_by-append, length-append, Option,
  none, some, append_assoc, append-nil, ◌⊎◌, inl, inr, get_elem?, All, All-append, Option-cases,
  List-cases, Bool-cases, if◌then◌else◌, ltb, leb, ◌==◌, String, ◌%◌, ◌/◌, ◌^◌, take, drop,
}

abbrev pub Bytes : Type 0
Bytes = List ℕ

pub record BlockEntry : Type 0 where
  pub offset : ℕ
  pub length : ℕ
  pub raw_length : ℕ

-- The digest is the text of its hexadecimal digits, for both of the forms that the code converts
-- into each other (`bytes.fromhex` and `hex`).
pub record RecordEntry : Type 0 where
  pub sha256 : String
  pub block_no : ℕ
  pub offset : ℕ
  pub length : ℕ

pub record Footer : Type 0 where
  pub version : ℕ
  pub blocks : List BlockEntry
  pub records : List RecordEntry

pub record BlobLocation : Type 0 where
  pub sha256 : String
  pub segment_id : ℕ
  pub block_no : ℕ
  pub offset : ℕ
  pub length : ℕ

-- What msgpack unpacks: a footer, or a document without the keys of one.
pub data Document : Type 0 where
  document : Footer → Document
  other_shape : Document

-- The libraries: zstd, msgpack on the footer document, zlib's crc32 and hashlib's sha256. `none`
-- is the exception of a decoder.
pub record Codec : Type 0 where
  pub compress : Bytes → Bytes
  pub decompress : Bytes → Option Bytes
  pub packb : Footer → Bytes
  pub unpackb : Bytes → Option Document
  pub crc32 : Bytes → ℕ
  pub sha256 : Bytes → String

-- a digest, which `bytes.fromhex` can read
abbrev pub IsDigest : Codec → RecordEntry → Type 0
IsDigest c r = (bytes : Bytes) × (r.sha256 ≡ c.sha256 bytes)

-- What the code relies on: decoding what was encoded gives it back, and a crc32 has 32 bits.
pub record IsCodec (c : Codec) : Type 0 where
  pub decompress-compress : (b : Bytes) → c.decompress (c.compress b) ≡ some b
  pub unpackb-packb :
      (f : Footer) → All (IsDigest c) f.records → c.unpackb (c.packb f) ≡ some (document f)
  pub crc32_small : (b : Bytes) → c.crc32 b < 2 ^ 32

-- `FOOTER_VERSION`, `TRAILER_SIZE`, `MAGIC` and the reserved bytes
abbrev pub footer_version : ℕ
footer_version = 1

abbrev pub trailer_size : ℕ
trailer_size = 32

abbrev pub magic : Bytes
magic = 82 ∷ 83 ∷ 83 ∷ 69 ∷ 71 ∷ 49 ∷ 0 ∷ 0 ∷ []

abbrev pub reserved : Bytes
reserved = 0 ∷ 0 ∷ 0 ∷ 0 ∷ []

-- `n` in `width` bytes, the lowest first, and back
unfoldable pub le_bytes : ℕ → ℕ → Bytes
le_bytes zero n = []
le_bytes (suc width) n = n % 256 ∷ le_bytes width (n / 256)

unfoldable pub le_value : Bytes → ℕ
le_value [] = 0
le_value (b ∷ bs) = b + 256 * le_value bs

abbrev pub bytes_eq : Bytes → Bytes → Bool
bytes_eq [] [] = true
bytes_eq (a ∷ as') (b ∷ bs) = a == b && bytes_eq as' bs
bytes_eq _ _ = false

-- `data[offset : offset + length]`, and `seek` with `read`
abbrev pub slice : ℕ → ℕ → Bytes → Bytes
slice offset n bytes = take n (drop offset bytes)

-- `encode_footer`
unfoldable pub encode_footer : Codec → List BlockEntry → List RecordEntry → Bytes
encode_footer c blocks records =
    c.compress (c.packb (record { version = footer_version; blocks = blocks; records = records }))

abbrev pub unpack_footer : Codec → Option Bytes → Option Document
unpack_footer c none = none
unpack_footer c (some raw) = c.unpackb raw

-- `decode_footer`: `none` is a `CorruptSegmentError`, and of another shape of document the
-- `KeyError` or `TypeError` passes through
unfoldable pub decode_footer : Codec → Bytes → Option Document
decode_footer c compressed = unpack_footer c (c.decompress compressed)

-- `encode_trailer`: `none` is the `struct.error` of a number that does not fit
unfoldable pub encode_trailer : ℕ → ℕ → ℕ → Option Bytes
unfolding le_bytes
encode_trailer footer_offset footer_length footer_crc32 =
    if ltb footer_offset (2 ^ 64) && (ltb footer_length (2 ^ 64) && ltb footer_crc32 (2 ^ 32))
    then some (
        magic
        ++ (le_bytes 8 footer_offset
            ++ (le_bytes 8 footer_length ++ (le_bytes 4 footer_crc32 ++ reserved))))
    else none

-- `decode_trailer`: `none` is a `CorruptSegmentError`
unfoldable pub decode_trailer : Bytes → Option (ℕ × ℕ × ℕ)
unfolding le_value
decode_trailer bytes =
    if length bytes == trailer_size && bytes_eq (slice 0 8 bytes) magic
    then some (le_value (slice 8 8 bytes), le_value (slice 16 8 bytes), le_value (slice 24 4 bytes))
    else none
