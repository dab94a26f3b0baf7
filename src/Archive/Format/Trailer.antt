-- ===== src/Archive/Format/Trailer.antt =====
-- Numbers in bytes and back, and the trailer.
use reroll_sync.Base.{
  ℕ, zero, suc, ◌*◌, ◌<◌, ◌≡◌, refl, sym, ap, List, ◌++◌, arith, length, some, All, ◌/◌, ◌^◌,
}
use reroll_sync.Archive.Format.{
  Bytes, Codec, IsCodec, IsDigest, BlockEntry, RecordEntry, le_bytes, le_value, encode_trailer,
  document, decode_trailer, encode_footer, decode_footer, magic, reserved, trailer_size,
  footer_version,
}

-- what fits into so many bytes
abbrev capacity : ℕ → ℕ
capacity zero = 1
capacity (suc k) = 256 * capacity k

le_value-le_bytes : (k n : ℕ) → n < capacity k → le_value (le_bytes k n) ≡ n
unfolding le_value le_bytes
le_value-le_bytes zero n h = omega arith
le_value-le_bytes (suc k) n h = omega (arith, le_value-le_bytes k (n / 256) (omega arith))

-- the bytes of a trailer whose numbers fit
abbrev packed : ℕ → ℕ → ℕ → Bytes
packed offset n crc = magic ++ (le_bytes 8 offset ++ (le_bytes 8 n ++ (le_bytes 4 crc ++ reserved)))

encode_trailer_parts :
    (offset n crc : ℕ) (t : Bytes)
    → encode_trailer offset n crc ≡ some t
    → (offset < 2 ^ 64) × (n < 2 ^ 64) × (crc < 2 ^ 32) × (packed offset n crc ≡ t)
unfolding encode_trailer
encode_trailer_parts offset n crc t e = ground arith

pub length-encode_trailer :
    (offset n crc : ℕ) (t : Bytes) → encode_trailer offset n crc ≡ some t → length t ≡ trailer_size
unfolding le_bytes
length-encode_trailer offset n crc t e = sym (ap length (encode_trailer_parts offset n crc t e).3)

decode_packed :
    (offset n crc : ℕ)
    → decode_trailer (packed offset n crc)
      ≡ some (le_value (le_bytes 8 offset), le_value (le_bytes 8 n), le_value (le_bytes 4 crc))
unfolding decode_trailer le_bytes
decode_packed offset n crc = refl

-- A trailer that could be encoded is read back: the offset and the length of the footer and its
-- checksum.
pub decode_trailer-encode_trailer :
    (offset n crc : ℕ) (t : Bytes)
    → encode_trailer offset n crc ≡ some t
    → decode_trailer t ≡ some (offset, n, crc)
decode_trailer-encode_trailer offset n crc t e =
    let (a, b, c, same) = encode_trailer_parts offset n crc t e in
    rw⁻¹ same (
      rw (decode_packed offset n crc) (
        rw (
          le_value-le_bytes 8 offset (omega arith),
          le_value-le_bytes 8 n (omega arith),
          le_value-le_bytes 4 crc (omega arith),
        )))

pub decode_footer-encode_footer :
    (c : Codec)
    → IsCodec c
    → (blocks : List BlockEntry) (records : List RecordEntry) → All (IsDigest c) records
    → decode_footer c (encode_footer c blocks records)
      ≡ some (document (record { version = footer_version; blocks = blocks; records = records }))
unfolding decode_footer encode_footer
decode_footer-encode_footer c v blocks records h =
    rw
      (v.decompress-compress
        (c.packb (record { version = footer_version; blocks = blocks; records = records })))
      (v.unpackb-packb (record { version = footer_version; blocks = blocks; records = records }) h)
