-- ===== src/Archive/Tests.antt =====
-- A codec that packs documents as plain numbers and knows two digests.
pub mod Runs
use reroll_sync.Base.{
  ℕ, zero, suc, ◌+◌, ◌*◌, ◌≤◌, ◌<◌, ◌≡◌, ◌≢◌, ◌↔◌, ◌∙◌, refl, sym, ap, Bool, true, false, not, ◌&&◌,
  ◌||◌, List, [], ◌∷◌, ◌++◌, arith, length, max, min, sum_by, sum_by-append, length-append, Option,
  none, some, append_assoc, append-nil, ◌⊎◌, inl, inr, get_elem?, All, All-append, Option-cases,
  List-cases, Bool-cases, if◌then◌else◌, ltb, leb, ◌==◌, String, text_eq, ◌%◌,
}
use reroll_sync.Archive.Format.{
  Bytes, BlockEntry, RecordEntry, Footer, Document, document, other_shape, Codec, IsCodec, IsDigest,
  bytes_eq,
}

abbrev pub one : Bytes
one = 1 ∷ []

abbrev pub two : Bytes
two = 2 ∷ 5 ∷ []

abbrev pub toy_sha256 : Bytes → String
toy_sha256 b = if bytes_eq b one then "a" else "b"

abbrev flag : String → ℕ
flag s = if text_eq s "a" then 1 else 0

abbrev digest : ℕ → String
digest zero = "b"
digest (suc n) = "a"

flag-digest : (b : Bytes) → digest (flag (toy_sha256 b)) ≡ toy_sha256 b
flag-digest b = elim (Bool-cases (bytes_eq b one)) [ inl e ↦ rw e | inr e ↦ rw e ]

abbrev pack_blocks : List BlockEntry → Bytes → Bytes
pack_blocks [] rest = 0 ∷ rest
pack_blocks (b ∷ bs) rest = 1 ∷ b.offset ∷ b.length ∷ b.raw_length ∷ pack_blocks bs rest

abbrev pack_records : List RecordEntry → Bytes
pack_records [] = 0 ∷ []
pack_records (r ∷ rs) = 1 ∷ flag r.sha256 ∷ r.block_no ∷ r.offset ∷ r.length ∷ pack_records rs

abbrev push {ℓ} : {A : Type ℓ} → A → Option (List A) → Option (List A)
push a none = none
push a (some as') = some (a ∷ as')

abbrev unpack_records : Bytes → Option (List RecordEntry)
unpack_records (suc t ∷ s ∷ n ∷ o ∷ l ∷ rest) =
    push (record { sha256 = digest s; block_no = n; offset = o; length = l }) (unpack_records rest)
unpack_records (zero ∷ []) = some []
unpack_records _ = none

abbrev with_block :
    BlockEntry
    → Option (List BlockEntry × List RecordEntry)
    → Option (List BlockEntry × List RecordEntry)
with_block b none = none
with_block b (some (bs, rs)) = some (b ∷ bs, rs)

abbrev no_blocks : Option (List RecordEntry) → Option (List BlockEntry × List RecordEntry)
no_blocks none = none
no_blocks (some rs) = some ([], rs)

abbrev unpack_blocks : Bytes → Option (List BlockEntry × List RecordEntry)
unpack_blocks (suc t ∷ o ∷ n ∷ r ∷ rest) =
    with_block (record { offset = o; length = n; raw_length = r }) (unpack_blocks rest)
unpack_blocks (zero ∷ rest) = no_blocks (unpack_records rest)
unpack_blocks _ = none

abbrev to_footer : ℕ → Option (List BlockEntry × List RecordEntry) → Option Document
to_footer v none = some other_shape
to_footer v (some (bs, rs)) = some (document (record { version = v; blocks = bs; records = rs }))

abbrev unpack : Bytes → Option Document
unpack [] = none
unpack (v ∷ rest) = to_footer v (unpack_blocks rest)

abbrev pub toy : Codec
toy = record {
  compress = λ b. b;
  decompress = λ b. some b;
  packb = λ f. f.version ∷ pack_blocks f.blocks (pack_records f.records);
  unpackb = unpack;
  crc32 = λ b. length b % 7;
  sha256 = toy_sha256;
}

unpack_records-pack :
    (rs : List RecordEntry) → All (IsDigest toy) rs → unpack_records (pack_records rs) ≡ some rs
unpack_records-pack [] h = refl
unpack_records-pack (r ∷ rs) h =
    let same : digest (flag r.sha256) ≡ r.sha256 = rw h.0.1 (flag-digest h.0.0) in
    rw (unpack_records-pack rs h.1, same)

unpack_blocks-pack :
    (bs : List BlockEntry) (rs : List RecordEntry)
    → All (IsDigest toy) rs
    → unpack_blocks (pack_blocks bs (pack_records rs)) ≡ some (bs, rs)
unpack_blocks-pack [] rs h = rw (unpack_records-pack rs h)
unpack_blocks-pack (b ∷ bs) rs h = rw (unpack_blocks-pack bs rs h)

pub toy-IsCodec : IsCodec toy
toy-IsCodec = record {
  decompress-compress = λ b. refl;
  unpackb-packb = λ f h. rw (unpack_blocks-pack f.blocks f.records h);
  crc32_small = λ b. omega arith;
}
