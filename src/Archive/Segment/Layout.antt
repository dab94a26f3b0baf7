-- ===== src/Archive/Segment/Layout.antt =====
-- What a segment's file and the writer's bookkeeping say of the blocks that were written: the
-- payloads of the blocks are a ghost variable, `chunks`.
use reroll_sync.Base.{
  ℕ, zero, suc, ◌+◌, ◌≤◌, ◌<◌, ◌≡◌, refl, ap, false, List, [], ◌∷◌, ◌++◌, arith, length,
  length-append, some, append_assoc, append-nil, get_elem?, All, All-append, take, All-imp,
}
use reroll_sync.Archive.Format.{IsDigest, Bytes, BlockEntry, BlobLocation, Codec, slice}
use reroll_sync.Archive.Format.Slices.{
  take-drop-append_le, get_elem?-append_length, drop-length-append,
}
use reroll_sync.Archive.Segment.{SegmentWriter, open_segment, flush_block, append_record}

-- The payloads with the open block, if it has a record.
abbrev pub open_chunk : ℕ → Bytes → List Bytes
open_chunk zero buffer = []
open_chunk (suc n) buffer = buffer ∷ []

-- A location of a record: its block has the bytes, and their digest is the record's.
pub record IsHeld (c : Codec) (chunks : List Bytes) (l : BlobLocation) : Type 0 where
  pub chunk : Bytes
  pub stands : get_elem? chunks l.block_no ≡ some chunk
  pub within : l.offset + l.length ≤ length chunk
  pub digest : c.sha256 (slice l.offset l.length chunk) ≡ l.sha256

-- Every payload is still there, perhaps with bytes at its end.
abbrev Grows : List Bytes → List Bytes → Type 0
Grows xs ys =
    (i : ℕ) (a : Bytes)
    → get_elem? xs i ≡ some a
    → (rest : Bytes) × (get_elem? ys i ≡ some (a ++ rest))

take_all : (bs : Bytes) → take (length bs) bs ≡ bs
take_all [] = refl
take_all (b ∷ bs) = ap (λ t. b ∷ t) (take_all bs)

module _ (c : Codec) where
  -- the entries of the footer, and the file, that such payloads have
  abbrev pub layout : ℕ → List Bytes → List BlockEntry
  layout position [] = []
  layout position (p ∷ ps) =
      let n = length (c.compress p) in
      record { offset = position; length = n; raw_length = length p } ∷ layout (position + n) ps

  abbrev pub body : List Bytes → Bytes
  body [] = []
  body (p ∷ ps) = c.compress p ++ body ps

  pub record IsLaid (id : ℕ) (chunks : List Bytes) (w : SegmentWriter) : Type 0 where
    pub file : w.file ≡ body chunks
    pub position : w.position ≡ length (body chunks)
    pub blocks : w.blocks ≡ layout 0 chunks
    pub counted : w.block_no ≡ length chunks
    pub raw_size : w.block_raw_size ≡ length w.block_buffer
    pub held :
        All (λ l. IsHeld c (chunks ++ open_chunk w.pending_records w.block_buffer) l) w.locations
    pub named : All (λ l. l.segment_id ≡ id) w.locations
    pub self : w.segment_id ≡ id
    pub unsealed : w.is_sealed ≡ false
    pub digests : All (IsDigest c) w.records

  body-append : (xs ys : List Bytes) → body (xs ++ ys) ≡ body xs ++ body ys
  body-append [] ys = refl
  body-append (x ∷ xs) ys = simp (body-append xs ys, append_assoc)

  layout-append :
      (n : ℕ) (xs : List Bytes) (y : Bytes)
      → layout n (xs ++ y ∷ [])
        ≡ layout n xs
          ++ record {
            offset = n + length (body xs);
            length = length (c.compress y);
            raw_length = length y;
          }
            ∷ []
  layout-append n [] y = rw (let e : n + 0 ≡ n = omega arith in e)
  layout-append n (x ∷ xs) y =
      let e : n + length (c.compress x) + length (body xs) ≡ n + length (body (x ∷ xs)) =
        omega (arith, length-append (c.compress x) (body xs)) in
      rw⁻¹ e (rw (layout-append (n + length (c.compress x)) xs y))

  IsHeld-Grows :
      (xs ys : List Bytes) (l : BlobLocation) → Grows xs ys → IsHeld c xs l → IsHeld c ys l
  IsHeld-Grows xs ys l g h =
      let (rest, at) = g l.block_no h.chunk h.stands in
      record {
        chunk = h.chunk ++ rest;
        stands = at;
        within = omega (arith, h.within, length-append h.chunk rest);
        digest = rw (take-drop-append_le l.offset l.length h.chunk rest h.within) h.digest;
      }

  Grows-open_chunk :
      (xs : List Bytes) (n : ℕ) (b d : Bytes) → Grows (xs ++ open_chunk n b) (xs ++ (b ++ d) ∷ [])
  Grows-open_chunk [] zero b d i a h = absurd (cc)
  Grows-open_chunk [] (suc n) b d zero a h = (d, ground arith)
  Grows-open_chunk [] (suc n) b d (suc i) a h = absurd (cc)
  Grows-open_chunk (x ∷ xs) n b d zero a h = ([], rw (append-nil a) h)
  Grows-open_chunk (x ∷ xs) n b d (suc i) a h = Grows-open_chunk xs n b d i a h

  pub open_segment-IsLaid :
      (id target seal_bytes seal_after now : ℕ)
      → IsLaid id [] (open_segment id target seal_bytes seal_after now)
  unfolding open_segment
  open_segment-IsLaid id target seal_bytes seal_after now = ground arith

  open_chunk_pos : (n : ℕ) (b : Bytes) → 0 < n → open_chunk n b ≡ b ∷ []
  open_chunk_pos zero b h = absurd (omega arith)
  open_chunk_pos (suc n) b h = refl

  module _ {id : ℕ} {chunks : List Bytes} {w : SegmentWriter} (v : IsLaid id chunks w) where
    pub flush_block-IsLaid :
        0 < w.pending_records → IsLaid id (chunks ++ w.block_buffer ∷ []) (flush_block c w)
    unfolding flush_block
    flush_block-IsLaid h = record {
      file = rw (
        v.file,
        body-append chunks (w.block_buffer ∷ []),
        append-nil (c.compress w.block_buffer),
      );
      position =
          rw (body-append chunks (w.block_buffer ∷ []), append-nil (c.compress w.block_buffer))
            (omega (arith, v.position, length-append (body chunks) (c.compress w.block_buffer)));
      blocks =
          rw (layout-append 0 chunks w.block_buffer, v.blocks, v.raw_size)
            (ground (arith, v.position));
      counted = omega (arith, v.counted, length-append chunks (w.block_buffer ∷ []));
      raw_size = refl;
      held =
          rw (append-nil (chunks ++ w.block_buffer ∷ []))
            (rw⁻¹ (open_chunk_pos w.pending_records w.block_buffer h) v.held);
      named = v.named;
      self = v.self;
      unsealed = v.unsealed;
      digests = v.digests;
    }

    pub append_record-IsLaid : (bytes : Bytes) → IsLaid id chunks (append_record c bytes w)
    unfolding append_record
    append_record-IsLaid bytes = record {
      file = v.file;
      position = v.position;
      blocks = v.blocks;
      counted = v.counted;
      raw_size = rw (length-append w.block_buffer bytes) (omega (arith, v.raw_size));
      held = (
        record {
          chunk = w.block_buffer ++ bytes;
          stands = rw v.counted (get_elem?-append_length chunks (w.block_buffer ++ bytes) []);
          within = rw (length-append w.block_buffer bytes) (omega (arith, v.raw_size));
          digest =
              rw (v.raw_size, drop-length-append w.block_buffer bytes)
                (ap c.sha256 (take_all bytes));
        },
        All-imp _ _
            (λ l.
              IsHeld-Grows _ _ l (Grows-open_chunk chunks w.pending_records w.block_buffer bytes))
            w.locations v.held,
      );
      named = (v.self, v.named);
      self = v.self;
      unsealed = v.unsealed;
      digests = All-append _ w.records _ v.digests ((bytes, refl), tt);
    }
