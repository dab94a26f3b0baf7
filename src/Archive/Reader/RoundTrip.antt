-- ===== src/Archive/Reader/RoundTrip.antt =====
-- What `SegmentReader` reads from the file that `SegmentWriter.seal` leaves.
use Prim.Native.Nat.{◌-◌}
use reroll_sync.Base.{
  ℕ, zero, suc, ◌+◌, ◌≡◌, ◌∙◌, refl, sym, ap, true, false, List, [], ◌∷◌, ◌++◌, arith, length,
  length-append, Option, none, some, append_assoc, append-nil, get_elem?, All, ltb, ◌==◌, text_eq,
  ==_refl, text_eq_iff, All-imp, subst,
}
use reroll_sync.Sql.Laws.{find-All}
use reroll_sync.Archive.Format.{
  Bytes, BlockEntry, BlobLocation, Footer, document, Codec, IsCodec, slice, decode_trailer,
  decode_footer, trailer_size, footer_version, encode_footer, encode_trailer,
}
use reroll_sync.Archive.Format.Slices.{take-drop-middle, drop-length-append}
use reroll_sync.Archive.Format.Trailer.{
  decode_trailer-encode_trailer, length-encode_trailer, decode_footer-encode_footer,
}
use reroll_sync.Archive.Segment.{
  SegmentStats, SegmentWriter, open_segment, flush_pending, is_at, seal, write_footer,
  write_trailer,
}
use reroll_sync.Archive.Segment.Layout.{
  IsLaid, IsHeld, layout, body, open_chunk, open_segment-IsLaid,
}
use reroll_sync.Archive.Segment.Adds.{add_all, add_all-IsLaid, IsIssued, flush_pending-IsLaid}
use reroll_sync.Archive.Reader.{
  got, Files, footer_at, load_footer, load_entry, load_block_with, load_block, checked, read_plain,
}

module _ (c : Codec) where
  seal_unsealed :
      (w : SegmentWriter) → w.is_sealed ≡ false → seal c w ≡ write_footer c (flush_pending c w)
  unfolding seal
  seal_unsealed w u = simp u

  write_trailer_file :
      (f : Bytes) (o : Option Bytes) (w sealed : SegmentWriter) (stats : SegmentStats)
      → write_trailer c f o w ≡ (some stats, sealed)
      → (t : Bytes) × (o ≡ some t) × (sealed.file ≡ (w.file ++ f) ++ t)
  write_trailer_file f none w sealed stats e = absurd (ground arith)
  write_trailer_file f (some t) w sealed stats e = (t, refl, sym (ap (λ r. r.1.file) e))

  seal_file :
      (w sealed : SegmentWriter) (stats : SegmentStats)
      → w.is_sealed ≡ false
      → seal c w ≡ (some stats, sealed)
      → (t : Bytes) × (encode_trailer
            (flush_pending c w).position
            (length (encode_footer c (flush_pending c w).blocks (flush_pending c w).records))
            (c.crc32 (encode_footer c (flush_pending c w).blocks (flush_pending c w).records))
          ≡ some t)
        × (sealed.file
            ≡ ((flush_pending c w).file
                ++ encode_footer c (flush_pending c w).blocks (flush_pending c w).records)
              ++ t)
  seal_file w sealed stats u e =
      let w1 = flush_pending c w in
      let f = encode_footer c w1.blocks w1.records in
      write_trailer_file f (encode_trailer w1.position (length f) (c.crc32 f)) w1 sealed stats
        (sym (seal_unsealed w u) ∙ e)

  footer_at_lem :
      (b f t : Bytes) (footer : Footer)
      → length t ≡ trailer_size
      → decode_footer c f ≡ some (document footer)
      → footer_at c ((b ++ f) ++ t) (length b, length f, c.crc32 f) ≡ got footer
  unfolding footer_at
  footer_at_lem b f t footer size decoded =
      let n : length ((b ++ f) ++ t) ≡ length b + length f + trailer_size =
        omega (arith, length-append (b ++ f) t, length-append b f) in
      let within : ltb (length ((b ++ f) ++ t)) (length b + length f + trailer_size) ≡ false =
        ground arith in
      let crc : (c.crc32 f == c.crc32 f) ≡ true = ==_refl (c.crc32 f) in
      let cut : slice (length b) (length f) ((b ++ f) ++ t) ≡ f =
        rw (append_assoc b f t) (take-drop-middle b f t) in
      rw (within, cut, crc, decoded)

  load_footer_lem :
      (files : Files) (id : ℕ) (b f t : Bytes) (footer : Footer)
      → files id ≡ some ((b ++ f) ++ t)
      → length t ≡ trailer_size
      → decode_trailer t ≡ some (length b, length f, c.crc32 f)
      → decode_footer c f ≡ some (document footer)
      → load_footer c files id ≡ got footer
  unfolding load_footer
  load_footer_lem files id b f t footer at size trailer decoded =
      let n : length ((b ++ f) ++ t) ≡ length (b ++ f) + trailer_size =
        omega (arith, length-append (b ++ f) t) in
      let long : ltb (length ((b ++ f) ++ t)) trailer_size ≡ false = ground arith in
      let start : length ((b ++ f) ++ t) - trailer_size ≡ length (b ++ f) = omega arith in
      rw (at, long, start, drop-length-append (b ++ f) t, trailer)
        (footer_at_lem b f t footer size decoded)

  block_at :
      (n : ℕ) (chunks : List Bytes) (i : ℕ) (p pre rest : Bytes)
      → get_elem? chunks i ≡ some p
      → length pre ≡ n
      → (e : BlockEntry) × (get_elem? (layout c n chunks) i ≡ some e)
        × (slice e.offset e.length (pre ++ (body c chunks ++ rest)) ≡ c.compress p)
  block_at n [] i p pre rest h size = absurd (cc)
  block_at n (x ∷ xs) zero p pre rest h size =
      let same : x ≡ p = ground arith in
      rw (← same, ← size)
        (
          record { offset = length pre; length = length (c.compress x); raw_length = length x },
          refl,
          rw (append_assoc (c.compress x) (body c xs) rest)
              (take-drop-middle pre (c.compress x) (body c xs ++ rest)),
        )
  block_at n (x ∷ xs) (suc i) p pre rest h size =
      let (e, at, there) =
        block_at (n + length (c.compress x)) xs i p (pre ++ c.compress x) rest h
          (omega (arith, length-append pre (c.compress x))) in
      (
        e,
        at,
        rw (append_assoc (c.compress x) (body c xs) rest)
            (rw⁻¹ (append_assoc pre (c.compress x) (body c xs ++ rest)) there),
      )

  load_block_lem :
      (files : Files) (id : ℕ) (file : Bytes) (footer : Footer) (n : ℕ) (e : BlockEntry) (p : Bytes)
      → IsCodec c
      → load_footer c files id ≡ got footer
      → files id ≡ some file
      → get_elem? footer.blocks n ≡ some e
      → slice e.offset e.length file ≡ c.compress p
      → load_block c files id n ≡ got p
  unfolding load_block load_block_with load_entry
  load_block_lem files id file footer n e p k loaded at entry there =
      rw (loaded, entry, at, there, k.decompress-compress p)

  -- The bytes that a location names, in a file with such payloads.
  read_plain_held :
      (files : Files) (l : BlobLocation) (chunks : List Bytes) (rest : Bytes) (footer : Footer)
      → IsCodec c
      → files l.segment_id ≡ some (body c chunks ++ rest)
      → load_footer c files l.segment_id ≡ got footer
      → footer.blocks ≡ layout c 0 chunks
      → IsHeld c chunks l
      → (bytes : Bytes) × (read_plain c files l ≡ got bytes) × (c.sha256 bytes ≡ l.sha256)
  unfolding read_plain checked
  read_plain_held files l chunks rest footer k at loaded blocks h =
      let (e, entry, there) = block_at 0 chunks l.block_no h.chunk [] rest h.stands refl in
      let bytes = slice l.offset l.length h.chunk in
      let same : text_eq (c.sha256 bytes) l.sha256 ≡ true = (text_eq_iff _ _).1 h.digest in
      rw
        (
          load_block_lem files l.segment_id (body c chunks ++ rest) footer l.block_no e h.chunk k
              loaded at (rw blocks entry) there,
          same,
        )
        (bytes, refl, h.digest)

  -- The location that was returned reads as bytes with the digest of those that were added.
  abbrev pub IsReadBack : Files → Bytes × Option BlobLocation → Type 0
  IsReadBack files p =
      (l : BlobLocation) × (bytes : Bytes) × (p.1 ≡ some l)
      × (read_plain c files l ≡ got bytes)
      × (c.sha256 bytes ≡ c.sha256 p.0)

  seal-reads :
      (id : ℕ) (chunks : List Bytes) (w sealed : SegmentWriter) (stats : SegmentStats)
      (files : Files)
      → IsCodec c
      → IsLaid c id chunks w
      → seal c w ≡ (some stats, sealed)
      → files id ≡ some sealed.file
      → (p : Bytes × Option BlobLocation) → IsIssued c w.locations p
      → IsReadBack files p
  seal-reads id chunks w sealed stats files k v e at p (l, returned, found) =
      let (more, laid, closed, kept) = flush_pending-IsLaid c v in
      let w1 = flush_pending c w in
      let f = encode_footer c w1.blocks w1.records in
      let (t, trailer, file) = seal_file w sealed stats v.unsealed e in
      let footer : Footer = record {
        version = footer_version;
        blocks = w1.blocks;
        records = w1.records;
      } in
      let start : w1.position ≡ length (body c more) = laid.position in
      let content : files id ≡ some ((body c more ++ f) ++ t) =
        at ∙ ap some (file ∙ ap (λ b. (b ++ f) ++ t) laid.file) in
      let loaded : load_footer c files id ≡ got footer =
        load_footer_lem files id (body c more) f t footer content
          (length-encode_trailer w1.position (length f) (c.crc32 f) t trailer)
          (rw⁻¹ start (decode_trailer-encode_trailer w1.position (length f) (c.crc32 f) t trailer))
          (decode_footer-encode_footer c k w1.blocks w1.records laid.digests) in
      let (held, key) =
        find-All _ (is_at (c.sha256 p.0)) w1.locations l (rw kept found) laid.held in
      let (named, _) =
        find-All _ (is_at (c.sha256 p.0)) w1.locations l (rw kept found) laid.named in
      let block : IsHeld c more l =
        subst (λ ps. IsHeld c ps l)
          (ap (λ n. more ++ open_chunk n w1.block_buffer) closed ∙ append-nil more) held in
      let (bytes, reads, digest) =
        read_plain_held files l more (f ++ t) footer k
          (rw (named, ← append_assoc (body c more) f t) content) (rw named loaded) laid.blocks
          block in
      (l, bytes, returned, reads, digest ∙ (text_eq_iff l.sha256 (c.sha256 p.0)).0 key)

  All-seal-reads :
      (ps : List (Bytes × Option BlobLocation)) (id : ℕ) (chunks : List Bytes)
      (w sealed : SegmentWriter) (stats : SegmentStats) (files : Files)
      → IsCodec c
      → IsLaid c id chunks w
      → seal c w ≡ (some stats, sealed)
      → files id ≡ some sealed.file
      → All (IsIssued c w.locations) ps
      → All (IsReadBack files) ps
  All-seal-reads ps id chunks w sealed stats files k v e at issued =
      All-imp _ _ (seal-reads id chunks w sealed stats files k v e at) ps issued

-- Records added one after the other to a new segment, of any sizes and block target, repeated
-- records included: once the segment is sealed, each location that `add` returned, also for a
-- record that was there already, reads from the sealed file as bytes that have the digest of the
-- record.
pub read_plain-add_all-seal :
    (c : Codec)
    → IsCodec c
    → (id target seal_bytes seal_after now : ℕ) (ds : List Bytes) (stats : SegmentStats)
      (sealed : SegmentWriter) (files : Files)
    → seal c (add_all c ds (open_segment id target seal_bytes seal_after now)).1
      ≡ (some stats, sealed)
    → files id ≡ some sealed.file
    → All (IsReadBack c files) (add_all c ds (open_segment id target seal_bytes seal_after now)).0
read_plain-add_all-seal c k id target seal_bytes seal_after now ds stats sealed files e at =
    let w = open_segment id target seal_bytes seal_after now in
    let (chunks, laid, issued, _) =
      add_all-IsLaid c id ds [] w (open_segment-IsLaid c id target seal_bytes seal_after now) in
    All-seal-reads c (add_all c ds w).0 id chunks (add_all c ds w).1 sealed stats files k laid e at
      issued
