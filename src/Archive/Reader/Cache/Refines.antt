-- ===== src/Archive/Reader/Cache/Refines.antt =====
-- A reader with caches against one without.
use reroll_sync.Base.{
  ℕ, ◌≤◌, ◌≡◌, ◌∙◌, refl, sym, ap, List, [], ◌∷◌, ◌++◌, arith, length, length-append, Option, none,
  some, inl, inr, All, All-append, Bool-cases, ltb, drop, map, All-drop, ==_iff,
}
use reroll_sync.Sql.{find, delete}
use reroll_sync.Sql.Laws.{All-delete, find-All, length-delete_found}
use reroll_sync.Archive.Format.{Bytes, BlobLocation, Footer, Codec}
use reroll_sync.Archive.Reader.{
  Read, got, failed, Files, load_footer, load_block, load_block_with, checked, and_then, read_plain,
}
use reroll_sync.Archive.Reader.Cache.{
  Block, SegmentReader, open_reader, footer_key, block_key, keep_footer, keep_block, footer_missing,
  footer_for, block_missing, block_bytes, read, read_all,
}

length-drop_one : (xs : List Block) (x : Block) → length (drop 1 (xs ++ x ∷ [])) ≡ length xs
length-drop_one [] x = refl
length-drop_one (y ∷ ys) x = omega (arith, length-append ys (x ∷ []))

module _ (c : Codec) (files : Files) where
  -- What a cache holds is what the file gives, and there are no more blocks than the cache's size.
  pub record IsFaithful (r : SegmentReader) : Type 0 where
    pub footers : All (λ p. load_footer c files p.0 ≡ got p.1) r.footers
    pub blocks : All (λ b. load_block c files b.segment_id b.block_no ≡ got b.content) r.blocks
    pub bounded : length r.blocks ≤ r.block_cache_size

  module _ (id : ℕ) (r : SegmentReader) (v : IsFaithful r) where
    abbrev FooterIs : Read Footer × SegmentReader → Type 0
    FooterIs res = (res.0 ≡ load_footer c files id) × IsFaithful res.1 × (res.1.blocks ≡ r.blocks)

    keep_footer_lem : (x : Read Footer) → load_footer c files id ≡ x → FooterIs (keep_footer id x r)
    keep_footer_lem (got footer) e =
        (sym e, record { footers = (e, v.footers); blocks = v.blocks; bounded = v.bounded }, refl)
    keep_footer_lem (failed x) e = (sym e, v, refl)

    footer_missing_lem :
        (o : Option (ℕ × Footer))
        → find (footer_key id) r.footers ≡ o
        → FooterIs (footer_missing c files id o r)
    footer_missing_lem none e = keep_footer_lem (load_footer c files id) refl
    footer_missing_lem (some p) e =
        let (holds, key) = find-All _ (footer_key id) r.footers p e v.footers in
        let same : p.0 ≡ id = (==_iff p.0 id).0 key in (sym (rw⁻¹ same holds), v, refl)

  pub footer_for_lem :
      (id : ℕ) (r : SegmentReader)
      → IsFaithful r
      → ((footer_for c files id r).0 ≡ load_footer c files id)
        × IsFaithful (footer_for c files id r).1
        × ((footer_for c files id r).1.blocks ≡ r.blocks)
  unfolding footer_for
  footer_for_lem id r v = footer_missing_lem id r v (find (footer_key id) r.footers) refl

  module _ (id n : ℕ) where
    abbrev BlockIs : Read Bytes × SegmentReader → Type 0
    BlockIs res = (res.0 ≡ load_block c files id n) × IsFaithful res.1

    keep_block_lem :
        (x : Read Bytes) (r : SegmentReader)
        → IsFaithful r
        → x ≡ load_block c files id n
        → BlockIs (keep_block id n x r)
    keep_block_lem (failed e) r v same = (same, v)
    keep_block_lem (got content) r v same =
        let new : Block = record { segment_id = id; block_no = n; content = content } in
        let all = All-append _ r.blocks (new ∷ []) v.blocks (sym same, tt) in
        let size = length-append r.blocks (new ∷ []) in
        (
          same,
          elim (Bool-cases (ltb r.block_cache_size (length (r.blocks ++ new ∷ [])))) [
            | inl over ↦ rw over (record {
              footers = v.footers;
              blocks = All-drop _ 1 (r.blocks ++ new ∷ []) all;
              bounded = omega (arith, length-drop_one r.blocks new, v.bounded);
            })
            | inr fits ↦
                rw fits (record { footers = v.footers; blocks = all; bounded = ground arith })
          ],
        )

    block_missing_lem :
        (o : Option Block) (r : SegmentReader)
        → IsFaithful r
        → find (block_key id n) r.blocks ≡ o
        → BlockIs (block_missing c files id n o r)
    unfolding load_block
    block_missing_lem none r v e =
        let (same, v', _) = footer_for_lem id r v in
        keep_block_lem (and_then (footer_for c files id r).0 (load_block_with c files id n))
          (footer_for c files id r).1 v' (ap (λ x. and_then x (load_block_with c files id n)) same)
    block_missing_lem (some b) r v e =
        let (holds, key) = find-All _ (block_key id n) r.blocks b e v.blocks in
        let same_id : b.segment_id ≡ id = ground arith in
        let same_no : b.block_no ≡ n = ground arith in
        (
          sym (rw (← same_id, ← same_no) holds),
          record {
            footers = v.footers;
            blocks =
                All-append _ (delete (block_key id n) r.blocks) (b ∷ [])
                  (All-delete _ (block_key id n) r.blocks v.blocks) (holds, tt);
            bounded = omega (
              arith,
              length-append (delete (block_key id n) r.blocks) (b ∷ []),
              length-delete_found (block_key id n) r.blocks b e,
              v.bounded,
            );
          },
        )

  block_bytes_lem :
      (id n : ℕ) (r : SegmentReader)
      → IsFaithful r
      → ((block_bytes c files id n r).0 ≡ load_block c files id n)
        × IsFaithful (block_bytes c files id n r).1
  unfolding block_bytes
  block_bytes_lem id n r v = block_missing_lem id n (find (block_key id n) r.blocks) r v refl

  pub read_lem :
      (l : BlobLocation) (r : SegmentReader)
      → IsFaithful r
      → ((read c files l r).0 ≡ read_plain c files l) × IsFaithful (read c files l r).1
  unfolding read read_plain
  read_lem l r v =
      let (same, v') = block_bytes_lem l.segment_id l.block_no r v in
      (ap (λ x. and_then x (checked c l)) same, v')

  pub read_all_lem :
      (ls : List BlobLocation) (r : SegmentReader)
      → IsFaithful r
      → ((read_all c files ls r).0 ≡ map (read_plain c files) ls)
        × IsFaithful (read_all c files ls r).1
  unfolding read_all
  read_all_lem [] r v = (refl, v)
  read_all_lem (l ∷ ls) r v =
      let (first, v') = read_lem l r v in
      let (others, v'') = read_all_lem ls (read c files l r).1 v' in
      (
        ap (λ x. x ∷ (read_all c files ls (read c files l r).1).0) first
            ∙ ap (λ xs. read_plain c files l ∷ xs) others,
        v'',
      )

-- Any sequence of reads by a new reader, whatever the size of its cache: each gives what a reader
-- without caches gives, errors included, the cache never has more blocks than its size, and what
-- it holds is what the files hold.
pub read_all-refines :
    (c : Codec) (files : Files) (ls : List BlobLocation) (size : ℕ)
    → ((read_all c files ls (open_reader size)).0 ≡ map (read_plain c files) ls)
      × IsFaithful c files (read_all c files ls (open_reader size)).1
unfolding open_reader
read_all-refines c files ls size =
    read_all_lem c files ls (open_reader size)
      (record { footers = tt; blocks = tt; bounded = omega arith })
