-- ===== src/Archive/Segment/Adds.antt =====
-- `SegmentWriter.add`, once and many times, and what its callers hold.
use reroll_sync.Base.{
  ℕ, ◌+◌, ◌≡◌, ◌∙◌, refl, ap, false, ◌&&◌, List, [], ◌∷◌, ◌++◌, arith, length, Option, none, some,
  inl, inr, All, Option-cases, Bool-cases, ltb, String, text_eq, text_eq_refl, text_eq_iff, ltb→lt,
}
use reroll_sync.Sql.{find}
use reroll_sync.Archive.Format.{Bytes, BlobLocation, Codec}
use reroll_sync.Archive.Segment.{
  SegmentWriter, flush_block, location_of, append_record, make_room, is_at, add, flush_pending,
}
use reroll_sync.Archive.Segment.Layout.{IsLaid, flush_block-IsLaid, append_record-IsLaid}

module _ (c : Codec) where
  pub make_room-IsLaid :
      {id : ℕ} {chunks : List Bytes} {w : SegmentWriter}
      → (bytes : Bytes) → IsLaid c id chunks w
      → (more : List Bytes) × IsLaid c id more (make_room c bytes w)
  unfolding make_room
  make_room-IsLaid {id} {chunks} {w} bytes v =
      elim (Bool-cases
        (ltb 0 w.pending_records && ltb w.block_target_bytes (w.block_raw_size + length bytes))) [
          | inl e ↦ rw e (chunks ++ w.block_buffer ∷ [], flush_block-IsLaid c v (ground arith))
          | inr e ↦ rw e (chunks, v)
        ]

  pub flush_pending-IsLaid :
      {id : ℕ} {chunks : List Bytes} {w : SegmentWriter}
      → IsLaid c id chunks w
      → (more : List Bytes) × IsLaid c id more (flush_pending c w)
        × ((flush_pending c w).pending_records ≡ 0)
        × ((flush_pending c w).locations ≡ w.locations)
  unfolding flush_pending flush_block
  flush_pending-IsLaid {id} {chunks} {w} v = elim (Bool-cases (ltb 0 w.pending_records)) [
    | inl e ↦
        rw e (chunks ++ w.block_buffer ∷ [], flush_block-IsLaid c v (ltb→lt _ _ e), refl, refl)
    | inr e ↦ rw e (chunks, v, ground arith, refl)
  ]

  make_room_locations :
      (bytes : Bytes) (w : SegmentWriter) → (make_room c bytes w).locations ≡ w.locations
  unfolding make_room flush_block
  make_room_locations bytes w = ground arith

  add_unsealed :
      (bytes : Bytes) (w : SegmentWriter)
      → w.is_sealed ≡ false
      → find (is_at (c.sha256 bytes)) w.locations ≡ none
      → add c bytes w ≡ (
        some (location_of c bytes (make_room c bytes w)),
        append_record c bytes (make_room c bytes w),
      )
  unfolding add
  add_unsealed bytes w u e = simp (u, e)

  add_again :
      (bytes : Bytes) (w : SegmentWriter) (l : BlobLocation)
      → w.is_sealed ≡ false
      → find (is_at (c.sha256 bytes)) w.locations ≡ some l
      → add c bytes w ≡ (some l, w)
  unfolding add
  add_again bytes w l u e = simp (u, e)

  append_record_locations :
      (bytes : Bytes) (w : SegmentWriter)
      → (append_record c bytes w).locations ≡ location_of c bytes w ∷ w.locations
  unfolding append_record
  append_record_locations bytes w = refl

  -- The writer's table of locations has `l` for the bytes, and `l` was returned for them.
  abbrev pub IsIssued : List BlobLocation → Bytes × Option BlobLocation → Type 0
  IsIssued locations p =
      (l : BlobLocation) × (p.1 ≡ some l) × (find (is_at (c.sha256 p.0)) locations ≡ some l)

  abbrev Keeps : List BlobLocation → List BlobLocation → Type 0
  Keeps before after =
      (s : String) (l : BlobLocation)
      → find (is_at s) before ≡ some l
      → find (is_at s) after ≡ some l

  IsIssued-Keeps :
      (before after : List BlobLocation)
      → Keeps before after
      → (p : Bytes × Option BlobLocation) → IsIssued before p
      → IsIssued after p
  IsIssued-Keeps before after k p h = (h.0, h.1, k (c.sha256 p.0) h.0 h.2)

  find_new :
      (new : BlobLocation) (ls : List BlobLocation) → find (is_at new.sha256) (new ∷ ls) ≡ some new
  unfolding find
  find_new new ls = rw (text_eq_refl new.sha256)

  -- a location with a digest that was not there hides no other
  Keeps-new :
      (new : BlobLocation) (ls : List BlobLocation)
      → find (is_at new.sha256) ls ≡ none
      → Keeps ls (new ∷ ls)
  unfolding find
  Keeps-new new ls e s l h = elim (Bool-cases (text_eq new.sha256 s)) [
    | inl same ↦
        let eq : new.sha256 ≡ s = (text_eq_iff new.sha256 s).0 same in
        absurd (let clash : find (is_at s) ls ≡ none = rw⁻¹ eq e in cc)
    | inr other ↦ rw other h
  ]

  add_step :
      {id : ℕ} {chunks : List Bytes} {w : SegmentWriter}
      → (bytes : Bytes) → IsLaid c id chunks w
      → (more : List Bytes) × IsLaid c id more (add c bytes w).1
        × IsIssued (add c bytes w).1.locations (bytes, (add c bytes w).0)
        × Keeps w.locations (add c bytes w).1.locations
  add_step {id} {chunks} {w} bytes v =
      elim (Option-cases (find (is_at (c.sha256 bytes)) w.locations)) [
        | inl e ↦
            let (more, v') = make_room-IsLaid bytes v in
            let new = location_of c bytes (make_room c bytes w) in
            let added : (append_record c bytes (make_room c bytes w)).locations
                ≡ new ∷ w.locations =
              append_record_locations bytes (make_room c bytes w)
              ∙ ap (λ ls. new ∷ ls) (make_room_locations bytes w) in
            rw (add_unsealed bytes w v.unsealed e) (
              more,
              append_record-IsLaid c v' bytes,
              rw added (new, refl, find_new new w.locations),
              rw added (Keeps-new new w.locations e),
            )
        | inr (l, e) ↦ rw (add_again bytes w l v.unsealed e) (chunks, v, (l, refl, e), λ s l' h. h)
      ]

  -- A client that adds one record after the other, and what it holds then.
  unfoldable pub add_all :
      List Bytes → SegmentWriter → List (Bytes × Option BlobLocation) × SegmentWriter
  add_all [] w = ([], w)
  add_all (d ∷ ds) w =
      let (o, w') = add c d w in let (held, w'') = add_all ds w' in ((d, o) ∷ held, w'')

  pub add_all-IsLaid :
      (id : ℕ) (ds : List Bytes) (chunks : List Bytes) (w : SegmentWriter)
      → IsLaid c id chunks w
      → (more : List Bytes) × IsLaid c id more (add_all ds w).1
        × All (IsIssued (add_all ds w).1.locations) (add_all ds w).0
        × Keeps w.locations (add_all ds w).1.locations
  unfolding add_all
  add_all-IsLaid id [] chunks w v = (chunks, v, tt, λ s l h. h)
  add_all-IsLaid id (d ∷ ds) chunks w v =
      let (more, v', issued, keeps) = add_step d v in
      let (more', v'', all, keeps') = add_all-IsLaid id ds more (add c d w).1 v' in
      (
        more',
        v'',
        (IsIssued-Keeps _ _ keeps' (d, (add c d w).0) issued, all),
        λ s l h. keeps' s l (keeps s l h),
      )
