-- ===== src/Archive/Store/Laws.antt =====
-- Numbers of segments, and what `ArchiveStore.add` leaves in `blobs`.
use reroll_sync.Base.{
  ℕ, ◌<◌, ◌≡◌, ◌∙◌, refl, sym, ap, List, [], ◌∷◌, ◌++◌, arith, Option, none, some, inl, inr, All,
  Option-cases, Bool-cases, ltb, append-nil, String, text_eq_refl, text_eq_iff, All-imp,
}
use reroll_sync.Sql.{find, select}
use reroll_sync.Sql.Laws.{find-snoc, find-All}
use reroll_sync.Db.{Db}
use reroll_sync.Archive.Format.{Bytes, BlobLocation, Codec}
use reroll_sync.Archive.Segment.{SegmentWriter, open_segment, add, add_found, is_at}
use reroll_sync.Archive.Store.{
  SegmentFile, seen_files, Store, after_all, file_ids, segment_ids, next_segment_id, has_sha,
  to_row, location_for, insert_blob, open_writer, current_writer, writer_or_open, add_blob, indexed,
}

after_all_gt : (is : List ℕ) → All (λ i. i < after_all is) is
after_all_gt [] = tt
after_all_gt (i ∷ is) = (omega arith, All-imp _ _ (λ j h. omega arith) is (after_all_gt is))

-- Files that a listing does not see have a number of a million or more.
seen_covers :
    (n : ℕ) (fs : List SegmentFile) (is : List ℕ)
    → All (λ i. i < n) (file_ids (seen_files fs) ++ is)
    → All (λ f. f.id < 1000000 → f.id < n) fs × All (λ i. i < n) is
unfolding select
seen_covers n [] is h = (tt, h)
seen_covers n (f ∷ fs) is h = elim (Bool-cases (ltb f.id 1000000)) [
  | inl e ↦
      let h' : All (λ i. i < n) (f.id ∷ (file_ids (seen_files fs) ++ is)) = rw e at h in
      let (others, rest) = seen_covers n fs is h'.1 in (((λ small. h'.0), others), rest)
  | inr e ↦
      let h' : All (λ i. i < n) (file_ids (seen_files fs) ++ is) = rw e at h in
      let (others, rest) = seen_covers n fs is h' in
      (((λ small. absurd (ground arith)), others), rest)
]

-- The segment that `open_writer` takes has a number above that of every row and of every file,
-- open or sealed, whose number is below a million.
pub open_writer-fresh :
    (now : ℕ) (db : Db) (s : Store)
    → let id = (open_writer now (db, s)).0.segment_id in
      All (λ i. i < id) (segment_ids db.segments)
      × All (λ (f : SegmentFile). f.id < 1000000 → f.id < id) s.open_files
      × All (λ (f : SegmentFile). f.id < 1000000 → f.id < id) s.sealed_files
unfolding open_writer next_segment_id open_segment
open_writer-fresh now db s =
    let sealed = file_ids (seen_files s.sealed_files) in
    let n = next_segment_id db s in
    let files : All (λ i. i < n) (file_ids (seen_files s.open_files) ++ sealed) =
      All-imp _ _ (λ i h. omega arith) _
        (after_all_gt (file_ids (seen_files s.open_files) ++ sealed)) in
    let (opened, rest) = seen_covers n s.open_files sealed files in
    (
      All-imp _ _ (λ i h. omega arith) (segment_ids db.segments)
          (after_all_gt (segment_ids db.segments)),
      opened,
      (seen_covers n s.sealed_files [] (rw (append-nil sealed) rest)).0,
    )

abbrev pub first_of : Option BlobLocation → BlobLocation → BlobLocation
first_of none l = l
first_of (some old) l = old

pub location_for_blobs :
    (sha256 : String) (d d' : Db)
    → d.blobs ≡ d'.blobs
    → location_for sha256 d ≡ location_for sha256 d'
unfolding location_for
location_for_blobs sha256 d d' e = rw e

location_for_inserted :
    (l : BlobLocation) (db : Db)
    → location_for l.sha256 (record db { blobs = insert_blob (to_row l) db.blobs })
      ≡ some (first_of (location_for l.sha256 db) l)
unfolding insert_blob location_for
location_for_inserted l db = elim (Option-cases (find (has_sha l.sha256) db.blobs)) [
  | inl e ↦ rw (e, find-snoc (has_sha l.sha256) db.blobs (to_row l) e (text_eq_refl l.sha256))
  | inr (r, e) ↦ rw e (rw e)
]

All-unit : (ls : List BlobLocation) → All (λ y. Unit {0}) ls
All-unit [] = tt
All-unit (l ∷ ls) = (tt, All-unit ls)

pub blobs-writer_or_open :
    (now : ℕ) (o : Option SegmentWriter) (db : Db) (s : Store)
    → (writer_or_open now o (db, s)).1.0.blobs ≡ db.blobs
unfolding open_writer
blobs-writer_or_open now none db s = refl
blobs-writer_or_open now (some w) db s = refl

module _ (c : Codec) where
  add_found_sha :
      (bytes : Bytes) (w : SegmentWriter) (o : Option BlobLocation)
      → ((x : BlobLocation) → o ≡ some x → x.sha256 ≡ c.sha256 bytes)
      → (add_found c bytes o w).0.sha256 ≡ c.sha256 bytes
  add_found_sha bytes w none found = refl
  add_found_sha bytes w (some x) found = found x refl

  add_is :
      (bytes : Bytes) (w : SegmentWriter) (l : BlobLocation)
      → (add c bytes w).0 ≡ some l
      → (add_found c bytes (find (is_at (c.sha256 bytes)) w.locations) w).0 ≡ l
  unfolding add
  add_is bytes w l e = ground arith

  -- A location that `add` returns has the digest of the data.
  pub add_sha :
      (bytes : Bytes) (w : SegmentWriter) (l : BlobLocation)
      → (add c bytes w).0 ≡ some l
      → l.sha256 ≡ c.sha256 bytes
  add_sha bytes w l e =
      ap (λ (x : BlobLocation). x.sha256) (sym (add_is bytes w l e))
      ∙ add_found_sha bytes w (find (is_at (c.sha256 bytes)) w.locations) (λ x f.
        (text_eq_iff x.sha256 (c.sha256 bytes)).0
          (find-All (λ y. Unit {0}) (is_at (c.sha256 bytes)) w.locations x f
            (All-unit w.locations)).1)

  indexed_lem :
      (p : Option BlobLocation × SegmentWriter) (db : Db) (s : Store) (l : BlobLocation)
      → (indexed c p (db, s)).0 ≡ some l
      → (p.0 ≡ some l)
        × ((indexed c p (db, s)).1.0 ≡ record db { blobs = insert_blob (to_row l) db.blobs })
  indexed_lem (none, w) db s l e = absurd (cc)
  indexed_lem (some x, w) db s l e =
      let same : x ≡ l = ground arith in
      (e, ap (λ (y : BlobLocation). record db { blobs = insert_blob (to_row y) db.blobs }) same)

-- After `add` returned a location, the digest of the data is found in `blobs`: at the place that
-- it had before, if it had one, and otherwise at the location that was returned.
pub location_for-add_blob :
    (c : Codec) (bytes : Bytes) (now : ℕ) (db : Db) (s : Store) (l : BlobLocation)
    → (add_blob c bytes now (db, s)).0 ≡ some l
    → location_for (c.sha256 bytes) (add_blob c bytes now (db, s)).1.0
      ≡ some (first_of (location_for (c.sha256 bytes) db) l)
unfolding add_blob current_writer
location_for-add_blob c bytes now db s l e =
    let (w, ds) = writer_or_open now s.current (db, s) in
    let (returned, tables) = indexed_lem c (add c bytes w) ds.0 ds.1 l e in
    let sha : l.sha256 ≡ c.sha256 bytes = add_sha c bytes w l returned in
    let kept : ds.0.blobs ≡ db.blobs = blobs-writer_or_open now s.current db s in
    rw (tables, ← sha)
      (location_for_inserted l ds.0
        ∙ ap (λ o. some (first_of o l)) (location_for_blobs l.sha256 ds.0 db kept))

-- The location that `add` returns has the digest of the data.
pub add_blob_sha :
    (c : Codec) (bytes : Bytes) (now : ℕ) (db : Db) (s : Store) (l : BlobLocation)
    → (add_blob c bytes now (db, s)).0 ≡ some l
    → l.sha256 ≡ c.sha256 bytes
unfolding add_blob current_writer
add_blob_sha c bytes now db s l e =
    let (w, ds) = writer_or_open now s.current (db, s) in
    add_sha c bytes w l (indexed_lem c (add c bytes w) ds.0 ds.1 l e).0

wheels-writer_or_open :
    (now : ℕ) (o : Option SegmentWriter) (db : Db) (s : Store)
    → (writer_or_open now o (db, s)).1.0.wheels ≡ db.wheels
unfolding open_writer
wheels-writer_or_open now none db s = refl
wheels-writer_or_open now (some w) db s = refl

pub wheels-current_writer :
    (now : ℕ) (db : Db) (s : Store) → (current_writer now (db, s)).1.0.wheels ≡ db.wheels
unfolding current_writer
wheels-current_writer now db s = wheels-writer_or_open now s.current db s

wheels-indexed :
    (c : Codec) (p : Option BlobLocation × SegmentWriter) (db : Db) (s : Store)
    → (indexed c p (db, s)).1.0.wheels ≡ db.wheels
wheels-indexed c (none, w) db s = refl
wheels-indexed c (some l, w) db s = refl

pub wheels-add_blob :
    (c : Codec) (bytes : Bytes) (now : ℕ) (db : Db) (s : Store)
    → (add_blob c bytes now (db, s)).1.0.wheels ≡ db.wheels
unfolding add_blob current_writer
wheels-add_blob c bytes now db s =
    let (w, ds) = writer_or_open now s.current (db, s) in
    wheels-indexed c (add c bytes w) ds.0 ds.1 ∙ wheels-writer_or_open now s.current db s
