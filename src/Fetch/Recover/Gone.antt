-- ===== src/Fetch/Recover/Gone.antt =====
-- What a recovery leaves of the rows of its segment.
use reroll_sync.Base.{
  ℕ, zero, suc, ◌≤◌, ◌≡◌, ◌∙◌, refl, ap, Bool, true, false, ◌||◌, List, [], ◌∷◌, arith, length, inl,
  inr, Bool-cases, ◌==◌, String, text_eq, text_eq_iff, map, any, take, drop, none,
}
use reroll_sync.Sql.{select, delete, find}
use reroll_sync.Sql.Laws.{any-order_by, find-delete_ne}
use reroll_sync.Db.{Conn, BlobRow}
use reroll_sync.Archive.Store.{has_sha, blob_rows_for_segment}
use reroll_sync.Fetch.Recover.{
  one_of, recover_chunk_op, recover_chunks, chunks_of, recover_unsealed_segment,
}

delete_gone :
    (chunk : List String) (s : String) (blobs : List BlobRow)
    → one_of chunk s ≡ true
    → any (has_sha s) (delete (λ b. one_of chunk b.sha256) blobs) ≡ false
unfolding delete
delete_gone chunk s [] h = refl
delete_gone chunk s (b ∷ bs) h = elim (Bool-cases (text_eq b.sha256 s)) [
  | inl same ↦
      let eq : b.sha256 ≡ s = (text_eq_iff b.sha256 s).0 same in
      let lost : one_of chunk b.sha256 ≡ true = rw eq h in rw lost (delete_gone chunk s bs h)
  | inr other ↦ ground (arith, delete_gone chunk s bs h)
]

delete_still :
    (p : BlobRow → Bool) (s : String) (blobs : List BlobRow)
    → any (has_sha s) blobs ≡ false
    → any (has_sha s) (delete p blobs) ≡ false
unfolding delete
delete_still p s [] h = refl
delete_still p s (b ∷ bs) h = ground (arith, delete_still p s bs)

abbrev any_chunk : List (List String) → String → Bool
any_chunk [] s = false
any_chunk (chunk ∷ chunks) s = one_of chunk s || any_chunk chunks s

chunks_still :
    (chunks : List (List String)) (total : ℕ) (c : Conn) (s : String)
    → any (has_sha s) c.db.blobs ≡ false
    → any (has_sha s) (recover_chunks chunks total c).1.db.blobs ≡ false
unfolding recover_chunks
chunks_still [] total c s h = h
chunks_still (chunk ∷ chunks) total c s h =
    chunks_still chunks _ (recover_chunk_op chunk c).1 s
      (delete_still (λ b. one_of chunk b.sha256) s c.db.blobs h)

chunks_gone :
    (chunks : List (List String)) (total : ℕ) (c : Conn) (s : String)
    → any_chunk chunks s ≡ true
    → any (has_sha s) (recover_chunks chunks total c).1.db.blobs ≡ false
unfolding recover_chunks
chunks_gone [] total c s h = absurd (cc)
chunks_gone (chunk ∷ chunks) total c s h = elim (Bool-cases (one_of chunk s)) [
  | inl e ↦ chunks_still chunks _ (recover_chunk_op chunk c).1 s (delete_gone chunk s c.db.blobs e)
  | inr e ↦ chunks_gone chunks _ (recover_chunk_op chunk c).1 s (rw e at h)
]

one_of_split :
    (n : ℕ) (xs : List String) (s : String)
    → one_of xs s ≡ (one_of (take n xs) s || one_of (drop n xs) s)
one_of_split zero xs s = refl
one_of_split (suc n) [] s = refl
one_of_split (suc n) (x ∷ xs) s = ground (arith, one_of_split n xs s)

length-drop_le : (n : ℕ) (xs : List String) → length (drop n xs) ≤ length xs
length-drop_le zero xs = omega arith
length-drop_le (suc n) [] = omega arith
length-drop_le (suc n) (x ∷ xs) = omega (arith, length-drop_le n xs)

chunks_cover :
    (fuel size : ℕ) (xs : List String) (s : String)
    → length xs ≤ fuel
    → one_of xs s ≡ true
    → any_chunk (chunks_of fuel (suc size) xs) s ≡ true
chunks_cover zero size [] s h e = absurd (cc)
chunks_cover zero size (x ∷ xs) s h e = absurd (omega arith)
chunks_cover (suc fuel) size [] s h e = absurd (cc)
chunks_cover (suc fuel) size (x ∷ xs) s h e =
    elim (Bool-cases (one_of (take (suc size) (x ∷ xs)) s)) [
      | inl here ↦ rw here
      | inr later ↦ rw later (
          chunks_cover fuel size (drop size xs) s (omega (arith, length-drop_le size xs)) (
            let split : one_of (x ∷ xs) s
                ≡ (one_of (take (suc size) (x ∷ xs)) s || one_of (drop size xs) s) =
              one_of_split (suc size) (x ∷ xs) s in
            ground arith))
    ]

one_of-map :
    (s : String) (rows : List BlobRow)
    → one_of (map (λ (b : BlobRow). b.sha256) rows) s ≡ any (has_sha s) rows
one_of-map s [] = refl
one_of-map s (b ∷ bs) = ap (λ x. text_eq b.sha256 s || x) (one_of-map s bs)

find-none : (p : BlobRow → Bool) (rows : List BlobRow) → any p rows ≡ false → find p rows ≡ none
unfolding find
find-none p [] h = refl
find-none p (b ∷ bs) h = ground (arith, find-none p bs)

find_kept :
    (chunk : List String) (s : String) (blobs : List BlobRow)
    → one_of chunk s ≡ false
    → find (has_sha s) (delete (λ b. one_of chunk b.sha256) blobs) ≡ find (has_sha s) blobs
find_kept chunk s blobs h =
    find-delete_ne (has_sha s) (λ b. one_of chunk b.sha256)
      (λ b same. rw ((text_eq_iff b.sha256 s).0 same) h) blobs

chunks_kept :
    (chunks : List (List String)) (total : ℕ) (c : Conn) (s : String)
    → any_chunk chunks s ≡ false
    → find (has_sha s) (recover_chunks chunks total c).1.db.blobs ≡ find (has_sha s) c.db.blobs
unfolding recover_chunks
chunks_kept [] total c s h = refl
chunks_kept (chunk ∷ chunks) total c s h =
    chunks_kept chunks _ (recover_chunk_op chunk c).1 s (ground arith)
    ∙ find_kept chunk s c.db.blobs (ground arith)

chunks_within :
    (fuel size : ℕ) (xs : List String) (s : String)
    → one_of xs s ≡ false
    → any_chunk (chunks_of fuel (suc size) xs) s ≡ false
chunks_within zero size xs s e = refl
chunks_within (suc fuel) size [] s e = refl
chunks_within (suc fuel) size (x ∷ xs) s e =
    let split = one_of_split (suc size) (x ∷ xs) s in
    let later = chunks_within fuel size (drop size xs) s (ground arith) in
    let here : one_of (take (suc size) (x ∷ xs)) s ≡ false = ground arith in rw (here, later) refl

-- The recovery of a segment with chunks of one digest or more: of a digest that a row of the segment
-- has, `blobs` keeps no row; of any other digest it keeps the row that it had.
pub recover_unsealed_segment-gone :
    (text_lt : String → String → Bool) (id size : ℕ) (c : Conn) (s : String)
    → let blobs = (recover_unsealed_segment text_lt id (suc size) c).1.db.blobs in
      let here = any (has_sha s) (select (λ r. r.segment_id == id) c.db.blobs) in
      (here ≡ true → find (has_sha s) blobs ≡ none)
      × (here ≡ false → find (has_sha s) blobs ≡ find (has_sha s) c.db.blobs)
unfolding recover_unsealed_segment blob_rows_for_segment
recover_unsealed_segment-gone text_lt id size c s =
    let rows = select (λ r. r.segment_id == id) c.db.blobs in
    let sorted = blob_rows_for_segment text_lt id c.db in
    let shas = map (λ (r : BlobRow). r.sha256) sorted in
    let listed : one_of shas s ≡ any (has_sha s) rows =
      one_of-map s sorted ∙ any-order_by (λ r t. text_lt r.sha256 t.sha256) (has_sha s) rows in
    (
      λ here. find-none _ _ (
          chunks_gone (chunks_of (length shas) (suc size) shas) 0 c s
            (chunks_cover (length shas) size shas s (omega arith) (listed ∙ here))),
      λ other.
          chunks_kept (chunks_of (length shas) (suc size) shas) 0 c s
            (chunks_within (length shas) size shas s (listed ∙ other)),
    )
