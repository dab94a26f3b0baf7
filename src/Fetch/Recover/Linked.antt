-- ===== src/Fetch/Recover/Linked.antt =====
-- What a recovery keeps: no wheel, other than a deleted one, with a blob that is not in `blobs`.
use reroll_sync.Base.{
  ℕ, ◌+◌, ◌≡◌, ◌∙◌, refl, Bool, true, false, ◌||◌, List, [], ◌∷◌, arith, length, Option, none, some,
  inl, inr, All, Option-cases, Bool-cases, String, text_eq, text_eq_iff, map, any, Member, All-imp,
  All-and,
}
use reroll_sync.Schema.{state_eq, deleted}
use reroll_sync.Sql.{select, delete}
use reroll_sync.Sql.Laws.{All-update, Member-select}
use reroll_sync.Db.{Db, Conn, Wheel, BlobRow}
use reroll_sync.Writer.{submit_and_wait}
use reroll_sync.Dispatcher.Claim.{contains}
use reroll_sync.Archive.Store.{has_sha, blob_rows_for_segment}
use reroll_sync.Fetch.Recover.{
  one_of, is_lost, reset_wheel, recover_chunk_op, recover_chunks, chunks_of,
  recover_unsealed_segment,
}

-- A wheel that is not deleted and has a blob has it in the table.
abbrev pub blob_found : List BlobRow → Option String → Bool
blob_found blobs none = true
blob_found blobs (some s) = any (has_sha s) blobs

abbrev pub is_linked : List BlobRow → Wheel → Bool
is_linked blobs w = state_eq w.state deleted || blob_found blobs w.blob_sha256

abbrev pub IsLinked : Db → Type 0
IsLinked db = All (λ w. is_linked db.blobs w ≡ true) db.wheels

found_after :
    (chunk : List String) (s : String) (blobs : List BlobRow)
    → one_of chunk s ≡ false
    → any (has_sha s) (delete (λ b. one_of chunk b.sha256) blobs) ≡ any (has_sha s) blobs
unfolding delete
found_after chunk s [] h = refl
found_after chunk s (b ∷ bs) h = elim (Bool-cases (text_eq b.sha256 s)) [
  | inl same ↦
      let eq : b.sha256 ≡ s = (text_eq_iff b.sha256 s).0 same in
      let kept : one_of chunk b.sha256 ≡ false = rw eq h in rw (kept, same)
  | inr other ↦ ground (arith, found_after chunk s bs h)
]

All-Member : {A : Type 0} (xs : List A) → All (λ x. Member x xs) xs
All-Member [] = tt
All-Member (x ∷ xs) = (inl refl, All-imp _ _ (λ y h. inr h) xs (All-Member xs))

contains-Member :
    (w : Wheel) (ws : List Wheel)
    → Member w ws
    → contains w.id (map (λ (v : Wheel). v.id) ws) ≡ true
contains-Member w [] m = absurd m
contains-Member w (v ∷ vs) (inl e) = rw e (ground arith)
contains-Member w (v ∷ vs) (inr m) = ground (arith, contains-Member w vs m)

-- a wheel that the operation leaves alone has none of the blobs that it removes
left_linked :
    (chunk : List String) (blobs : List BlobRow) (w : Wheel)
    → is_lost chunk w ≡ false
    → is_linked blobs w ≡ true
    → is_linked (delete (λ b. one_of chunk b.sha256) blobs) w ≡ true
left_linked chunk blobs w h k = elim (Option-cases w.blob_sha256) [
  | inl e ↦ rw e (ground arith)
  | inr (s, e) ↦ elim (Bool-cases (state_eq w.state deleted)) [
    | inl gone ↦ rw gone
    | inr live ↦
        let kept : one_of chunk s ≡ false = ground arith in
        let there : any (has_sha s) blobs ≡ true = ground arith in
        rw (live, e) (found_after chunk s blobs kept ∙ there)
  ]
]

pub recover_chunk_op-IsLinked :
    (chunk : List String) (c : Conn) → IsLinked c.db → IsLinked (recover_chunk_op chunk c).1.db
unfolding recover_chunk_op
recover_chunk_op-IsLinked chunk c v =
    let ids = map (λ (w : Wheel). w.id) (select (is_lost chunk) c.db.wheels) in
    All-update (λ w. (is_linked c.db.blobs w ≡ true) × Member w c.db.wheels)
      (λ w. is_linked (delete (λ b. one_of chunk b.sha256) c.db.blobs) w ≡ true)
      (λ w. contains w.id ids) reset_wheel (λ w e h. refl)
      (λ w e h. elim (Bool-cases (is_lost chunk w)) [
        | inl lost ↦ absurd (
            let found =
              contains-Member w (select (is_lost chunk) c.db.wheels)
                (Member-select (is_lost chunk) w c.db.wheels lost h.1) in
            cc)
        | inr kept ↦ left_linked chunk c.db.blobs w kept h.0
      ])
      c.db.wheels (All-and _ _ c.db.wheels v (All-Member c.db.wheels))

chunks-IsLinked :
    (chunks : List (List String)) (total : ℕ) (c : Conn)
    → IsLinked c.db
    → IsLinked (recover_chunks chunks total c).1.db
unfolding recover_chunks submit_and_wait
chunks-IsLinked [] total c v = v
chunks-IsLinked (chunk ∷ chunks) total c v =
    chunks-IsLinked chunks
      (total + length (map (λ (w : Wheel). w.id) (select (is_lost chunk) c.db.wheels)))
      (recover_chunk_op chunk c).1 (recover_chunk_op-IsLinked chunk c v)

-- The recovery of a segment, for any chunk size: it keeps every wheel that is not deleted linked,
-- that is without a blob or with one that has a row in `blobs`.
pub recover_unsealed_segment-IsLinked :
    (text_lt : String → String → Bool) (id size : ℕ) (c : Conn)
    → IsLinked c.db
    → IsLinked (recover_unsealed_segment text_lt id size c).1.db
unfolding recover_unsealed_segment
recover_unsealed_segment-IsLinked text_lt id size c v =
    let shas = map (λ (b : BlobRow). b.sha256) (blob_rows_for_segment text_lt id c.db) in
    chunks-IsLinked (chunks_of (length shas) size shas) 0 c v
