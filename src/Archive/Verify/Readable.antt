-- ===== src/Archive/Verify/Readable.antt =====
-- A segment that verifies without problems: its blobs can be read.
use reroll_sync.Base.{
  ℕ, zero, suc, ◌+◌, ◌<◌, ◌≡◌, ◌∙◌, refl, ap, Bool, true, List, [], ◌∷◌, ◌++◌, arith, length, some,
  inl, inr, get_elem?, All, Bool-cases, ◌==◌, String, text_eq, text_eq_iff, map, Member, Member-All,
  All-parts, All-map, Member-map, All-imp, ◌⊎◌, none, Option-cases, text_eq_refl,
}
use reroll_sync.Sql.{select, order_by}
use reroll_sync.Sql.Laws.{Member-select, Member-order_by, All-ordered_by, All-select}
use reroll_sync.Db.{Db, BlobRow}
use reroll_sync.Archive.Format.{Bytes, BlockEntry, RecordEntry, Footer, Codec, slice}
use reroll_sync.Archive.Reader.{
  Read, got, failed, file_not_found, corrupt_segment, index_error, zstd_error, wrong_shape,
  and_then, Files, load_footer, load_entry, read_plain, load_block, load_block_with, checked,
}
use reroll_sync.Archive.Store.{blob_rows_for_segment, to_location}
use reroll_sync.Archive.Verify.{
  Place, place_eq, Problem, lookup, footer_position, blob_position, check_footer, items, cut,
  append_read, iter_blocks, iter_records, footer_records, check_bytes, compared, verify_segment,
  report,
}
use reroll_sync.Archive.Verify.Sound.{
  append_nil_parts, items-All, lookup-Member, check_footer_clean, check_blobs_clean,
}

and_then_got :
    {A B : Type 0} (r : Read A) (f : A → Read B) (b : B)
    → and_then r f ≡ got b
    → (a : A) × (r ≡ got a) × (f a ≡ got b)
and_then_got (got a) f b e = (a, refl, e)
and_then_got (failed x) f b e = absurd (cc)

module _ (c : Codec) (files : Files) where
  abbrev IsSound : String × Bytes → Type 0
  IsSound d = text_eq (c.sha256 d.1) d.0 ≡ true

  check_bytes_clean : (ds : List (String × Bytes)) → check_bytes c files ds ≡ [] → All IsSound ds
  unfolding check_bytes
  check_bytes_clean [] e = tt
  check_bytes_clean ((s, b) ∷ ds) e = elim (Bool-cases (text_eq (c.sha256 b) s)) [
    | inl same ↦ (same, check_bytes_clean ds (rw same at e))
    | inr other ↦ absurd (ground arith)
  ]

  append_read_got :
      {A : Type 0} (xs : List A) (r : Read (List A)) (zs : List A)
      → append_read xs r ≡ got zs
      → (ys : List A) × (r ≡ got ys) × (xs ++ ys ≡ zs)
  append_read_got xs r zs e =
      let (ys, same, last) = and_then_got r (λ ys. got (xs ++ ys)) zs e in (ys, same, ground arith)

  -- A record of a block that was iterated over has its bytes.
  iter_clean :
      (id n : ℕ) (es : List BlockEntry) (records : List RecordEntry) (datas : List (String × Bytes))
      → iter_blocks c files id n es records ≡ got datas
      → All IsSound datas
      → (k : RecordEntry) (i : ℕ) (e : BlockEntry) → Member k records
      → get_elem? es i ≡ some e
      → k.block_no ≡ n + i
      → (payload : Bytes) × (load_entry c files id e ≡ got payload)
        × IsSound (k.sha256, slice k.offset k.length payload)
  unfolding iter_blocks
  iter_clean id n [] records datas run sound k i e m at no_ = absurd (cc)
  iter_clean id n (e0 ∷ es) records datas run sound k zero e m at same =
      let (payload, loaded, rest) = and_then_got (load_entry c files id e0) _ datas run in
      let (others, _, whole) =
        append_read_got _ (iter_blocks c files id (suc n) es records) datas rest in
      let (first, _) =
        All-parts IsSound (cut payload (select (λ r. r.block_no == n) records)) others
          (rw whole sound) in
      let entry : e0 ≡ e = ground arith in
      (
        payload,
        rw⁻¹ entry loaded,
        All-map IsSound (λ (r : RecordEntry). (r.sha256, slice r.offset r.length payload)) k
            (select (λ r. r.block_no == n) records) first
            (Member-select (λ r. r.block_no == n) k records (ground arith) m),
      )
  iter_clean id n (e0 ∷ es) records datas run sound k (suc i) e m at same =
      let (payload, loaded, rest) = and_then_got (load_entry c files id e0) _ datas run in
      let (others, next, whole) =
        append_read_got _ (iter_blocks c files id (suc n) es records) datas rest in
      let (_, after) =
        All-parts IsSound (cut payload (select (λ r. r.block_no == n) records)) others
          (rw whole sound) in
      iter_clean id (suc n) es records others next after k i e m at (omega arith)

  report_clean : (r : Read (List Problem)) → report c files r ≡ got [] → r ≡ got []
  report_clean (got ps) e = e
  report_clean (failed file_not_found) e = absurd (ground arith)
  report_clean (failed corrupt_segment) e = absurd (ground arith)
  report_clean (failed index_error) e = absurd (cc)
  report_clean (failed zstd_error) e = absurd (cc)
  report_clean (failed wrong_shape) e = absurd (cc)

  -- what a clean report says: the records were iterated over, and the comparison found nothing
  verify_parts :
      (text_lt : String → String → Bool) (id : ℕ) (db : Db) (footer : Footer)
      → load_footer c files id ≡ got footer
      → verify_segment c files text_lt id db ≡ got []
      → (datas : List (String × Bytes)) × (iter_blocks c files id 0 footer.blocks footer.records
          ≡ got datas)
        × (compared c files (blob_rows_for_segment text_lt id db) footer.records datas ≡ [])
  unfolding verify_segment
  verify_parts text_lt id db footer loaded e =
      let clean = report_clean _ e in
      let (records, listed, rest) = and_then_got (footer_records c files id) _ [] clean in
      let (datas, iterated, last) = and_then_got (iter_records c files id) _ [] rest in
      let same : footer.records ≡ records = footer_is records listed in
      (datas, iter_is datas iterated, rw same (got_inj last))
    where
      footer_is :
          (records : List RecordEntry)
          → footer_records c files id ≡ got records
          → footer.records ≡ records
      footer_is records listed = ground (arith, loaded)

      iter_is :
          (datas : List (String × Bytes))
          → iter_records c files id ≡ got datas
          → iter_blocks c files id 0 footer.blocks footer.records ≡ got datas
      iter_is datas e = rw loaded at e

      got_inj : {A : Type 0} {x y : A} → got x ≡ got y → x ≡ y
      got_inj e = cc

place_same : (p r q : Place) → q ≡ r → place_eq q p ≡ true → p ≡ r
place_same p r q e h = ground arith

get_elem?_lt :
    {A : Type 0} (i : ℕ) (xs : List A) → i < length xs → (x : A) × (get_elem? xs i ≡ some x)
get_elem?_lt i [] h = absurd (omega arith)
get_elem?_lt zero (x ∷ xs) h = (x, refl)
get_elem?_lt (suc i) (x ∷ xs) h = get_elem?_lt i xs (omega arith)

-- `sha256` is the primary key of `blobs`: no other row has the digest of `r`.
abbrev pub IsKey : Db → BlobRow → Type 0
IsKey db r = All (λ b. b.sha256 ≡ r.sha256 → b ≡ r) db.blobs

lookup-keyed :
    (sha : String) (p : Place) (rows : List BlobRow)
    → All (λ b. b.sha256 ≡ sha → (blob_position b).1 ≡ p) rows
    → (lookup sha (map blob_position rows) ≡ none) ⊎ (lookup sha (map blob_position rows) ≡ some p)
unfolding lookup
lookup-keyed sha p [] h = inl refl
lookup-keyed sha p (b ∷ bs) h = elim (lookup-keyed sha p bs h.1) [
  | inr e ↦ inr (rw e refl)
  | inl e ↦ elim (Bool-cases (text_eq b.sha256 sha)) [
    | inl same ↦ inr (rw (e, same) (ap some (h.0 ((text_eq_iff b.sha256 sha).0 same))))
    | inr other ↦ inl (rw (e, other) refl)
  ]
]

lookup-listed :
    (r : BlobRow) (rows : List BlobRow)
    → Member r rows
    → ¬ (lookup r.sha256 (map blob_position rows) ≡ none)
unfolding lookup
lookup-listed r [] m e = absurd m
lookup-listed r (b ∷ bs) m e = elim (Option-cases (lookup r.sha256 (map blob_position bs))) [
  | inr (p, later) ↦ absurd (let e' : some p ≡ none = rw later at e in cc)
  | inl gone ↦ elim m [
    | inr n ↦ lookup-listed r bs n gone
    | inl same ↦
        let key : text_eq b.sha256 r.sha256 ≡ true = rw same (text_eq_refl r.sha256) in
        absurd (let e' : some (blob_position b).1 ≡ none = rw (gone, key) at e in cc)
  ]
]

-- The dictionary that the check builds from the rows of `blobs` has the place of the row `r`.
is_indexed :
    (text_lt : String → String → Bool) (id : ℕ) (db : Db) (r : BlobRow)
    → Member r db.blobs
    → r.segment_id ≡ id
    → IsKey db r
    → lookup r.sha256 (map blob_position (blob_rows_for_segment text_lt id db))
      ≡ some (blob_position r).1
unfolding blob_rows_for_segment
is_indexed text_lt id db r m seg key =
    let rows = select (λ b. b.segment_id == id) db.blobs in
    let lt : BlobRow → BlobRow → Bool = λ b t. text_lt b.sha256 t.sha256 in
    elim (lookup-keyed r.sha256 (blob_position r).1 (order_by lt rows) (
      All-imp _ _ (λ b h e. ap (λ x. (blob_position x).1) (h e)) _
        (All-ordered_by lt _ rows (All-select _ _ db.blobs key)))) [
          | inr e ↦ e
          | inl e ↦ absurd (
              lookup-listed r (order_by lt rows)
                (Member-order_by lt r rows (Member-select _ r db.blobs (ground arith) m)) e)
        ]

module _ (c : Codec) (files : Files) (id : ℕ) (footer : Footer)
    (loaded : load_footer c files id ≡ got footer) where
  -- a row whose place a footer record has, in a block that was iterated over, can be read
  read_placed :
      (r : BlobRow) (k : RecordEntry) (e : BlockEntry) (payload : Bytes)
      → r.segment_id ≡ id
      → footer_position k ≡ blob_position r
      → get_elem? footer.blocks k.block_no ≡ some e
      → load_entry c files id e ≡ got payload
      → IsSound c files (k.sha256, slice k.offset k.length payload)
      → (bytes : Bytes) × (read_plain c files (to_location r) ≡ got bytes)
        × (c.sha256 bytes ≡ r.sha256)
  unfolding read_plain load_block load_block_with checked
  read_placed r k e payload seg same entry read sound =
      let block : k.block_no ≡ r.block_no = ap (λ (q : String × Place). q.1.block_no) same in
      let start : k.offset ≡ r.offset = ap (λ (q : String × Place). q.1.offset) same in
      let size : k.length ≡ r.length = ap (λ (q : String × Place). q.1.length) same in
      let name : k.sha256 ≡ r.sha256 = ap (λ (q : String × Place). q.0) same in
      let sound' : text_eq (c.sha256 (slice r.offset r.length payload)) r.sha256 ≡ true =
        rw (← start, ← size, ← name) sound in
      (
        slice r.offset r.length payload,
        rw (seg, loaded, ← block, entry, read, sound'),
        (text_eq_iff (c.sha256 (slice r.offset r.length payload)) r.sha256).0 sound',
      )

  -- A segment that `verify_segment` finds without problems and whose footer names only blocks that
  -- it has: each row of `blobs` of the segment, where no other row has its digest, is read, and the
  -- bytes have that digest.
  pub verify_segment-reads :
      (text_lt : String → String → Bool) (db : Db) (r : BlobRow)
      → verify_segment c files text_lt id db ≡ got []
      → All (λ k. k.block_no < length footer.blocks) footer.records
      → Member r db.blobs
      → r.segment_id ≡ id
      → IsKey db r
      → (bytes : Bytes) × (read_plain c files (to_location r) ≡ got bytes)
        × (c.sha256 bytes ≡ r.sha256)
  verify_segment-reads text_lt db r clean ranged there seg key =
      let keyed = is_indexed text_lt id db r there seg key in
      let rows = blob_rows_for_segment text_lt id db in
      let blobs = map blob_position rows in
      let positions = map footer_position footer.records in
      let (datas, iterated, nothing) = verify_parts c files text_lt id db footer loaded clean in
      let (bytes_ok, places_ok) = append_nil_parts (check_bytes c files datas) _ nothing in
      let (footer_ok, rows_ok) =
        append_nil_parts (check_footer blobs (items positions)) _ places_ok in
      let (p, listed) =
        items-All _ r.sha256 (blob_position r).1 blobs
          (check_blobs_clean positions (items blobs) rows_ok) keyed in
      let (q, found, equal) =
        items-All _ r.sha256 p positions (check_footer_clean blobs (items positions) footer_ok)
          listed in
      let (k, member, place) =
        Member-map footer_position (r.sha256, p) footer.records
          (lookup-Member r.sha256 p positions listed) in
      let (e, entry) =
        get_elem?_lt k.block_no footer.blocks (Member-All _ k footer.records ranged member) in
      let (payload, read, sound) =
        iter_clean c files id 0 footer.blocks footer.records datas iterated
          (check_bytes_clean c files datas bytes_ok) k k.block_no e member entry (omega arith) in
      let here : footer_position k ≡ blob_position r =
        place ∙ ap (λ x. (r.sha256, x)) (place_same p (blob_position r).1 q (ground arith) equal) in
      read_placed r k e payload seg here entry read sound
