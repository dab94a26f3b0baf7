-- ===== src/Archive/Verify.antt =====
-- archive/reader.py, `iter_records` and `footer_records`, and archive/verify.py. A dictionary by
-- digest has, for a digest that stands twice, the entry that stands last.
pub mod Sound
pub mod Readable
use reroll_sync.Base.{
  ℕ, zero, suc, ◌+◌, ◌*◌, ◌≤◌, ◌<◌, ◌≡◌, ◌≢◌, ◌↔◌, ◌∙◌, refl, sym, ap, Bool, true, false, not, ◌&&◌,
  ◌||◌, List, [], ◌∷◌, ◌++◌, arith, length, max, min, sum_by, sum_by-append, length-append, Option,
  none, some, append_assoc, append-nil, ◌⊎◌, inl, inr, get_elem?, All, All-append, Option-cases,
  List-cases, Bool-cases, if◌then◌else◌, ltb, leb, ◌==◌, String, text_eq, map,
}
use reroll_sync.Sql.{select}
use reroll_sync.Db.{Db, BlobRow}
use reroll_sync.Archive.Format.{Bytes, BlockEntry, RecordEntry, Footer, Codec, slice}
use reroll_sync.Archive.Reader.{
  Read, ReadError, got, failed, and_then, Files, load_footer, load_entry, file_not_found,
  corrupt_segment,
}
use reroll_sync.Archive.Store.{blob_rows_for_segment, sealed_segment_ids}

-- where a blob lies in its segment
pub record Place : Type 0 where
  pub block_no : ℕ
  pub offset : ℕ
  pub length : ℕ

abbrev pub place_eq : Place → Place → Bool
place_eq p q = p.block_no == q.block_no && p.offset == q.offset && p.length == q.length

abbrev pub Positions : Type 0
Positions = List (String × Place)

-- A problem of the report.
pub data Problem : Type 0 where
  unreadable : ReadError → Problem
  wrong_bytes : String → String → Problem
  no_blobs_row : String → Problem
  elsewhere : String → Place → Place → Problem
  no_footer_record : String → Problem

abbrev pub later_or : Option Place → Bool → Place → Option Place
later_or (some q) same p = some q
later_or none same p = if same then some p else none

-- `dict.get` on the pairs that the dictionary was built from
unfoldable pub lookup : String → Positions → Option Place
lookup sha [] = none
lookup sha ((s, p) ∷ ps) = later_or (lookup sha ps) (text_eq s sha) p

abbrev pub footer_position : RecordEntry → String × Place
footer_position r =
    (r.sha256, record { block_no = r.block_no; offset = r.offset; length = r.length })

abbrev pub blob_position : BlobRow → String × Place
blob_position r = (r.sha256, record { block_no = r.block_no; offset = r.offset; length = r.length })

abbrev compare_places : String → Place → Option Place → List Problem
compare_places sha p none = no_blobs_row sha ∷ []
compare_places sha p (some q) = if place_eq q p then [] else elsewhere sha q p ∷ []

-- the loop over the footer's records
unfoldable pub check_footer : Positions → Positions → List Problem
check_footer blobs [] = []
check_footer blobs ((sha, p) ∷ ps) =
    compare_places sha p (lookup sha blobs) ++ check_footer blobs ps

abbrev missing : String → Option Place → List Problem
missing sha none = no_footer_record sha ∷ []
missing sha (some p) = []

-- the loop over the rows of `blobs`
unfoldable pub check_blobs : Positions → Positions → List Problem
check_blobs footer [] = []
check_blobs footer ((sha, p) ∷ ps) = missing sha (lookup sha footer) ++ check_blobs footer ps

abbrev pub unless_later : Option Place → String × Place → Positions → Positions
unless_later (some q) p rest = rest
unless_later none p rest = p ∷ rest

-- the items of a dictionary that was built from the pairs, each digest once with its last place; a
-- digest that stands twice comes where its last pair stood
unfoldable pub items : Positions → Positions
unfolding lookup
items [] = []
items ((sha, p) ∷ ps) = unless_later (lookup sha ps) (sha, p) (items ps)

abbrev cut : Bytes → List RecordEntry → List (String × Bytes)
cut payload = map (λ (r : RecordEntry). (r.sha256, slice r.offset r.length payload))

abbrev pub append_read : {A : Type 0} → List A → Read (List A) → Read (List A)
append_read xs r = and_then r (λ ys. got (xs ++ ys))

module _ (c : Codec) (files : Files) where
  -- the loop of `iter_records`, from block `n` on
  unfoldable pub iter_blocks :
      ℕ → ℕ → List BlockEntry → List RecordEntry → Read (List (String × Bytes))
  iter_blocks id n [] records = got []
  iter_blocks id n (e ∷ es) records =
      let rest = iter_blocks id (suc n) es records in
      and_then (load_entry c files id e)
        (λ payload. append_read (cut payload (select (λ r. r.block_no == n) records)) rest)

  -- `iter_records`
  unfoldable pub iter_records : ℕ → Read (List (String × Bytes))
  unfolding iter_blocks
  iter_records id = and_then (load_footer c files id) (λ f. iter_blocks id 0 f.blocks f.records)

  -- `footer_records`
  unfoldable pub footer_records : ℕ → Read (List RecordEntry)
  footer_records id = and_then (load_footer c files id) (λ f. got f.records)

  -- the loop over the records, whose bytes are hashed
  unfoldable pub check_bytes : List (String × Bytes) → List Problem
  check_bytes [] = []
  check_bytes ((sha, bytes) ∷ rest) =
      if text_eq (c.sha256 bytes) sha
      then check_bytes rest
      else wrong_bytes sha (c.sha256 bytes) ∷ check_bytes rest

  abbrev pub compared : List BlobRow → List RecordEntry → List (String × Bytes) → List Problem
  compared rows records datas =
      let footer = map footer_position records in
      let blobs = map blob_position rows in
      check_bytes datas ++ (check_footer blobs (items footer) ++ check_blobs footer (items blobs))

  -- `except (CorruptSegmentError, OSError)`; another exception passes through
  abbrev pub report : Read (List Problem) → Read (List Problem)
  report (got ps) = got ps
  report (failed file_not_found) = got (unreadable file_not_found ∷ [])
  report (failed corrupt_segment) = got (unreadable corrupt_segment ∷ [])
  report (failed e) = failed e

  -- `_verify_segment`
  unfoldable pub verify_segment : (String → String → Bool) → ℕ → Db → Read (List Problem)
  unfolding footer_records iter_records items check_bytes check_footer check_blobs
  verify_segment text_lt id db = report (
      and_then (footer_records id) (λ records.
        and_then (iter_records id)
          (λ datas. got (compared (blob_rows_for_segment text_lt id db) records datas))))

  abbrev pub segments_to_check : Option ℕ → Db → List ℕ
  segments_to_check none db = sealed_segment_ids db
  segments_to_check (some id) db = id ∷ []

  -- `verify_archive`
  unfoldable pub verify_all : (String → String → Bool) → List ℕ → Db → Read (List Problem)
  unfolding verify_segment
  verify_all text_lt [] db = got []
  verify_all text_lt (id ∷ ids) db =
      let rest = verify_all text_lt ids db in
      and_then (verify_segment text_lt id db) (λ ps. append_read ps rest)

  unfoldable pub verify_archive : (String → String → Bool) → Option ℕ → Db → Read (List Problem)
  unfolding verify_all
  verify_archive text_lt segment_id db = verify_all text_lt (segments_to_check segment_id db) db
