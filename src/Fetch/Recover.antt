-- ===== src/Fetch/Recover.antt =====
-- fetch.py: `recover_unsealed_segment` and its operation on a chunk of digests.
pub mod Linked
pub mod Gone
use reroll_sync.Base.{
  ℕ, zero, suc, ◌+◌, ◌*◌, ◌≤◌, ◌<◌, ◌≡◌, ◌≢◌, ◌↔◌, ◌∙◌, refl, sym, ap, Bool, true, false, not, ◌&&◌,
  ◌||◌, List, [], ◌∷◌, ◌++◌, arith, length, max, min, sum_by, sum_by-append, length-append, Option,
  none, some, append_assoc, append-nil, ◌⊎◌, inl, inr, get_elem?, All, All-append, Option-cases,
  List-cases, Bool-cases, if◌then◌else◌, ltb, leb, ◌==◌, String, text_eq, map, take, drop, any,
}
use reroll_sync.Schema.{state_eq, need_metadata, deleted}
use reroll_sync.Sql.{select, update, delete, count}
use reroll_sync.Db.{Db, Conn, Wheel, BlobRow, Write, Result, ok, err}
use reroll_sync.Writer.{submit_and_wait}
use reroll_sync.Dispatcher.Claim.{contains}
use reroll_sync.Archive.Store.{blob_rows_for_segment}

abbrev pub one_of : List String → String → Bool
one_of [] s = false
one_of (t ∷ ts) s = text_eq t s || one_of ts s

-- `blob_sha256 IN (...)`, which a NULL is not
abbrev pub has_blob_of : List String → Option String → Bool
has_blob_of shas none = false
has_blob_of shas (some s) = one_of shas s

-- the WHERE clause of the SELECT
abbrev pub is_lost : List String → Wheel → Bool
is_lost shas w = has_blob_of shas w.blob_sha256 && not (state_eq w.state deleted)

abbrev pub reset_wheel : Wheel → Wheel
reset_wheel w = record w { state = need_metadata; blob_sha256 = none; conda_name = none }

abbrev wheel_ids : List Wheel → List ℕ
wheel_ids = map (λ (w : Wheel). w.id)

-- `_recover_chunk_write_op`
unfoldable pub recover_chunk_op : List String → Write ℕ
recover_chunk_op chunk c =
    let ids = wheel_ids (select (is_lost chunk) c.db.wheels) in
    (
      ok (length ids),
      record c {
        db = record c.db {
          wheels = update (λ w. contains w.id ids) reset_wheel c.db.wheels;
          wheel_repodata = delete (λ r. contains r.wheel_id ids) c.db.wheel_repodata;
          blobs = delete (λ b. one_of chunk b.sha256) c.db.blobs;
        };
      },
    )

-- the slices of `range(0, len(sha256s), chunk_size)`; there are at most as many as digests
abbrev pub chunks_of : ℕ → ℕ → List String → List (List String)
chunks_of zero size shas = []
chunks_of (suc fuel) size [] = []
chunks_of (suc fuel) size (s ∷ shas) =
    take size (s ∷ shas) ∷ chunks_of fuel size (drop size (s ∷ shas))

abbrev add_total : ℕ → Result ℕ × Conn → (ℕ → Conn → Result ℕ × Conn) → Result ℕ × Conn
add_total total (ok n, c) next = next (total + n) c
add_total total (err e, c) next = (err e, c)

unfoldable pub recover_chunks : List (List String) → ℕ → Conn → Result ℕ × Conn
unfolding recover_chunk_op submit_and_wait
recover_chunks [] total c = (ok total, c)
recover_chunks (chunk ∷ chunks) total c =
    add_total total (submit_and_wait (recover_chunk_op chunk) c) (recover_chunks chunks)

-- `recover_unsealed_segment`, for a chunk size that is not 0
unfoldable pub recover_unsealed_segment : (String → String → Bool) → ℕ → ℕ → Conn → Result ℕ × Conn
unfolding recover_chunks
recover_unsealed_segment text_lt segment_id chunk_size c =
    let shas = map (λ (b : BlobRow). b.sha256) (blob_rows_for_segment text_lt segment_id c.db) in
    recover_chunks (chunks_of (length shas) chunk_size shas) 0 c
