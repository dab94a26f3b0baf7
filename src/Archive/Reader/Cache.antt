-- ===== src/Archive/Reader/Cache.antt =====
-- archive/reader.py: the caches of `SegmentReader`, `_footers` and the least recently used blocks,
-- which stand in `_blocks` with the oldest first.
pub mod Refines
use reroll_sync.Base.{
  ℕ, zero, suc, ◌+◌, ◌*◌, ◌≤◌, ◌<◌, ◌≡◌, ◌≢◌, ◌↔◌, ◌∙◌, refl, sym, ap, Bool, true, false, not, ◌&&◌,
  ◌||◌, List, [], ◌∷◌, ◌++◌, arith, length, max, min, sum_by, sum_by-append, length-append, Option,
  none, some, append_assoc, append-nil, ◌⊎◌, inl, inr, get_elem?, All, All-append, Option-cases,
  List-cases, Bool-cases, if◌then◌else◌, ltb, leb, ◌==◌, String, take, drop, text_eq,
}
use reroll_sync.Sql.{find, delete}
use reroll_sync.Archive.Format.{Bytes, BlobLocation, Footer, Codec}
use reroll_sync.Archive.Reader.{
  Read, got, failed, Files, load_footer, load_block_with, checked, and_then,
}

pub record Block : Type 0 where
  pub segment_id : ℕ
  pub block_no : ℕ
  pub content : Bytes

pub record SegmentReader : Type 0 where
  pub block_cache_size : ℕ
  pub footers : List (ℕ × Footer)
  pub blocks : List Block

-- `__init__`
unfoldable pub open_reader : ℕ → SegmentReader
open_reader block_cache_size = record {
  block_cache_size = block_cache_size;
  footers = [];
  blocks = [];
}

abbrev pub footer_key : ℕ → ℕ × Footer → Bool
footer_key id p = p.0 == id

abbrev pub block_key : ℕ → ℕ → Block → Bool
block_key id n b = b.segment_id == id && b.block_no == n

-- `_footers[segment_id] = footer`, of a key that is not there
abbrev pub keep_footer : ℕ → Read Footer → SegmentReader → Read Footer × SegmentReader
keep_footer id (got footer) r = (got footer, record r { footers = (id, footer) ∷ r.footers })
keep_footer id (failed e) r = (failed e, r)

-- `_blocks[key] = data`, of a key that is not there, with the `popitem` where there are too many
abbrev pub keep_block : ℕ → ℕ → Read Bytes → SegmentReader → Read Bytes × SegmentReader
keep_block id n (got content) r =
    let blocks = r.blocks ++ record { segment_id = id; block_no = n; content = content } ∷ [] in
    (
      got content,
      record r {
        blocks = if ltb r.block_cache_size (length blocks) then drop 1 blocks else blocks;
      },
    )
keep_block id n (failed e) r = (failed e, r)

module _ (c : Codec) (files : Files) where
  abbrev pub footer_missing : ℕ → Option (ℕ × Footer) → SegmentReader → Read Footer × SegmentReader
  footer_missing id (some (_, footer)) r = (got footer, r)
  footer_missing id none r = keep_footer id (load_footer c files id) r

  -- `_footer_for`
  unfoldable pub footer_for : ℕ → SegmentReader → Read Footer × SegmentReader
  footer_for id r = footer_missing id (find (footer_key id) r.footers) r

  -- `_block_bytes`; a hit moves the block to the end
  abbrev pub block_missing : ℕ → ℕ → Option Block → SegmentReader → Read Bytes × SegmentReader
  block_missing id n (some b) r =
      (got b.content, record r { blocks = delete (block_key id n) r.blocks ++ b ∷ [] })
  block_missing id n none r =
      let (footer, r') = footer_for id r in
      keep_block id n (and_then footer (load_block_with c files id n)) r'

  unfoldable pub block_bytes : ℕ → ℕ → SegmentReader → Read Bytes × SegmentReader
  unfolding footer_for
  block_bytes id n r = block_missing id n (find (block_key id n) r.blocks) r

  -- `read`
  unfoldable pub read : BlobLocation → SegmentReader → Read Bytes × SegmentReader
  read l r =
      let (block, r') = block_bytes l.segment_id l.block_no r in (and_then block (checked c l), r')

  -- Reads one after the other.
  unfoldable pub read_all : List BlobLocation → SegmentReader → List (Read Bytes) × SegmentReader
  read_all [] r = ([], r)
  read_all (l ∷ ls) r =
      let (bytes, r') = read l r in let (rest, r'') = read_all ls r' in (bytes ∷ rest, r'')
