-- ===== src/Campaign/Reprocess.antt =====
-- dispatcher.py: `Dispatcher.reprocess`, its chunks and the operation on a chunk. `text_lt` is
-- sqlite's BINARY collation. Each loop of `_selector_chunks` runs with the operation on its chunks,
-- since a query sees what the operation before it wrote; `none` is out of fuel. Each phase of the
-- campaign takes its own fuel.
pub mod Rounds
pub mod Chunk
pub mod Stale
pub mod Versions
use reroll_sync.Base.{
  ℕ, zero, suc, ◌+◌, ◌*◌, ◌≤◌, ◌<◌, ◌≡◌, ◌≢◌, ◌↔◌, ◌∙◌, refl, sym, ap, Bool, true, false, not, ◌&&◌,
  ◌||◌, List, [], ◌∷◌, ◌++◌, arith, length, max, min, sum_by, sum_by-append, length-append, Option,
  none, some, append_assoc, append-nil, ◌⊎◌, inl, inr, get_elem?, All, All-append, Option-cases,
  List-cases, Bool-cases, if◌then◌else◌, ltb, leb, ◌==◌, String, take, map, text_eq, any,
}
use reroll_sync.Schema.{WheelState, state_eq, need_convert, deleted, skipped}
use reroll_sync.Sql.{select, update, delete, count, order_by}
use reroll_sync.Db.{
  Db, Conn, Timestamp, Wheel, RepodataRow, SkipRow, Write, Result, ok, err, has_id,
}
use reroll_sync.Dispatcher.Claim.{Cursor, contains, cursor_of, last_row, past_cursor, before}
use reroll_sync.Writer.{submit_and_wait}
use reroll_sync.Campaign.Selector.{
  Selector, reroll_version_below, state_selector, project_selector, skipped_only,
}

abbrev pub is_live : Wheel → Bool
is_live w = not (state_eq w.state deleted)

abbrev pub restarted : ℕ → Timestamp → Wheel → Wheel
restarted seq now w = record w {
  state = need_convert;
  lane = 1;
  change_seq = seq;
  updated_at = now;
}

-- the UPDATE of one wheel, with its `rowcount`
unfoldable pub restart_one : ℕ → Timestamp → Conn → ℕ × Conn
restart_one id now c = (
  count (has_id id) c.db.wheels,
  record c {
    db = record c.db { wheels = update (has_id id) (restarted (suc c.seq) now) c.db.wheels };
    seq = suc c.seq;
  },
)

unfoldable pub restart_all : List ℕ → Timestamp → Conn → ℕ × Conn
unfolding restart_one
restart_all [] now c = (0, c)
restart_all (id ∷ ids) now c =
    let (n, c') = restart_one id now c in
    let (rest, c'') = restart_all ids now c' in (n + rest, c'')

-- the ids of the chunk after this one, and how to go on
abbrev pub Outcome : Type 0
Outcome = Option (Result ℕ × Conn)

abbrev pub after_chunk : Bool → Result ℕ × Conn → ℕ → (ℕ → Conn → Outcome) → Outcome
after_chunk last (err e, c) total again = some (err e, c)
after_chunk true (ok n, c) total again = some (ok (total + n), c)
after_chunk false (ok n, c) total again = again (total + n) c

-- the second phase of a campaign, after the first
abbrev pub then_phase : Outcome → (ℕ → Conn → Outcome) → Outcome
then_phase none f = none
then_phase (some (err e, c)) f = some (err e, c)
then_phase (some (ok total, c)) f = f total c

-- `dict.fromkeys`: each id once, in the order of the first
abbrev pub distinct : List ℕ → List ℕ → List ℕ
distinct seen [] = []
distinct seen (i ∷ is) =
    let rest = distinct seen is in
    let rest' = distinct (i ∷ seen) is in if contains i seen then rest else i ∷ rest'

-- `_project_chunk_query`
unfoldable pub project_rows : String → ℕ → ℕ → Db → List Wheel
project_rows project last_id limit db = take limit (
    order_by (λ v w. ltb v.id w.id)
      (select (λ w. text_eq w.project project && is_live w && ltb last_id w.id) db.wheels))

-- the join with `wheels`, a wheel that is not deleted
abbrev pub joins : Db → ℕ → Bool
joins db id = any (λ w. has_id id w && is_live w) db.wheels

module _ (text_lt : String → String → Bool) where
  -- `sk.reroll_version < ?`, which a NULL is not
  abbrev pub below : String → Option String → Bool
  below version none = false
  below version (some v) = text_lt v version

  abbrev pub is_stale_skip : String → SkipRow → Bool
  is_stale_skip version r = not r.permanent && below version r.reroll_version

  -- the DELETE FROM skips of the operation, for the one selector that has it
  unfoldable pub clear_skips : Selector → List ℕ → List SkipRow → List SkipRow
  clear_skips (reroll_version_below version) ids rows =
      delete (λ r. is_stale_skip version r && contains r.wheel_id ids) rows
  clear_skips _ ids rows = rows

  -- `_reprocess_chunk_op`
  unfoldable pub reprocess_chunk_op : List ℕ → Selector → Timestamp → Write ℕ
  unfolding clear_skips restart_all
  reprocess_chunk_op ids selector now c =
      let cleared = record c.db {
        wheel_repodata = delete (λ r. contains r.wheel_id ids) c.db.wheel_repodata;
        skips = clear_skips selector ids c.db.skips;
        work = delete (λ r. contains r.wheel_id ids) c.db.work;
      } in
      let (affected, c') = restart_all ids now (record c { db = cleared }) in (ok affected, c')

  -- `_state_chunk_query`
  unfoldable pub state_rows : WheelState → Option Cursor → ℕ → Db → List Wheel
  unfolding past_cursor before
  state_rows state cursor limit db = take limit (
      order_by (before text_lt) (
        select (λ w. state_eq w.state state && is_live w && past_cursor text_lt cursor w)
          db.wheels))

  abbrev pub is_stale_row : String → Db → RepodataRow → Bool
  is_stale_row version db r = text_lt r.reroll_version version && joins db r.wheel_id

  -- `_reroll_version_wheel_repodata_chunk_query`
  unfoldable pub repodata_rows : String → ℕ → Db → List RepodataRow
  repodata_rows version limit db = take limit (
      order_by (λ r s. text_lt r.reroll_version s.reroll_version)
        (select (is_stale_row version db) db.wheel_repodata))

  abbrev version_before : SkipRow → SkipRow → Bool
  version_before r s = elim s.reroll_version [ none ↦ false | some v ↦ below v r.reroll_version ]

  abbrev pub is_joined_skip : String → Db → SkipRow → Bool
  is_joined_skip version db r = is_stale_skip version r && joins db r.wheel_id

  -- `_reroll_version_skips_chunk_query`
  unfoldable pub skip_rows : String → ℕ → Db → List SkipRow
  skip_rows version limit db =
      take limit (order_by version_before (select (is_joined_skip version db) db.skips))
