-- ===== src/Campaign/Unquarantine.antt =====
-- daemon/unquarantine.py. The rows of a query without ORDER BY come in the order of the table. A
-- round of the loop is a query and the operation on the rows that it returned; `clock` gives the
-- time of the operation by the rounds that are left.
pub mod Requeue
pub mod Ends
use reroll_sync.Base.{
  ℕ, zero, suc, ◌+◌, ◌*◌, ◌≤◌, ◌<◌, ◌≡◌, ◌≢◌, ◌↔◌, ◌∙◌, refl, sym, ap, Bool, true, false, not, ◌&&◌,
  ◌||◌, List, [], ◌∷◌, ◌++◌, arith, length, max, min, sum_by, sum_by-append, length-append, Option,
  none, some, append_assoc, append-nil, ◌⊎◌, inl, inr, get_elem?, All, All-append, Option-cases,
  List-cases, Bool-cases, if◌then◌else◌, ltb, leb, ◌==◌, String, take, map, text_eq,
}
use reroll_sync.Schema.{WheelState, state_eq, quarantined, need_metadata}
use reroll_sync.Sql.{select, update, delete, count}
use reroll_sync.Db.{
  Db, Conn, Timestamp, Wheel, Write, Result, ok, err, unsupported_selector, has_id,
}
use reroll_sync.Dispatcher.Claim.{contains}
use reroll_sync.Writer.{submit_and_wait}
use reroll_sync.Campaign.Selector.{
  Selector, reroll_version_below, state_selector, project_selector, skipped_only,
}

-- `_NO_MATCH_PROJECT`, a text that is the name of no project
abbrev pub no_match_project : String
no_match_project = "\0no-such-project\0"

-- `_project_filter`
unfoldable pub project_filter : Selector → Result (Option String)
project_filter (state_selector s) =
    if state_eq s quarantined then ok none else ok (some no_match_project)
project_filter (project_selector project) = ok (some project)
project_filter (reroll_version_below v) = err unsupported_selector
project_filter skipped_only = err unsupported_selector

abbrev pub is_quarantined : Wheel → Bool
is_quarantined w = state_eq w.state quarantined

abbrev pub in_project : Option String → Wheel → Bool
in_project none w = true
in_project (some p) w = text_eq w.project p

-- the WHERE clause of `_quarantined_chunk_query`
abbrev pub is_target : Option String → Wheel → Bool
is_target project w = is_quarantined w && in_project project w

abbrev pub row_ids : List Wheel → List ℕ
row_ids = map (λ (w : Wheel). w.id)

-- `_quarantined_chunk_query`, run against the tables
unfoldable pub chunk_rows : Option String → ℕ → Db → List Wheel
chunk_rows project limit db = take limit (select (is_target project) db.wheels)

abbrev pub is_held : ℕ → Wheel → Bool
is_held id w = has_id id w && is_quarantined w

abbrev pub requeued : ℕ → Timestamp → Wheel → Wheel
requeued seq now w = record w { state = need_metadata; change_seq = seq; updated_at = now }

-- the UPDATE of one wheel, with its `rowcount`; `next_seq` is called for it in any case
unfoldable pub requeue_one : ℕ → Timestamp → Conn → ℕ × Conn
requeue_one id now c = (
  count (is_held id) c.db.wheels,
  record c {
    db = record c.db { wheels = update (is_held id) (requeued (suc c.seq) now) c.db.wheels };
    seq = suc c.seq;
  },
)

-- the loop over the ids, with `affected`
unfoldable pub requeue_all : List ℕ → Timestamp → Conn → ℕ × Conn
unfolding requeue_one
requeue_all [] now c = (0, c)
requeue_all (id ∷ ids) now c =
    let (n, c') = requeue_one id now c in
    let (rest, c'') = requeue_all ids now c' in (n + rest, c'')

-- `_unquarantine_chunk_op`
unfoldable pub unquarantine_chunk_op : List ℕ → Timestamp → Write ℕ
unfolding requeue_all
unquarantine_chunk_op ids now c =
    let work = delete (λ r. contains r.wheel_id ids) c.db.work in
    let (affected, c') = requeue_all ids now (record c { db = record c.db { work = work } }) in
    (ok affected, c')

-- How the rest of the campaign goes after a chunk: `none` is out of fuel.
abbrev pub Outcome : Type 0
Outcome = Option (Result ℕ × Conn)

abbrev pub after_chunk : Bool → Result ℕ × Conn → ℕ → (ℕ → Conn → Outcome) → Outcome
after_chunk last (err e, c) total again = some (err e, c)
after_chunk true (ok n, c) total again = some (ok (total + n), c)
after_chunk false (ok n, c) total again = again (total + n) c

abbrev pub is_empty : List Wheel → Bool
is_empty [] = true
is_empty (w ∷ ws) = false

-- `_quarantined_chunks` with the body of the loop in `unquarantine`
unfoldable pub campaign : ℕ → Option String → ℕ → (ℕ → Timestamp) → ℕ → Conn → Outcome
campaign zero project size clock total c = none
campaign (suc fuel) project size clock total c =
    let rows = chunk_rows project size c.db in
    let round =
      after_chunk (ltb (length rows) size)
        (submit_and_wait (unquarantine_chunk_op (row_ids rows) (clock fuel)) c) total
        (campaign fuel project size clock) in
    if is_empty rows then some (ok total, c) else round

abbrev start : Result (Option String) → ℕ → ℕ → (ℕ → Timestamp) → Conn → Outcome
start (err e) fuel size clock c = some (err e, c)
start (ok project) fuel size clock c = campaign fuel project size clock 0 c

-- `unquarantine`
unfoldable pub unquarantine : ℕ → Selector → ℕ → (ℕ → Timestamp) → Conn → Outcome
unfolding project_filter campaign
unquarantine fuel selector size clock c = start (project_filter selector) fuel size clock c
