-- ===== src/Fsck/Scan.antt =====
-- fsck.py: `_chunked_scan` and `_run_row_check`. A row of a base query is its `value` with its
-- `cursor_rowid`; the tables stay as they are while the scan runs.
pub mod Complete
use reroll_sync.Base.{
  ℕ, zero, suc, Bool, true, false, List, [], ◌∷◌, ◌++◌, Option, none, some, length, take, ltb,
  if◌then◌else◌, String, map,
}
use reroll_sync.Sql.{select, order_by}

pub data Value : Type 0 where
  number : ℕ → Value
  text : String → Value

abbrev pub Row : Type 0
Row = Value × ℕ

abbrev pub values : List Row → List Value
values = map (λ (r : Row). r.0)

abbrev pub past : Option ℕ → Row → Bool
past none r = true
past (some cursor) r = ltb cursor r.1

abbrev pub earlier : Row → Row → Bool
earlier r s = ltb r.1 s.1

-- a page with one row more, by which it is seen whether there is a next one
unfoldable pub page_rows : ℕ → Option ℕ → List Row → List Row
page_rows size cursor rows = take (suc size) (order_by earlier (select (past cursor) rows))

abbrev pub last_of : ℕ → List Row → ℕ
last_of n [] = n
last_of n (r ∷ rs) = last_of r.1 rs

-- `page[-1][1]`
abbrev pub next_cursor : List Row → Option ℕ
next_cursor [] = none
next_cursor (r ∷ rs) = some (last_of r.1 rs)

abbrev pub with_page : List Value → Option (List Value) → Option (List Value)
with_page page none = none
with_page page (some rest) = some (page ++ rest)

-- `_chunked_scan`, on fuel for its loop
unfoldable pub chunked_scan : ℕ → ℕ → Option ℕ → List Row → Option (List Value)
unfolding page_rows
chunked_scan zero size cursor rows = none
chunked_scan (suc fuel) size cursor rows =
    let found = page_rows size cursor rows in
    let page = take size found in
    let rest = chunked_scan fuel size (next_cursor page) rows in
    if ltb size (length found) then with_page (values page) rest else some (values page)

pub record Violation : Type 0 where
  pub invariant : String
  pub count : ℕ
  pub example_ids : List Value
  pub informational : Bool

-- `_RowCheck`, with the rows of its query
pub record RowCheck : Type 0 where
  pub invariant : String
  pub rows : List Row
  pub informational : Bool

abbrev pub violation_of : ℕ → RowCheck → List Value → Option Violation
violation_of limit check [] = none
violation_of limit check (v ∷ vs) = some (record {
  invariant = check.invariant;
  count = length (v ∷ vs);
  example_ids = take limit (v ∷ vs);
  informational = check.informational;
})

abbrev pub reported : ℕ → RowCheck → Option (List Value) → Option (Option Violation)
reported limit check none = none
reported limit check (some vs) = some (violation_of limit check vs)

-- `_run_row_check`
unfoldable pub run_row_check : ℕ → ℕ → ℕ → RowCheck → Option (Option Violation)
unfolding chunked_scan
run_row_check fuel size limit check = reported limit check (chunked_scan fuel size none check.rows)
