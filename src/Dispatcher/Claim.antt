-- ===== src/Dispatcher/Claim.antt =====
-- dispatcher.py: selection from a derived queue. `text_lt` is sqlite's BINARY collation of the
-- `project` column, which no file of the repository implements.
pub mod Pages
pub mod Exclusive
pub mod InFlight
use reroll_sync.Base.{
  ℕ, String, Bool, true, false, not, ◌&&◌, ◌||◌, Option, none, some, List, [], ◌∷◌, ◌++◌, map, ltb,
  ◌==◌, text_eq, if◌then◌else◌, any, take, length, is_some,
}
use reroll_sync.Schema.{state_eq}
use reroll_sync.Sql.{select, delete}
use reroll_sync.Db.{Db, Stage, Timestamp, Wheel, WorkRow, work_key}
use reroll_sync.Dispatcher.Outcome.{QueueItem, queue_state}

-- A keyset cursor: the `(lane, project, id)` of the last row of the page before.
pub record Cursor : Type 0 where
  pub lane : ℕ
  pub project : String
  pub id : ℕ

-- the `work` row defers its wheel: quarantined, or not due yet
unfoldable pub defers : Timestamp → WorkRow → Bool
defers now r = is_some r.quarantined_at || ltb now r.next_attempt_at

-- `NOT EXISTS (SELECT 1 FROM work ...)`, negated
unfoldable pub is_deferred : Stage → Timestamp → Db → Wheel → Bool
unfolding defers
is_deferred stage now db w = any (λ r. work_key w.id stage r && defers now r) db.work

-- `w.id IN (in_flight)`
abbrev pub contains : ℕ → List ℕ → Bool
contains i [] = false
contains i (j ∷ js) = j == i || contains i js

abbrev pub last_row : List Wheel → Option Wheel
last_row [] = none
last_row (w ∷ []) = some w
last_row (w ∷ v ∷ ws) = last_row (v ∷ ws)

abbrev pub cursor_of : Option Wheel → Option Cursor
cursor_of none = none
cursor_of (some w) = some (record { lane = w.lane; project = w.project; id = w.id })

abbrev pub to_item : Stage → Wheel → QueueItem
to_item stage w = record {
  id = w.id;
  project = w.project;
  lane = w.lane;
  state = queue_state stage;
}

abbrev pub ids : List QueueItem → List ℕ
ids = map (λ (i : QueueItem). i.id)

-- What `claim` changes of the dispatcher: the stage's cursor and its in-flight set.
pub record Queue : Type 0 where
  pub cursor : Option Cursor
  pub in_flight : List ℕ

module _ (text_lt : String → String → Bool) where
  -- `_lane_project_id_keyset`
  unfoldable pub past_cursor : Option Cursor → Wheel → Bool
  past_cursor none w = true
  past_cursor (some c) w =
      ltb c.lane w.lane
      || (c.lane == w.lane && text_lt c.project w.project)
      || (c.lane == w.lane && text_eq c.project w.project && ltb c.id w.id)

  -- ORDER BY lane, project, id: whether `v` stands before `w`
  unfoldable pub before : Wheel → Wheel → Bool
  before v w =
      ltb v.lane w.lane
      || (v.lane == w.lane && text_lt v.project w.project)
      || (v.lane == w.lane && text_eq v.project w.project && ltb v.id w.id)

  unfoldable pub insert_row : Wheel → List Wheel → List Wheel
  insert_row v [] = v ∷ []
  insert_row v (w ∷ ws) = if before w v then w ∷ insert_row v ws else v ∷ w ∷ ws

  unfoldable pub order_rows : List Wheel → List Wheel
  unfolding insert_row
  order_rows [] = []
  order_rows (w ∷ ws) = insert_row w (order_rows ws)

  -- the WHERE clause of `_claim_query`
  unfoldable pub is_claimable : Stage → Option Cursor → List ℕ → Timestamp → Db → Wheel → Bool
  unfolding is_deferred past_cursor
  is_claimable stage cursor in_flight now db w =
      state_eq w.state (queue_state stage)
      && past_cursor cursor w
      && not (is_deferred stage now db w)
      && not (contains w.id in_flight)

  -- `_claim_query`, run against the tables
  unfoldable pub claim_rows : Stage → Option Cursor → List ℕ → Timestamp → ℕ → Db → List Wheel
  unfolding is_claimable order_rows
  claim_rows stage cursor in_flight now limit db =
      take limit (order_rows (select (is_claimable stage cursor in_flight now db) db.wheels))

  -- `Dispatcher.claim`. A short page puts the cursor back to the start.
  unfoldable pub claim : Stage → ℕ → Timestamp → Db → Queue → List QueueItem × Queue
  unfolding claim_rows
  claim stage limit now db q =
      let rows = claim_rows stage q.cursor q.in_flight now limit db in
      let items = map (to_item stage) rows in
      let next = if ltb (length items) limit then none else cursor_of (last_row rows) in
      (items, record { cursor = next; in_flight = q.in_flight ++ ids items })
