-- ===== src/Writer/Loop.antt =====
-- writer.py: the life of the writer, its `start`, `submit` and `stop`. Turn.antt has the loop of its thread. One turn
-- of the loop is one step, with what it reads of the clock and what the database answers as its
-- argument; another thread's `submit` during a turn is a step before or after it. An operation has a
-- number, by which its outcome is found.
use reroll_sync.Base.{
  ℕ, Bool, true, false, List, [], ◌∷◌, ◌++◌, length, max, Option, none, if◌then◌else◌, leb,
}
use reroll_sync.Db.{Db, Timestamp, Wheel, Write, Result, DbError}
use reroll_sync.Writer.{Writer}

pub record Op (A : Type 0) : Type 0 where
  pub id : ℕ
  pub apply : Write A

pub record Settings : Type 0 where
  pub batch_size : ℕ
  pub batch_interval : ℕ
  pub checkpoint_interval : ℕ
  pub vacuum_interval : ℕ
  pub queue_maxsize : ℕ

-- the counters of the TRUNCATE checkpoints
pub record Checkpoints : Type 0 where
  pub last_truncate_checkpoint_at : Option Timestamp
  pub last_truncate_checkpoint_ok : Option Bool
  pub consecutive_failures : ℕ

-- `resolved` has the outcomes in the order in which they were set; `running` is the thread.
pub record Loop (A : Type 0) : Type 0 where
  pub settings : Settings
  pub writer : Writer
  pub queue : List (Op A)
  pub batch : List (Op A)
  pub batch_deadline : Option Timestamp
  pub stopped : Bool
  pub stop_requested : Bool
  pub drain_on_stop : Bool
  pub running : Bool
  pub resolved : List (ℕ × Result A)
  pub last_checkpoint_check : Timestamp
  pub last_vacuum_check : Timestamp
  pub vacuums : ℕ
  pub checkpoints : Checkpoints

-- What a turn reads: the clock after `get`, at the test of the deadline and at the checks; the
-- exception of COMMIT; and whether a checkpoint was busy.
pub record Turn : Type 0 where
  pub at_get : Timestamp
  pub at_test : Timestamp
  pub at_check : Timestamp
  pub commit_error : Option DbError
  pub busy : Bool

-- `SELECT COALESCE(MAX(change_seq), 0) FROM wheels`
abbrev pub max_seq : List Wheel → ℕ
max_seq [] = 0
max_seq (w ∷ ws) = max w.change_seq (max_seq ws)

-- `submit`: `full` is a `put` that waits
pub data Submitted : Type 0 where
  accepted full refused : Submitted

-- a writer with the counter at the highest `change_seq`
abbrev pub opened : Db → Writer
opened db = record { conn = record { db = db; seq = max_seq db.wheels }; failed_ops = 0 }

module _ {A : Type 0} where
  -- `__init__` and `start`, where the thread reads the clock at `now`
  unfoldable pub start : Settings → Db → Timestamp → Loop A
  start settings db now = record {
    settings = settings;
    writer = opened db;
    queue = [];
    batch = [];
    batch_deadline = none;
    stopped = false;
    stop_requested = false;
    drain_on_stop = true;
    running = true;
    resolved = [];
    last_checkpoint_check = now;
    last_vacuum_check = now;
    vacuums = 0;
    checkpoints = record {
      last_truncate_checkpoint_at = none;
      last_truncate_checkpoint_ok = none;
      consecutive_failures = 0;
    };
  }

  unfoldable pub submit : Op A → Loop A → Submitted × Loop A
  submit op l =
      if l.stopped
      then (refused, l)
      else (if leb l.settings.queue_maxsize (length l.queue)
          then (full, l)
          else (accepted, record l { queue = l.queue ++ op ∷ [] }))

  -- `stop` without the `join`
  unfoldable pub stop : Bool → Loop A → Loop A
  stop drain l =
      if l.stopped
      then l
      else record l { drain_on_stop = drain; stopped = true; stop_requested = true }
