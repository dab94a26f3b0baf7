-- ===== src/Writer/Turn.antt =====
-- writer.py: one turn of the loop of the writer's thread, `Writer._run`.
pub mod Served
pub mod Serial
pub mod Drains
mod Tests
use Prim.Native.Nat.{◌-◌}
use reroll_sync.Base.{
  ℕ, zero, suc, ◌+◌, ◌*◌, ◌≤◌, ◌<◌, ◌≡◌, ◌≢◌, ◌↔◌, ◌∙◌, refl, sym, ap, Bool, true, false, not, ◌&&◌,
  ◌||◌, List, [], ◌∷◌, ◌++◌, arith, length, max, min, sum_by, sum_by-append, length-append, Option,
  none, some, append_assoc, append-nil, ◌⊎◌, inl, inr, get_elem?, All, All-append, Option-cases,
  List-cases, Bool-cases, if◌then◌else◌, ltb, leb, ◌==◌, String, map, is_none,
}
use reroll_sync.Db.{Timestamp, Write, Result, ok, err, DbError, writer_stopped}
use reroll_sync.Writer.{Writer, commit_batch}
use reroll_sync.Writer.Loop.{Op, Settings, Checkpoints, Loop, Turn}

-- `run_checkpoint` and the end of `_run`
unfoldable pub run_checkpoint : Bool → Timestamp → Checkpoints → Checkpoints
run_checkpoint busy now k =
    if busy
    then record k {
      last_truncate_checkpoint_ok = some false;
      consecutive_failures = suc k.consecutive_failures;
    }
    else record {
      last_truncate_checkpoint_at = some now;
      last_truncate_checkpoint_ok = some true;
      consecutive_failures = 0;
    }

abbrev deadline_from : Timestamp → ℕ → Option Timestamp → Option Timestamp
deadline_from now interval none = some (now + interval)
deadline_from now interval (some t) = some t

abbrev is_due : Timestamp → Option Timestamp → Bool
is_due now none = false
is_due now (some t) = leb t now

module _ {A : Type 0} where
  -- the `get` at the head of a turn
  abbrev taken : Timestamp → List (Op A) → Loop A → Loop A
  taken now [] l = l
  taken now (op ∷ rest) l = record l {
    queue = rest;
    batch = l.batch ++ op ∷ [];
    batch_deadline = deadline_from now l.settings.batch_interval l.batch_deadline;
  }

  unfoldable pub take_op : Timestamp → Loop A → Loop A
  take_op now l = taken now l.queue l

  abbrev is_empty : List (Op A) → Bool
  is_empty [] = true
  is_empty (op ∷ ops) = false

  unfoldable pub should_flush : Timestamp → Loop A → Bool
  should_flush now l =
      not (is_empty l.batch)
      && (leb l.settings.batch_size (length l.batch)
          || is_due now l.batch_deadline
          || (l.stop_requested && l.drain_on_stop && is_empty l.queue))

  -- `_resolve`
  abbrev pub resolve : List (Op A) → List (Result A) → List (ℕ × Result A)
  resolve [] rs = []
  resolve (op ∷ ops) [] = []
  resolve (op ∷ ops) (r ∷ rs) = (op.id, r) ∷ resolve ops rs

  -- `_discard_pending`
  abbrev pub discarded : List (Op A) → List (ℕ × Result A)
  discarded [] = []
  discarded (op ∷ ops) = (op.id, err writer_stopped) ∷ discarded ops

  abbrev pub applies : List (Op A) → List (Write A)
  applies = map (λ (op : Op A). op.apply)

  -- `_commit_batch` with `_resolve`, or `_fail_fatally` with its `_discard_pending`
  abbrev pub flushed : List (Result A) × Bool × Writer → Loop A → Loop A
  flushed (rs, false, w) l = record l {
    writer = w;
    batch = [];
    batch_deadline = none;
    resolved = l.resolved ++ resolve l.batch rs;
  }
  flushed (rs, true, w) l = record l {
    writer = w;
    queue = [];
    batch = [];
    stopped = true;
    stop_requested = true;
    running = false;
    resolved = l.resolved ++ (resolve l.batch rs ++ discarded l.queue);
  }

  unfoldable pub flush : Turn → Loop A → Loop A
  unfolding should_flush
  flush t l =
      if should_flush t.at_test l
      then flushed (commit_batch t.commit_error (applies l.batch) l.writer) l
      else l

  abbrev pub wal_due : Turn → Loop A → Bool
  wal_due t l =
      is_empty l.batch && leb l.settings.checkpoint_interval (t.at_check - l.last_checkpoint_check)

  abbrev pub vacuum_due : Turn → Loop A → Bool
  vacuum_due t l =
      is_empty l.batch && leb l.settings.vacuum_interval (t.at_check - l.last_vacuum_check)

  -- the checks that a turn makes without a batch
  unfoldable pub check_wal : Turn → Loop A → Loop A
  unfolding run_checkpoint
  check_wal t l =
      if wal_due t l
      then record l {
        checkpoints = run_checkpoint t.busy t.at_check l.checkpoints;
        last_checkpoint_check = t.at_check;
      }
      else l

  unfoldable pub check_vacuum : Turn → Loop A → Loop A
  check_vacuum t l =
      if vacuum_due t l
      then record l { vacuums = suc l.vacuums; last_vacuum_check = t.at_check }
      else l

  -- the end of a turn; with `drain` a last checkpoint runs
  unfoldable pub finish : Turn → Loop A → Loop A
  unfolding run_checkpoint
  finish t l =
      if not l.stop_requested
      then l
      else (if l.drain_on_stop
          then (if is_empty l.queue && is_empty l.batch
              then record l {
                running = false;
                checkpoints = run_checkpoint t.busy t.at_check l.checkpoints;
              }
              else l)
          else record l {
            queue = [];
            batch = [];
            running = false;
            resolved = l.resolved ++ discarded (l.batch ++ l.queue);
          })

  abbrev pub while_running : (Loop A → Loop A) → Loop A → Loop A
  while_running f l = if l.running then f l else l

  -- one turn of `_run`, which ends the thread where a batch fails fatally
  unfoldable pub turn : Turn → Loop A → Loop A
  unfolding take_op flush check_wal check_vacuum finish
  turn t l =
      while_running
        (λ l'.
          while_running (λ m. finish t (check_vacuum t (check_wal t m)))
            (flush t (take_op t.at_get l')))
        l
