-- ===== src/Fetch/Handoff.antt =====
-- fetch.py: `ArchiveHandoff`, the archive thread. Its state is the handoff queue, the store with the
-- tables, the dispatcher, and what was handed to `on_archived`, a callback that returns.
pub mod Links
use reroll_sync.Base.{
  ℕ, zero, suc, ◌+◌, ◌*◌, ◌≤◌, ◌<◌, ◌≡◌, ◌≢◌, ◌↔◌, ◌∙◌, refl, sym, ap, Bool, true, false, not, ◌&&◌,
  ◌||◌, List, [], ◌∷◌, ◌++◌, arith, length, max, min, sum_by, sum_by-append, length-append, Option,
  none, some, append_assoc, append-nil, ◌⊎◌, inl, inr, get_elem?, All, All-append, Option-cases,
  List-cases, Bool-cases, if◌then◌else◌, ltb, leb, ◌==◌, String,
}
use reroll_sync.Schema.{need_convert}
use reroll_sync.Db.{Conn, fetch, Timestamp, Result, ok, err, Write}
use reroll_sync.Writer.{submit_and_wait}
use reroll_sync.Archive.Format.{Bytes, BlobLocation, Codec}
use reroll_sync.Archive.Segment.{SegmentStats, SegmentWriter, should_seal, seal}
use reroll_sync.Archive.Store.{
  Store, add_blob, current_writer, open_writer, sealed_into, mark_sealed,
}
use reroll_sync.Dispatcher.Outcome.{QueueItem, Outcome, of_ok, blob_link_writer}
use reroll_sync.Dispatcher.Ops.{Applied}
use reroll_sync.Dispatcher.Apply.{Dispatcher, apply_outcome}
use reroll_sync.Fetch.Queue.{Queue, Got, popped, empty, drained, get, release}

pub record HandoffItem : Type 0 where
  pub queue_item : QueueItem
  pub filename : String
  pub content : Bytes
  pub sha256 : String

pub record Handoff (L : Type 0) : Type 0 where
  pub queue : Queue HandoffItem
  pub store : Store
  pub dispatcher : Dispatcher L
  pub conn : Conn
  pub archived : List (QueueItem × String × Bytes)

-- How a pass of `process_one` ends: `stop` is its result false, `waiting` a `get` that has to wait.
pub data Processed : Type 0 where
  worked raised waiting stop : Processed

-- `_seal_write_op`
unfoldable pub seal_write_op : SegmentStats → Timestamp → Write (Unit {0})
unfolding mark_sealed
seal_write_op stats now c = (ok tt, record c { db = mark_sealed stats now c.db })

-- the clocks of a pass: the monotonic clock in seconds, the wall clock and the dispatcher's
pub record Clocks : Type 0 where
  pub monotonic : ℕ
  pub wall : Timestamp
  pub now : Timestamp
  pub finished_at : Timestamp
  pub jitter : ℕ

module _ (c : Codec) {L : Type 0} (penalize : String → ℕ → L → Option L) where
  abbrev pub with_tables : Conn → Store → Handoff L → Handoff L
  with_tables conn store h = record h { conn = conn; store = store }

  -- the new writer, once the seal is recorded; an exception of the write passes through
  abbrev pub recorded_seal :
      Clocks → Store → Result (Unit {0}) × Conn → Handoff L → Bool × Handoff L
  recorded_seal k store (err e, conn) h = (false, with_tables conn store h)
  recorded_seal k store (ok _, conn) h =
      let (_, (db, store')) = open_writer k.monotonic (conn.db, store) in
      (true, with_tables (record conn { db = db }) store' h)

  -- the tail of `_maybe_seal` after `current.seal()`
  abbrev pub reopened : Clocks → Option SegmentStats × Store → Handoff L → Bool × Handoff L
  reopened k (none, store) h = (false, record h { store = store })
  reopened k (some stats, store) h =
      recorded_seal k store (submit_and_wait (seal_write_op stats k.wall) h.conn) h

  -- `_maybe_seal`: false is an exception
  unfoldable pub maybe_seal : Clocks → Handoff L → Bool × Handoff L
  unfolding seal_write_op submit_and_wait open_writer
  maybe_seal k h =
      let (w, (db, store)) = current_writer k.monotonic (h.conn.db, h.store) in
      let h' = with_tables (record h.conn { db = db }) store h in
      let sealing = reopened k (sealed_into c (seal c w) store) h' in
      if should_seal k.monotonic w then sealing else (true, h')

  abbrev pub told :
      HandoffItem → Result Applied × (Dispatcher L × Conn) → Handoff L → Processed × Handoff L
  told item (err e, (d, conn)) h = (raised, record h { dispatcher = d; conn = conn })
  told item (ok r, (d, conn)) h = (
    worked,
    record h {
      dispatcher = d;
      conn = conn;
      archived = h.archived ++ (item.queue_item, item.filename, item.content) ∷ [];
    },
  )

  abbrev pub linked : HandoffItem → BlobLocation → Outcome
  linked item l = of_ok (record { next_state = need_convert; write = blob_link_writer l.sha256 })

  abbrev pub finish : Clocks → HandoffItem → BlobLocation → Bool × Handoff L → Processed × Handoff L
  finish k item l (false, h) = (raised, h)
  finish k item l (true, h) =
      told item
        (apply_outcome penalize fetch item.queue_item (linked item l) k.now k.finished_at k.jitter
          (h.dispatcher, h.conn))
        h

  abbrev pub stored : Clocks → HandoffItem → Option BlobLocation → Handoff L → Processed × Handoff L
  stored k item none h = (raised, h)
  stored k item (some l) h = finish k item l (maybe_seal k h)

  -- the `try` block
  unfoldable pub archive_item : Clocks → HandoffItem → Handoff L → Processed × Handoff L
  unfolding maybe_seal
  archive_item k item h =
      let (l, (db, store)) = add_blob c item.content k.monotonic (h.conn.db, h.store) in
      stored k item l (with_tables (record h.conn { db = db }) store h)

  -- the `finally` clause
  abbrev pub freed : HandoffItem → Processed × Handoff L → Processed × Handoff L
  freed item (p, h) = (p, record h { queue = release (length item.content) h.queue })

  abbrev pub got_item : Clocks → Got HandoffItem → Handoff L → Processed × Handoff L
  got_item k empty h = (waiting, h)
  got_item k drained h = (stop, h)
  got_item k (popped item) h = freed item (archive_item k item h)

  -- `process_one`
  unfoldable pub process_one : Clocks → Handoff L → Processed × Handoff L
  unfolding archive_item
  process_one k h = let (item, queue) = get h.queue in got_item k item (record h { queue = queue })

  -- `run` as far as a list of clocks goes: an exception or a drained queue ends it
  abbrev go_on : Processed × Handoff L → (Handoff L → Processed × Handoff L) → Processed × Handoff L
  go_on (worked, h) again = again h
  go_on (waiting, h) again = again h
  go_on (p, h) again = (p, h)

  unfoldable pub run : List Clocks → Handoff L → Processed × Handoff L
  unfolding process_one
  run [] h = (waiting, h)
  run (k ∷ ks) h = go_on (process_one k h) (run ks)
