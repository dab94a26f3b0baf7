-- ===== src/Fetch/Handoff/Links.antt =====
-- What a pass of the archive thread leaves: the budget of the queue, and the blob of its wheel.
use reroll_sync.Base.{
  ℕ, ◌≡◌, ◌∙◌, refl, ap, Bool, true, false, length, Option, none, some, String, if_rule, suc, subst,
  arith,
}
use reroll_sync.Db.{Db, Wheel, Conn, fetch, Result, ok, err, has_id}
use reroll_sync.Sql.{find}
use reroll_sync.Dispatcher.Ops.Rows.{wheel_at, wheel_at-set_state_self}
use reroll_sync.Dispatcher.Ops.Effects.{stated}
use reroll_sync.Dispatcher.Apply.Payloads.{blob_link_writer-row}
use reroll_sync.Schema.{need_convert}
use reroll_sync.Writer.{submit_and_wait}
use reroll_sync.Archive.Format.{BlobLocation, Codec}
use reroll_sync.Archive.Segment.{SegmentStats, should_seal}
use reroll_sync.Archive.Store.{Store, add_blob, current_writer, open_writer, location_for}
use reroll_sync.Archive.Store.Laws.{
  add_blob_sha, wheels-add_blob, wheels-current_writer, location_for-add_blob, first_of,
  blobs-writer_or_open, location_for_blobs,
}
use reroll_sync.Dispatcher.Ops.{Applied, ok_op, set_state, delete_work}
use reroll_sync.Dispatcher.Outcome.{blob_link_writer, validate_transition}
use reroll_sync.Dispatcher.Apply.{Dispatcher, apply_outcome, write_outcome, guarded}
use reroll_sync.Fetch.Queue.{Queue, popped, get, release}
use reroll_sync.Fetch.Handoff.{
  HandoffItem, Handoff, worked, Clocks, seal_write_op, reopened, maybe_seal, told, linked, finish,
  stored, archive_item, process_one,
}

module _ (c : Codec) {L : Type 0} (penalize : String → ℕ → L → Option L) (k : Clocks) where
  -- the queue of a state
  abbrev Keeps : Queue HandoffItem → Handoff L → Type 0
  Keeps q h = h.queue ≡ q

  queue-reopened :
      (r : Option SegmentStats × Store) (h : Handoff L)
      → (reopened c penalize k r h).1.queue ≡ h.queue
  unfolding submit_and_wait seal_write_op
  queue-reopened (none, s) h = refl
  queue-reopened (some x, s) h = refl

  queue-maybe_seal : (h : Handoff L) → (maybe_seal c penalize k h).1.queue ≡ h.queue
  unfolding maybe_seal
  queue-maybe_seal h =
      if_rule (λ (r : Bool × Handoff L). r.1.queue ≡ h.queue) (should_seal k.monotonic _)
        (λ e. queue-reopened _ _) (λ e. refl)

  queue-told :
      (item : HandoffItem) (r : Result Applied × (Dispatcher L × Conn)) (h : Handoff L)
      → (told c penalize item r h).1.queue ≡ h.queue
  queue-told item (err e, s) h = refl
  queue-told item (ok a, s) h = refl

  queue-finish :
      (item : HandoffItem) (l : BlobLocation) (r : Bool × Handoff L)
      → (finish c penalize k item l r).1.queue ≡ r.1.queue
  queue-finish item l (false, h) = refl
  queue-finish item l (true, h) = queue-told item _ h

  queue-stored :
      (item : HandoffItem) (o : Option BlobLocation) (h : Handoff L)
      → (stored c penalize k item o h).1.queue ≡ h.queue
  queue-stored item none h = refl
  queue-stored item (some l) h =
      queue-finish item l (maybe_seal c penalize k h) ∙ queue-maybe_seal h

  queue-archive_item :
      (item : HandoffItem) (h : Handoff L) → (archive_item c penalize k item h).1.queue ≡ h.queue
  unfolding archive_item
  queue-archive_item item h = queue-stored item _ _

  -- A pass that takes an item gives its bytes back to the budget of the queue, and takes nothing
  -- else from the queue, however the pass ends, also by an exception.
  pub process_one-frees :
      (item : HandoffItem) (h : Handoff L)
      → (get h.queue).0 ≡ popped item
      → (process_one c penalize k h).1.queue ≡ release (length item.content) (get h.queue).1
  unfolding process_one
  process_one-frees item h e = rw e (
      ap (release (length item.content))
        (queue-archive_item item (record h { queue = (get h.queue).1 })))

  -- the rows of `blobs`, which no step after `add` changes
  blobs-sealed :
      (r : Option SegmentStats × Store) (h : Handoff L)
      → (reopened c penalize k r h).1.conn.db.blobs ≡ h.conn.db.blobs
  unfolding seal_write_op submit_and_wait open_writer
  blobs-sealed (none, s) h = refl
  blobs-sealed (some x, s) h = refl

  blobs-maybe_seal : (h : Handoff L) → (maybe_seal c penalize k h).1.conn.db.blobs ≡ h.conn.db.blobs
  unfolding maybe_seal current_writer
  blobs-maybe_seal h =
      let kept = blobs-writer_or_open k.monotonic h.store.current h.conn.db h.store in
      if_rule (λ (r : Bool × Handoff L). r.1.conn.db.blobs ≡ h.conn.db.blobs)
        (should_seal k.monotonic _) (λ e. blobs-sealed _ _ ∙ kept) (λ e. kept)

  blobs-guarded :
      (r : Result (Unit {0})) (id : ℕ) (l : BlobLocation) (conn : Conn)
      → (guarded penalize r
          (ok_op fetch id
            (record { next_state = need_convert; write = blob_link_writer l.sha256 })
            k.now)
          conn).1.db.blobs
        ≡ conn.db.blobs
  unfolding ok_op submit_and_wait set_state delete_work blob_link_writer
  blobs-guarded (ok x) id l conn = refl
  blobs-guarded (err e) id l conn = refl

  blobs-linked :
      (item : HandoffItem) (l : BlobLocation) (d : Dispatcher L) (conn : Conn)
      → (apply_outcome penalize fetch item.queue_item
          (linked c penalize item l)
          k.now
          k.finished_at
          k.jitter
          (d, conn)).1.1.db.blobs
        ≡ conn.db.blobs
  unfolding apply_outcome write_outcome
  blobs-linked item l d conn =
      blobs-guarded (validate_transition item.queue_item.state need_convert) item.queue_item.id l
        conn

  blobs-told :
      (item : HandoffItem) (r : Result Applied × (Dispatcher L × Conn)) (h : Handoff L)
      → (told c penalize item r h).1.conn.db.blobs ≡ r.1.1.db.blobs
  blobs-told item (err e, (d, conn)) h = refl
  blobs-told item (ok a, (d, conn)) h = refl

  -- a pass that worked stored the item, and left the rows of `blobs` as `add` did
  stored_parts :
      (item : HandoffItem) (o : Option BlobLocation) (h : Handoff L)
      → (stored c penalize k item o h).0 ≡ worked
      → (l : BlobLocation) × (o ≡ some l)
        × ((stored c penalize k item o h).1.conn.db.blobs ≡ h.conn.db.blobs)
  stored_parts item none h e = absurd (cc)
  stored_parts item (some l) h e =
      (l, refl, finished (maybe_seal c penalize k h) e ∙ blobs-maybe_seal h)
    where
      finished :
          (r : Bool × Handoff L)
          → (finish c penalize k item l r).0 ≡ worked
          → (finish c penalize k item l r).1.conn.db.blobs ≡ r.1.conn.db.blobs
      finished (false, m) e = refl
      finished (true, m) e =
          blobs-told item
            (apply_outcome penalize fetch item.queue_item (linked c penalize item l) k.now
              k.finished_at k.jitter (m.dispatcher, m.conn))
            m
          ∙ blobs-linked item l m.dispatcher m.conn

  wheels-sealed :
      (r : Option SegmentStats × Store) (h : Handoff L)
      → (reopened c penalize k r h).1.conn.db.wheels ≡ h.conn.db.wheels
  unfolding seal_write_op submit_and_wait open_writer
  wheels-sealed (none, s) h = refl
  wheels-sealed (some x, s) h = refl

  wheels-maybe_seal :
      (h : Handoff L) → (maybe_seal c penalize k h).1.conn.db.wheels ≡ h.conn.db.wheels
  unfolding maybe_seal
  wheels-maybe_seal h =
      let kept = wheels-current_writer k.monotonic h.conn.db h.store in
      if_rule (λ (r : Bool × Handoff L). r.1.conn.db.wheels ≡ h.conn.db.wheels)
        (should_seal k.monotonic _) (λ e. wheels-sealed _ _ ∙ kept) (λ e. kept)

  -- the wheel of an item, with its blob
  abbrev pub HasBlob : ℕ → String → Db → Type 0
  HasBlob id sha db =
      (v : Wheel) × (wheel_at id db ≡ some v)
      × (v.state ≡ need_convert)
      × (v.blob_sha256 ≡ some sha)

  linked-guarded :
      (r : Result (Unit {0})) (id : ℕ) (l : BlobLocation) (conn : Conn) (w : Wheel)
      → wheel_at id conn.db ≡ some w
      → let (r', conn') =
          guarded penalize r
            (ok_op fetch id
              (record { next_state = need_convert; write = blob_link_writer l.sha256 })
              k.now)
            conn in
        (a : Applied) → r' ≡ ok a → HasBlob id l.sha256 conn'.db
  unfolding ok_op submit_and_wait set_state delete_work blob_link_writer
  linked-guarded (ok x) id l conn w there a e =
      let s = stated fetch id k.now conn w there need_convert in
      let mid = wheel_at-set_state_self id need_convert (suc conn.seq) k.now conn.db there in
      (_, blob_link_writer-row id s _ mid l.sha256, refl, refl)
  linked-guarded (err x) id l conn w there a e = absurd (cc)

  linked-applied :
      (item : HandoffItem) (l : BlobLocation) (d : Dispatcher L) (conn : Conn) (w : Wheel)
      → wheel_at item.queue_item.id conn.db ≡ some w
      → let (r, (d', conn')) =
          apply_outcome penalize fetch item.queue_item
            (linked c penalize item l)
            k.now
            k.finished_at
            k.jitter
            (d, conn) in
        (a : Applied) → r ≡ ok a → HasBlob item.queue_item.id l.sha256 conn'.db
  unfolding apply_outcome write_outcome
  linked-applied item l d conn w there a e =
      linked-guarded (validate_transition item.queue_item.state need_convert) item.queue_item.id l
        conn w there a e

  linked-told :
      (item : HandoffItem) (r : Result Applied × (Dispatcher L × Conn)) (h : Handoff L)
      (sha : String)
      → ((a : Applied) → r.0 ≡ ok a → HasBlob item.queue_item.id sha r.1.1.db)
      → (told c penalize item r h).0 ≡ worked
      → HasBlob item.queue_item.id sha (told c penalize item r h).1.conn.db
  linked-told item (err e, (d, conn)) h sha f w = absurd (cc)
  linked-told item (ok a, (d, conn)) h sha f w = f a refl

  linked-finish :
      (item : HandoffItem) (l : BlobLocation) (r : Bool × Handoff L) (w : Wheel)
      → wheel_at item.queue_item.id r.1.conn.db ≡ some w
      → (finish c penalize k item l r).0 ≡ worked
      → HasBlob item.queue_item.id l.sha256 (finish c penalize k item l r).1.conn.db
  linked-finish item l (false, h) w there e = absurd (cc)
  linked-finish item l (true, h) w there e =
      linked-told item _ h l.sha256 (linked-applied item l h.dispatcher h.conn w there) e

  linked-stored :
      (item : HandoffItem) (o : Option BlobLocation) (h : Handoff L) (l : BlobLocation) (w : Wheel)
      → o ≡ some l
      → wheel_at item.queue_item.id h.conn.db ≡ some w
      → (stored c penalize k item o h).0 ≡ worked
      → HasBlob item.queue_item.id l.sha256 (stored c penalize k item o h).1.conn.db
  linked-stored item none h l w same there e = absurd (cc)
  linked-stored item (some x) h l w same there e =
      let x_is : x ≡ l = ground arith in
      let sealed = maybe_seal c penalize k h in
      let kept = ap (find (has_id item.queue_item.id)) (wheels-maybe_seal h) ∙ there in
      subst
        (λ (y : BlobLocation).
          HasBlob item.queue_item.id y.sha256 (finish c penalize k item x sealed).1.conn.db)
        x_is (linked-finish item x sealed w kept e)

  -- A pass that ends well, for a wheel that is in the table: the wheel is in NEED_CONVERT and linked
  -- to the digest of the item's bytes, and `blobs` has a row for that digest.
  pub archive_item-links :
      (item : HandoffItem) (h : Handoff L) (w : Wheel)
      → wheel_at item.queue_item.id h.conn.db ≡ some w
      → (archive_item c penalize k item h).0 ≡ worked
      → let db = (archive_item c penalize k item h).1.conn.db in
        HasBlob item.queue_item.id (c.sha256 item.content) db
        × ((l : BlobLocation) × (location_for (c.sha256 item.content) db ≡ some l))
  unfolding archive_item
  archive_item-links item h w there e =
      let r = add_blob c item.content k.monotonic (h.conn.db, h.store) in
      let (l, returned, kept) = stored_parts item r.0 _ e in
      let there' =
        ap (find (has_id item.queue_item.id))
          (wheels-add_blob c item.content k.monotonic h.conn.db h.store)
        ∙ there in
      (
        rw (← add_blob_sha c item.content k.monotonic h.conn.db h.store l returned)
            (linked-stored item r.0 _ l w returned there' e),
        (
          first_of (location_for (c.sha256 item.content) h.conn.db) l,
          location_for_blobs (c.sha256 item.content) _ r.1.0 kept
              ∙ location_for-add_blob c item.content k.monotonic h.conn.db h.store l returned,
        ),
      )
