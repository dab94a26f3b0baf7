-- ===== src/Dispatcher/Ops/Effects.antt =====
-- What a finished and a refused wheel leave behind, for a wheel that is in the table.
use reroll_sync.Base.{ℕ, suc, ◌≡◌, refl, ◌∙◌, String, true, none, some, arith, if◌then◌else◌}
use reroll_sync.Schema.{WheelState, skipped}
use reroll_sync.Db.{Conn, Stage, Timestamp, Wheel, SkipRow, ErrorRow, ok, has_wheel, execute_insert}
use reroll_sync.Dispatcher.Outcome.{Ok, Skip, StagePayloadWriter}
use reroll_sync.Dispatcher.Ops.{
  done, set_state, delete_work, insert_error, upsert_skip, ok_op, skip_op,
}
use reroll_sync.Dispatcher.Ops.Rows.{
  wheel_at, work_at, skip_at, has_wheel-at, wheel_at-set_state_self, has_wheel-set_state,
  has_wheel-upsert_skip, work_at-delete_work, skip_at-upsert_skip, attributed,
}

-- What the docstring of `StagePayloadWriter` asks: the payload succeeds and touches neither the
-- `state` and `change_seq` of the wheel nor the sequence counter.
pub record IsPayload (write : StagePayloadWriter) (i : ℕ) (c : Conn) : Type 0 where
  pub succeeds : (write i c).0 ≡ ok tt
  pub keeps_seq : (write i c).1.seq ≡ c.seq
  pub keeps_state :
      (w : Wheel)
      → wheel_at i c.db ≡ some w
      → (v : Wheel) × (wheel_at i (write i c).1.db ≡ some v)
        × (v.state ≡ w.state)
        × (v.change_seq ≡ w.change_seq)

module _ (stage : Stage) (id : ℕ) (now : Timestamp) (c : Conn) (w : Wheel)
    (there : wheel_at id c.db ≡ some w) where
  -- after the first UPDATE of an operation
  abbrev pub stated : WheelState → Conn
  stated state = record { db = set_state id state (suc c.seq) now c.db; seq = suc c.seq }

  pub has_stated : (state : WheelState) → has_wheel id (stated state).db ≡ true
  has_stated state =
      has_wheel-set_state id state (suc c.seq) now c.db id ∙ has_wheel-at id c.db there

  -- the rows that `skip_op` inserts
  abbrev skip_row : Skip → SkipRow
  skip_row outcome = record {
    wheel_id = id;
    stage = stage;
    reason = outcome.reason;
    permanent = outcome.permanent;
    reroll_version = if outcome.permanent then none else outcome.reroll_version;
    created_at = now;
  }

  abbrev skip_error : Skip → String → ErrorRow
  skip_error outcome version = record {
    wheel_id = some id;
    error_category = outcome.reason;
    error_subcat = some outcome.subcategory;
    details = some outcome.details;
    reroll_version = version;
    created_at = now;
  }

  -- the tables after `skip_op`, and its result
  skip_op_run :
      (outcome : Skip) (version : String)
      → skip_op stage id outcome version now c ≡ (
        ok done,
        record {
          db = delete_work id stage (
              insert_error
                (skip_error outcome version)
                (upsert_skip (skip_row outcome) (stated skipped).db));
          seq = suc c.seq;
        },
      )
  unfolding skip_op execute_insert
  skip_op_run outcome version = rw (has_stated skipped) (
      rw (has_wheel-upsert_skip id (stated skipped).db (skip_row outcome))
        (rw (has_stated skipped)))

  -- A finished stage moves the wheel to the next state under a fresh sequence number, and leaves
  -- no `work` row of the stage.
  pub ok_op-effect :
      (outcome : Ok)
      → IsPayload outcome.write id (stated outcome.next_state)
      → let (r, c') = ok_op stage id outcome now c in
        (r ≡ ok done)
        × ((v : Wheel) × (wheel_at id c'.db ≡ some v)
            × (v.state ≡ outcome.next_state)
            × (v.change_seq ≡ suc c.seq))
        × (work_at id stage c'.db ≡ none)
        × (c'.seq ≡ suc c.seq)
  unfolding ok_op
  ok_op-effect outcome p =
      let s : Conn = stated outcome.next_state in
      let kept =
        p.keeps_state _
          (wheel_at-set_state_self id outcome.next_state (suc c.seq) now c.db there) in
      let after : Conn = (outcome.write id s).1 in
      rw p.succeeds (
        refl,
        (kept.0, unfold delete_work in kept.1, kept.2, kept.3),
        work_at-delete_work id stage after.db,
        p.keeps_seq,
      )

  -- A refused wheel is SKIPPED with a `skips` row that names a reroll version exactly if the skip
  -- is not permanent, one more `errors` row, and no `work` row of the stage.
  pub skip_op-effect :
      (outcome : Skip) (version : String)
      → let (r, c') = skip_op stage id outcome version now c in
        (r ≡ ok done)
        × (wheel_at id c'.db
            ≡ some (record w { state = skipped; change_seq = suc c.seq; updated_at = now }))
        × ((s : SkipRow) × (skip_at id stage c'.db ≡ some s)
            × (s.reason ≡ outcome.reason)
            × (s.permanent ≡ outcome.permanent)
            × (s.reroll_version ≡ (if outcome.permanent then none else outcome.reroll_version)))
        × (work_at id stage c'.db ≡ none)
  skip_op-effect outcome version = rw (skip_op_run outcome version) (
    refl,
    unfold delete_work insert_error upsert_skip in
        wheel_at-set_state_self id skipped (suc c.seq) now c.db there,
    (
      attributed (skip_row outcome) (skip_at id stage (stated skipped).db),
      unfold delete_work insert_error in skip_at-upsert_skip (skip_row outcome) (stated skipped).db,
      ground arith,
      ground arith,
      ground arith,
    ),
    work_at-delete_work id stage _,
  )
