-- ===== src/Dispatcher/Apply/Legal.antt =====
-- The states of a wheel before and after an outcome is applied.
use reroll_sync.Base.{Option}
use reroll_sync.Base.{
  ℕ, ◌+◌, ◌<◌, ◌≡◌, refl, ◌∙◌, ap, ◌⊎◌, inl, inr, String, true, false, some, arith, Bool-cases, ltb,
}
use reroll_sync.Schema.{WheelState, skipped, quarantined, is_allowed}
use reroll_sync.Sql.{find}
use reroll_sync.Db.{
  Result, Db, Conn, Stage, Timestamp, Wheel, ok, err, DbError, Write, illegal_transition, has_id,
}
use reroll_sync.Writer.{apply_op}
use reroll_sync.Dispatcher.Outcome.{
  QueueItem, Ok, Skip, Retry, Outcome, of_ok, of_skip, of_retry, of_rate_limited,
  validate_transition,
}
use reroll_sync.Dispatcher.Ops.{Applied, done, ok_op, skip_op, retry_op, quarantine, attempts}
use reroll_sync.Dispatcher.Ops.Rows.{wheel_at}
use reroll_sync.Dispatcher.Ops.Effects.{IsPayload, stated, ok_op-effect, skip_op-effect}
use reroll_sync.Dispatcher.Ops.Attempts.{retry_op_retries, retry_op_quarantines, retry_op_past}
use reroll_sync.Dispatcher.Apply.{Dispatcher, write_outcome, apply_outcome}

pub apply_op-ok :
    (op : Write Applied) (c : Conn) (r : Applied) → (op c).0 ≡ ok r → apply_op op c ≡ op c
unfolding apply_op
apply_op-ok op c r h = ground arith

apply_op-err :
    (op : Write Applied) (c : Conn) (e : DbError) → (op c).0 ≡ err e → (apply_op op c).1.db ≡ c.db
unfolding apply_op
apply_op-err op c e h = ground arith

validate_legal :
    (s t : WheelState)
    → ((is_allowed s t ≡ true) × (validate_transition s t ≡ ok tt))
      ⊎ ((is_allowed s t ≡ false) × (validate_transition s t ≡ err (illegal_transition s t)))
unfolding validate_transition
validate_legal s t = elim (Bool-cases (is_allowed s t)) [
  | inl e ↦ inl (e, rw e)
  | inr e ↦ inr (e, rw e)
]

-- The wheel is still there, in its old state or in one that the table of transitions allows.
abbrev pub Legal : ℕ → Wheel → Db → Type 0
Legal i w db =
    (v : Wheel) × (wheel_at i db ≡ some v)
    × ((v.state ≡ w.state) ⊎ (is_allowed w.state v.state ≡ true))

Legal-same : (i : ℕ) (w : Wheel) (db : Db) → wheel_at i db ≡ some w → Legal i w db
Legal-same i w db h = (w, h, inl refl)

module _ {L : Type 0} (penalize : String → ℕ → L → Option L) where
  module _ (stage : Stage) (item : QueueItem) (now finished_at : Timestamp) (jitter : ℕ)
      (d : Dispatcher L) (c : Conn) (w : Wheel) (there : wheel_at item.id c.db ≡ some w)
      (current : w.state ≡ item.state) where
    -- the payload of an `Ok`, where there is one, keeps to its contract
    abbrev pub HasPayload : Outcome → Type 0
    HasPayload (of_ok o) =
        IsPayload o.write item.id (stated stage item.id now c w there o.next_state)
    HasPayload _ = Unit {0}

    ok-Legal :
        (o : Ok)
        → IsPayload o.write item.id (stated stage item.id now c w there o.next_state)
        → Legal item.id w (write_outcome penalize stage item (of_ok o) now jitter d c).1.db
    unfolding write_outcome
    ok-Legal o p = elim (validate_legal item.state o.next_state) [
      | inl (e, v) ↦
          let eff = ok_op-effect stage item.id now c w there o p in
          rw (v, apply_op-ok (ok_op stage item.id o now) c done eff.0)
            (eff.1.0, eff.1.1, inr (rw (eff.1.2, current) e))
      | inr (e, v) ↦ rw v (Legal-same item.id w c.db there)
    ]

    skip-Legal :
        (o : Skip)
        → Legal item.id w (write_outcome penalize stage item (of_skip o) now jitter d c).1.db
    unfolding write_outcome
    skip-Legal o = elim (validate_legal item.state skipped) [
      | inl (e, v) ↦
          let eff = skip_op-effect stage item.id now c w there o d.reroll_version in
          rw (v, apply_op-ok (skip_op stage item.id o d.reroll_version now) c done eff.0)
            (_, eff.1, inr (rw current e))
      | inr (e, v) ↦ rw v (Legal-same item.id w c.db there)
    ]

    quarantine_refused :
        (o : Retry) (tries : ℕ)
        → is_allowed item.state quarantined ≡ false
        → (quarantine stage item o d.reroll_version now tries c).0
          ≡ err (illegal_transition item.state quarantined)
    unfolding quarantine validate_transition
    quarantine_refused o tries e = rw e

    abbrev retrying : Retry → Write Applied
    retrying o = retry_op stage item o d.max_attempts d.reroll_version now jitter

    retry-Legal_past :
        (o : Retry)
        → d.max_attempts < attempts item.id stage c.db + 1
        → Legal item.id w (apply_op (retrying o) c).1.db
    retry-Legal_past o h = elim (Bool-cases (is_allowed item.state quarantined)) [
      | inl e ↦
          let eff =
            retry_op_quarantines stage item now c w there o d.max_attempts d.reroll_version jitter e
              h in
          rw (apply_op-ok (retrying o) c _ eff.0) (_, eff.2, inr (rw current e))
      | inr e ↦
          let tries = attempts item.id stage c.db + 1 in
          let stuck =
            ap (λ (x : Result Applied × Conn). x.0)
              (retry_op_past stage item now c o d.max_attempts d.reroll_version jitter h)
            ∙ quarantine_refused o tries e in
          (
            w,
            ap (wheel_at item.id)
                  (apply_op-err (retrying o) c (illegal_transition item.state quarantined) stuck)
                ∙ there,
            inl refl,
          )
    ]

    retry-Legal : (o : Retry) → Legal item.id w (apply_op (retrying o) c).1.db
    retry-Legal o = elim (Bool-cases (ltb d.max_attempts (attempts item.id stage c.db + 1))) [
      | inl past ↦ retry-Legal_past o (ground arith)
      | inr within ↦
          let eff =
            retry_op_retries stage item now c w there o d.max_attempts d.reroll_version jitter
              (ground arith) in
          rw (apply_op-ok (retrying o) c _ eff.0)
            (w, ap (find (has_id item.id)) eff.2 ∙ there, inl refl)
    ]

    write-Legal :
        (o : Outcome)
        → HasPayload o
        → Legal item.id w (write_outcome penalize stage item o now jitter d c).1.db
    unfolding write_outcome
    write-Legal (of_ok o) p = ok-Legal o p
    write-Legal (of_skip o) p = skip-Legal o
    write-Legal (of_retry o) p = retry-Legal o
    write-Legal (of_rate_limited o) p = Legal-same item.id w c.db there

    -- Applying any outcome to an item whose wheel is in the state that the item names leaves the
    -- wheel in that state or moves it along an allowed transition, if the payload of an `Ok` does
    -- not touch the state.
    pub apply_outcome-Legal :
        (o : Outcome)
        → HasPayload o
        → Legal item.id w (apply_outcome penalize stage item o now finished_at jitter (d, c)).1.1.db
    unfolding apply_outcome
    apply_outcome-Legal o p = write-Legal o p
