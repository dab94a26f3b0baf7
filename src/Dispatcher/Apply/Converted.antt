-- ===== src/Dispatcher/Apply/Converted.antt =====
-- A finished conversion, from the outcome of the converter to the tables.
use reroll_sync.Base.{Option}
use reroll_sync.Base.{ℕ, suc, ◌≡◌, refl, ◌∙◌, ap, String, none, some}
use reroll_sync.Schema.{WheelState, need_convert, ready, is_allowed}
use reroll_sync.Sql.{find}
use reroll_sync.Db.{Conn, convert, Timestamp, Wheel, RepodataRow, ok, repodata_key}
use reroll_sync.Dispatcher.Outcome.{
  QueueItem, Ok, ConvertOk, convert_ok, adapt_convert_outcome, convert_ok_writer,
  validate_transition,
}
use reroll_sync.Dispatcher.Ops.{done, ok_op, delete_work}
use reroll_sync.Dispatcher.Ops.Rows.{wheel_at, work_at, wheel_at-set_state_self}
use reroll_sync.Dispatcher.Ops.Effects.{stated, ok_op-effect}
use reroll_sync.Dispatcher.Apply.{Dispatcher, write_outcome, apply_outcome}
use reroll_sync.Dispatcher.Apply.Legal.{apply_op-ok}
use reroll_sync.Dispatcher.Apply.Payloads.{convert_ok_writer-IsPayload, convert_ok_writer-repodata}

convert_legal : (s : WheelState) → s ≡ need_convert → validate_transition s ready ≡ ok tt
unfolding validate_transition is_allowed
convert_legal s e = rw e refl

-- what the payload wrote to `wheel_repodata` is there when the operation is done
repodata-ok_op :
    (id : ℕ) (o : Ok) (now : Timestamp) (c : Conn) (w : Wheel) (there : wheel_at id c.db ≡ some w)
    → let s = stated convert id now c w there o.next_state in
      (o.write id s).0 ≡ ok tt
      → (ok_op convert id o now c).1.db.wheel_repodata ≡ (o.write id s).1.db.wheel_repodata
unfolding ok_op delete_work
repodata-ok_op id o now c w there h = rw h refl

module _ {L : Type 0} (penalize : String → ℕ → L → Option L) where
  -- A wheel whose conversion succeeded is READY under a fresh sequence number, its repodata row
  -- holds the records, the version and the prerelease flag of the outcome, and no `work` row of the
  -- stage is left.
  pub apply_outcome_converts :
      (item : QueueItem) (o : ConvertOk) (now finished_at : Timestamp) (jitter : ℕ)
      (d : Dispatcher L) (c : Conn) (w : Wheel)
      → wheel_at item.id c.db ≡ some w
      → item.state ≡ need_convert
      → let outcome = adapt_convert_outcome d.reroll_version (convert_ok o) in
        let (r, (d', c')) =
          apply_outcome penalize convert item outcome now finished_at jitter (d, c) in
        (r ≡ ok done)
        × ((v : Wheel) × (wheel_at item.id c'.db ≡ some v)
            × (v.state ≡ ready)
            × (v.change_seq ≡ suc c.seq))
        × ((row : RepodataRow) × (find (repodata_key item.id) c'.db.wheel_repodata ≡ some row)
            × (row.repodata ≡ o.records)
            × (row.reroll_version ≡ d.reroll_version)
            × (row.requires_prerelease ≡ o.requires_prerelease))
        × (work_at item.id convert c'.db ≡ none)
  unfolding apply_outcome write_outcome adapt_convert_outcome
  apply_outcome_converts item o now finished_at jitter d c w there current =
      let s = stated convert item.id now c w there ready in
      let mid = wheel_at-set_state_self item.id ready (suc c.seq) now c.db there in
      let write = convert_ok_writer o d.reroll_version in
      let p = convert_ok_writer-IsPayload item.id s _ mid o d.reroll_version in
      let outcome : Ok = record { next_state = ready; write = write } in
      let eff = ok_op-effect convert item.id now c w there outcome p in
      let rep = convert_ok_writer-repodata item.id s _ mid o d.reroll_version in
      let kept = repodata-ok_op item.id outcome now c w there p.succeeds in
      rw
        (
          convert_legal item.state current,
          apply_op-ok (ok_op convert item.id outcome now) c done eff.0,
        )
        (
          eff.0,
          eff.1,
          (rep.0, ap (find (repodata_key item.id)) kept ∙ rep.1, rep.2, rep.3, rep.4),
          eff.2,
        )
