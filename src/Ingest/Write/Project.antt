-- ===== src/Ingest/Write/Project.antt =====
-- The operation that writes a project's plan.
use reroll_sync.Base.{
  ℕ, suc, ◌+◌, ◌≤◌, ◌≡◌, refl, false, List, [], ◌∷◌, arith, length, if◌then◌else◌, String,
  text_eq_refl, any,
}
use reroll_sync.Sql.{find}
use reroll_sync.Sql.Laws.{find-upsert}
use reroll_sync.Db.{Db, Conn, Timestamp, ok, next_seq, pure}
use reroll_sync.Db.Laws.{bind_ok}
use reroll_sync.Ingest.Diff.{NewWheel, ChangedWheel}
use reroll_sync.Ingest.Plan.{ProjectPlan, has_filename}
use reroll_sync.Ingest.Stale.{is_behind}
use reroll_sync.Ingest.Write.{
  write_new, write_changed, write_vanished, upsert_index, is_index, project_op, ApplyResult,
  record_duplicate_filename, insert_wheel, update_wheel, tombstone,
}

pub write_new_runs :
    (project : String) (serial : ℕ) (version : String) (now : Timestamp) (ns : List NewWheel)
    (c : Conn)
    → let (r, c') = write_new project serial version now ns c in
      ((k : ℕ) × (r ≡ ok k) × (k ≤ length ns)) × (c'.seq ≡ c.seq + length ns)
unfolding write_new next_seq
write_new_runs project serial version now [] c = ((0, refl, omega arith), omega arith)
write_new_runs project serial version now (n ∷ ns) c =
    let taken = any (has_filename n.filename) c.db.wheels in
    let c' : Conn = record {
      db =
          if taken
          then record_duplicate_filename n.filename project version now c.db
          else insert_wheel project serial (suc c.seq) now n c.db;
      seq = suc c.seq;
    } in
    let ((k, e, le), s) = write_new_runs project serial version now ns c' in
    rw
      (bind_ok (write_new project serial version now ns)
        (λ rest. pure (if taken then rest else suc rest)) c' k e)
      ((if taken then k else suc k, refl, ground arith), omega (arith, s))

pub write_changed_runs :
    (now : Timestamp) (cs : List ChangedWheel) (c : Conn)
    → let (r, c') = write_changed now cs c in (r ≡ ok (length cs)) × (c'.seq ≡ c.seq + length cs)
unfolding write_changed next_seq
write_changed_runs now [] c = (refl, omega arith)
write_changed_runs now (x ∷ xs) c =
    let c' : Conn = record { db = update_wheel (suc c.seq) now x c.db; seq = suc c.seq } in
    ground (arith, write_changed_runs now xs c')

pub write_vanished_runs :
    (now : Timestamp) (ids : List ℕ) (c : Conn)
    → let (r, c') = write_vanished now ids c in
      (r ≡ ok (length ids)) × (c'.seq ≡ c.seq + length ids)
unfolding write_vanished next_seq
write_vanished_runs now [] c = (refl, omega arith)
write_vanished_runs now (x ∷ xs) c =
    let c' : Conn = record { db = tombstone (suc c.seq) now x c.db; seq = suc c.seq } in
    ground (arith, write_vanished_runs now xs c')

upsert_index_behind :
    (name : String) (serial : ℕ) (now : Timestamp) (db : Db)
    → is_behind serial (find (is_index name) (upsert_index name serial now db).pypi_index) ≡ false
unfolding upsert_index
upsert_index_behind name serial now db =
    rw
      (find-upsert (is_index name) (λ r. record r { serial = serial; updated_at = now })
        (record { name = name; serial = serial; updated_at = now }) (λ x h. h) (text_eq_refl name)
        db.pypi_index)
      (ground arith)

-- Writing a plan always succeeds. It takes one sequence number for each wheel of the plan, counts
-- every changed and vanished wheel and at most the new ones, and leaves the project stored at a serial
-- that the same index entry does not make stale again.
pub project_op_runs :
    (plan : ProjectPlan) (now : Timestamp) (version : String) (c : Conn)
    → let (r, c') = project_op plan now version c in
      ((a : ApplyResult) × (r ≡ ok a)
        × (a.inserted ≤ length plan.new_wheels)
        × (a.updated ≡ length plan.changed_wheels)
        × (a.tombstoned ≡ length plan.vanished_wheel_ids))
      × (c'.seq
          ≡ c.seq
            + length plan.new_wheels
            + length plan.changed_wheels
            + length plan.vanished_wheel_ids)
      × (is_behind plan.remote_serial (find (is_index plan.project) c'.db.pypi_index) ≡ false)
unfolding project_op
project_op_runs plan now version c =
    let new = write_new plan.project plan.remote_serial version now plan.new_wheels in
    let ((k, e1, le), s1) =
      write_new_runs plan.project plan.remote_serial version now plan.new_wheels c in
    let c1 = (new c).1 in
    let (e2, s2) = write_changed_runs now plan.changed_wheels c1 in
    let c2 = (write_changed now plan.changed_wheels c1).1 in
    let (e3, s3) = write_vanished_runs now plan.vanished_wheel_ids c2 in
    let c3 = (write_vanished now plan.vanished_wheel_ids c2).1 in
    rw (bind_ok new _ c k e1) (
      rw (bind_ok (write_changed now plan.changed_wheels) _ c1 (length plan.changed_wheels) e2) (
        rw
          (bind_ok (write_vanished now plan.vanished_wheel_ids) _ c2
            (length plan.vanished_wheel_ids) e3)
          (
            (_, refl, le, refl, refl),
            omega (arith, s1, s2, s3),
            upsert_index_behind plan.project plan.remote_serial now c3.db,
          )))
