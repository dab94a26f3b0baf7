-- ===== src/Ingest/Write/Synced.antt =====
-- What the operation that writes a plan leaves of a row that the page changes or no longer lists.
use reroll_sync.Base.{
  ℕ, suc, ◌≡◌, ◌≢◌, refl, ◌∙◌, Bool, true, false, List, [], ◌∷◌, ◌++◌, arith, length, none, some,
  inl, inr, All, if◌then◌else◌, String, any, subst, text_eq_refl, Option-cases,
}
use reroll_sync.Sql.{find}
use reroll_sync.Sql.Laws.{find-update, find-update_ne, find-upsert}
use reroll_sync.Db.{Db, Conn, Timestamp, Wheel, ok, next_seq, pure, has_id, IndexRow}
use reroll_sync.Db.Laws.{bind_ok}
use reroll_sync.Dispatcher.Ops.{insert_error}
use reroll_sync.Ingest.Diff.{
  set_deleted_at, set_state, set_url, set_wheel_sha256, set_metadata_sha256, set_size,
  set_upload_time, set_requires_python, set_yanked, set_yanked_reason, set_blob_sha256,
  set_conda_name, ProjectFile, NewWheel, ChangedWheel, Change, assign, assign_all, diff_common,
}
use reroll_sync.Ingest.Diff.Converges.{Agrees, refresh, refresh-Agrees, diff_common-Agrees}
use reroll_sync.Ingest.Plan.{ProjectPlan, has_filename}
use reroll_sync.Ingest.Write.{
  write_new, write_changed, write_vanished, upsert_index, is_index, project_op, ApplyResult,
  record_duplicate_filename, insert_wheel, update_wheel, tombstone,
}
use reroll_sync.Ingest.Write.Project.{write_new_runs, write_changed_runs, write_vanished_runs}

find-append :
    {A : Type 0} (p : A → Bool) (xs ys : List A) (a : A)
    → find p xs ≡ some a
    → find p (xs ++ ys) ≡ some a
unfolding find
find-append p [] ys a e = absurd (cc)
find-append p (x ∷ xs) ys a e = ground (arith, find-append p xs ys a)

id-assign : (c : Change) (w : Wheel) → (assign c w).id ≡ w.id
unfolding assign
id-assign (set_deleted_at v) w = refl
id-assign (set_state v) w = refl
id-assign (set_url v) w = refl
id-assign (set_wheel_sha256 v) w = refl
id-assign (set_metadata_sha256 v) w = refl
id-assign (set_size v) w = refl
id-assign (set_upload_time v) w = refl
id-assign (set_requires_python v) w = refl
id-assign (set_yanked v) w = refl
id-assign (set_yanked_reason v) w = refl
id-assign (set_blob_sha256 v) w = refl
id-assign (set_conda_name v) w = refl

id-assign_all : (cs : List Change) (w : Wheel) → (assign_all cs w).id ≡ w.id
unfolding assign_all assign
id-assign_all [] w = refl
id-assign_all (c ∷ cs) w = id-assign_all cs (assign c w) ∙ id-assign c w

abbrev WheelIs : ℕ → Wheel → Conn → Type 0
WheelIs i w c = find (has_id i) c.db.wheels ≡ some w

either_keeps :
    (i : ℕ) (w : Wheel) (taken : Bool) (db db' : Db)
    → find (has_id i) db.wheels ≡ some w
    → find (has_id i) db'.wheels ≡ some w
    → find (has_id i) (if taken then db else db').wheels ≡ some w
either_keeps i w true db db' h k = h
either_keeps i w false db db' h k = k

write_new_keeps :
    (project : String) (serial : ℕ) (version : String) (now : Timestamp) (ns : List NewWheel)
    (c : Conn) (i : ℕ) (w : Wheel)
    → WheelIs i w c
    → WheelIs i w (write_new project serial version now ns c).1
unfolding write_new next_seq record_duplicate_filename insert_wheel insert_error
write_new_keeps project serial version now [] c i w h = h
write_new_keeps project serial version now (n ∷ ns) c i w h =
    let taken = any (has_filename n.filename) c.db.wheels in
    let c' : Conn = record {
      db =
          if taken
          then record_duplicate_filename n.filename project version now c.db
          else insert_wheel project serial (suc c.seq) now n c.db;
      seq = suc c.seq;
    } in
    let ((k, e, _), _) = write_new_runs project serial version now ns c' in
    rw
      (bind_ok (write_new project serial version now ns)
        (λ rest. pure (if taken then rest else suc rest)) c' k e)
      (write_new_keeps project serial version now ns c' i w
        (either_keeps i w taken _ _ h (find-append (has_id i) c.db.wheels _ w h)))

-- the row that an UPDATE of a change leaves
abbrev refreshed : ℕ → Timestamp → ChangedWheel → Wheel → Wheel
refreshed seq now x w = record (assign_all x.changes w) { change_seq = seq; updated_at = now }

update_other :
    (seq : ℕ) (now : Timestamp) (x : ChangedWheel) (db : Db) (i : ℕ)
    → x.wheel_id ≢ i
    → find (has_id i) (update_wheel seq now x db).wheels ≡ find (has_id i) db.wheels
unfolding update_wheel
update_other seq now x db i ne =
    find-update_ne (has_id i) (has_id x.wheel_id) (refreshed seq now x) (λ w e. ground arith)
      (λ w e. ground (arith, id-assign_all x.changes w)) db.wheels

tombstone_other :
    (seq : ℕ) (now : Timestamp) (j : ℕ) (db : Db) (i : ℕ)
    → j ≢ i
    → find (has_id i) (tombstone seq now j db).wheels ≡ find (has_id i) db.wheels
unfolding tombstone
tombstone_other seq now j db i ne =
    find-update_ne (has_id i) (has_id j) _ (λ w e. ground arith) (λ w e. ground arith) db.wheels

write_vanished_keeps :
    (now : Timestamp) (ids : List ℕ) (c : Conn) (i : ℕ) (w : Wheel)
    → All (λ j. j ≢ i) ids
    → WheelIs i w c
    → WheelIs i w (write_vanished now ids c).1
unfolding write_vanished next_seq
write_vanished_keeps now [] c i w ne h = h
write_vanished_keeps now (j ∷ js) c i w ne h =
    let c' : Conn = record { db = tombstone (suc c.seq) now j c.db; seq = suc c.seq } in
    rw
      (bind_ok (write_vanished now js) (λ rest. pure (suc rest)) c' (length js)
        (write_vanished_runs now js c').0)
      (write_vanished_keeps now js c' i w ne.1 (tombstone_other (suc c.seq) now j c.db i ne.0 ∙ h))

write_changed_keeps :
    (now : Timestamp) (xs : List ChangedWheel) (c : Conn) (i : ℕ) (w : Wheel)
    → All (λ (x : ChangedWheel). x.wheel_id ≢ i) xs
    → WheelIs i w c
    → WheelIs i w (write_changed now xs c).1
unfolding write_changed next_seq
write_changed_keeps now [] c i w ne h = h
write_changed_keeps now (x ∷ xs) c i w ne h =
    let c' : Conn = record { db = update_wheel (suc c.seq) now x c.db; seq = suc c.seq } in
    rw
      (bind_ok (write_changed now xs) (λ rest. pure (suc rest)) c' (length xs)
        (write_changed_runs now xs c').0)
      (write_changed_keeps now xs c' i w ne.1 (update_other (suc c.seq) now x c.db i ne.0 ∙ h))

updated_row :
    (seq : ℕ) (now : Timestamp) (x : ChangedWheel) (db : Db) (w : Wheel)
    → find (has_id x.wheel_id) db.wheels ≡ some w
    → find (has_id x.wheel_id) (update_wheel seq now x db).wheels ≡ some (refreshed seq now x w)
unfolding update_wheel
updated_row seq now x db w h =
    rw
      (find-update (has_id x.wheel_id) (refreshed seq now x)
        (λ v e. ground (arith, id-assign_all x.changes v)) db.wheels)
      (rw h refl)

-- the change of one wheel, among changes of others
write_changed_writes :
    (now : Timestamp) (before after : List ChangedWheel) (x : ChangedWheel) (c : Conn) (w : Wheel)
    → All (λ (y : ChangedWheel). y.wheel_id ≢ x.wheel_id) before
    → All (λ (y : ChangedWheel). y.wheel_id ≢ x.wheel_id) after
    → WheelIs x.wheel_id w c
    → (seq : ℕ) × WheelIs x.wheel_id
        (refreshed seq now x w)
        (write_changed now (before ++ x ∷ after) c).1
unfolding write_changed next_seq
write_changed_writes now [] after x c w ne1 ne2 h =
    let c' : Conn = record { db = update_wheel (suc c.seq) now x c.db; seq = suc c.seq } in
    (
      suc c.seq,
      rw
          (bind_ok (write_changed now after) (λ rest. pure (suc rest)) c' (length after)
            (write_changed_runs now after c').0)
          (write_changed_keeps now after c' x.wheel_id _ ne2
            (updated_row (suc c.seq) now x c.db w h)),
    )
write_changed_writes now (y ∷ ys) after x c w ne1 ne2 h =
    let c' : Conn = record { db = update_wheel (suc c.seq) now y c.db; seq = suc c.seq } in
    rw
      (bind_ok (write_changed now (ys ++ x ∷ after)) (λ rest. pure (suc rest)) c'
        (length (ys ++ x ∷ after)) (write_changed_runs now (ys ++ x ∷ after) c').0)
      (write_changed_writes now ys after x c' w ne1.1 ne2
        (update_other (suc c.seq) now y c.db x.wheel_id ne1.0 ∙ h))

-- the columns that the page has are not those that the UPDATE sets besides
Agrees-numbered :
    (w : Wheel) (file : ProjectFile) (seq : ℕ) (now : Timestamp)
    → Agrees w file
    → Agrees (record w { change_seq = seq; updated_at = now }) file
Agrees-numbered w file seq now g = record {
  live = g.live;
  same_url = g.same_url;
  same_wheel_sha256 = g.same_wheel_sha256;
  same_metadata_sha256 = g.same_metadata_sha256;
  same_size = g.same_size;
  same_upload_time = g.same_upload_time;
  same_requires_python = g.same_requires_python;
  same_yank = g.same_yank;
  same_yanked_reason = g.same_yanked_reason;
  no_mismatch = g.no_mismatch;
  no_sidecar_left = g.no_sidecar_left;
}

refreshed-Agrees :
    (seq : ℕ) (now : Timestamp) (x : ChangedWheel) (w : Wheel) (file : ProjectFile)
    → diff_common w file ≡ some x
    → Agrees (refreshed seq now x w) file
unfolding refresh
refreshed-Agrees seq now x w file e =
    Agrees-numbered (assign_all x.changes w) file seq now
      (subst (λ u. Agrees u file) (rw (refresh, e) refl) (refresh-Agrees w file))

index_written :
    (name : String) (serial : ℕ) (now : Timestamp) (db : Db)
    → (r : IndexRow) × (find (is_index name) (upsert_index name serial now db).pypi_index ≡ some r)
      × (r.serial ≡ serial)
unfolding upsert_index
index_written name serial now db =
    let update : IndexRow → IndexRow = λ r. record r { serial = serial; updated_at = now } in
    let new : IndexRow = record { name = name; serial = serial; updated_at = now } in
    let found =
      find-upsert (is_index name) update new (λ x h. h) (text_eq_refl name) db.pypi_index in
    elim (Option-cases (find (is_index name) db.pypi_index)) [
      | inl e ↦ (new, rw e at found, refl)
      | inr (r, e) ↦ (update r, rw e at found, refl)
    ]

-- Writing a plan always succeeds. A row of a wheel that the page changes, where the plan has that
-- change and no other entry for the wheel, then says what the page says, so that the next comparison
-- with the same page finds nothing to change; and the project is stored with the serial of the page.
pub project_op-Agrees :
    (plan : ProjectPlan) (now : Timestamp) (version : String) (c : Conn)
    (before after : List ChangedWheel) (x : ChangedWheel) (w : Wheel) (file : ProjectFile)
    → plan.changed_wheels ≡ before ++ x ∷ after
    → All (λ (y : ChangedWheel). y.wheel_id ≢ x.wheel_id) before
    → All (λ (y : ChangedWheel). y.wheel_id ≢ x.wheel_id) after
    → All (λ j. j ≢ x.wheel_id) plan.vanished_wheel_ids
    → find (has_id x.wheel_id) c.db.wheels ≡ some w
    → diff_common w file ≡ some x
    → let (r, c') = project_op plan now version c in
      ((a : ApplyResult) × (r ≡ ok a))
      × ((v : Wheel) × (find (has_id x.wheel_id) c'.db.wheels ≡ some v)
          × Agrees v file
          × (diff_common v file ≡ none))
      × ((r : IndexRow) × (find (is_index plan.project) c'.db.pypi_index ≡ some r)
          × (r.serial ≡ plan.remote_serial))
unfolding project_op upsert_index
project_op-Agrees plan now version c before after x w file listed ne1 ne2 live there diff =
    let new = write_new plan.project plan.remote_serial version now plan.new_wheels in
    let ((k, e1, _), _) =
      write_new_runs plan.project plan.remote_serial version now plan.new_wheels c in
    let c1 = (new c).1 in
    let (e2, _) = write_changed_runs now plan.changed_wheels c1 in
    let c2 = (write_changed now plan.changed_wheels c1).1 in
    let (e3, _) = write_vanished_runs now plan.vanished_wheel_ids c2 in
    let c3 = (write_vanished now plan.vanished_wheel_ids c2).1 in
    let kept =
      write_new_keeps plan.project plan.remote_serial version now plan.new_wheels c _ w there in
    let (seq, written) = write_changed_writes now before after x c1 w ne1 ne2 kept in
    let v = refreshed seq now x w in
    let at2 : WheelIs x.wheel_id v c2 = rw listed written in
    let at3 = write_vanished_keeps now plan.vanished_wheel_ids c2 x.wheel_id v live at2 in
    let agrees = refreshed-Agrees seq now x w file diff in
    rw (bind_ok new _ c k e1) (
      rw (bind_ok (write_changed now plan.changed_wheels) _ c1 (length plan.changed_wheels) e2) (
        rw
          (bind_ok (write_vanished now plan.vanished_wheel_ids) _ c2
            (length plan.vanished_wheel_ids) e3)
          (
            (_, refl),
            (v, at3, agrees, (diff_common-Agrees v file).1 agrees),
            index_written plan.project plan.remote_serial now c3.db,
          )))
