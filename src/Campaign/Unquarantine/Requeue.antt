-- ===== src/Campaign/Unquarantine/Requeue.antt =====
-- What one chunk does to the number of quarantined wheels.
use reroll_sync.Base.{
  ℕ, suc, ◌+◌, ◌≤◌, ◌<◌, ◌≡◌, ◌∙◌, refl, sym, Bool, true, not, ◌&&◌, List, [], ◌∷◌, arith, length,
  Option, inl, inr, All, Bool-cases, String, All-imp, take_short, take_head,
}
use reroll_sync.Sql.{select, update, count, delete}
use reroll_sync.Db.{Conn, Timestamp, Wheel, ok}
use reroll_sync.Dispatcher.Claim.{contains}
use reroll_sync.Writer.{submit_and_wait}
use reroll_sync.Campaign.Unquarantine.{
  is_quarantined, is_target, row_ids, chunk_rows, is_held, requeued, requeue_one, requeue_all,
  unquarantine_chunk_op,
}

-- the targets that a chunk leaves
abbrev pub is_left : Option String → List ℕ → Wheel → Bool
is_left project ids w = is_target project w && not (contains w.id ids)

is_left_step :
    (project : Option String) (id : ℕ) (ids : List ℕ) (seq : ℕ) (now : Timestamp) (xs : List Wheel)
    → count (is_left project ids) (update (is_held id) (requeued seq now) xs)
      ≡ count (is_left project (id ∷ ids)) xs
unfolding count update
is_left_step project id ids seq now [] = refl
is_left_step project id ids seq now (x ∷ xs) =
    ground (arith, is_left_step project id ids seq now xs)

pub is_left_none :
    (project : Option String) (xs : List Wheel)
    → count (is_left project []) xs ≡ count (is_target project) xs
unfolding count
is_left_none project [] = refl
is_left_none project (x ∷ xs) = ground (arith, is_left_none project xs)

pub requeue_all_left :
    (project : Option String) (ids : List ℕ) (now : Timestamp) (c : Conn)
    → count (is_target project) (requeue_all ids now c).1.db.wheels
      ≡ count (is_left project ids) c.db.wheels
unfolding requeue_all requeue_one
requeue_all_left project [] now c = sym (is_left_none project c.db.wheels)
requeue_all_left project (id ∷ ids) now c =
    requeue_all_left project ids now (requeue_one id now c).1
    ∙ is_left_step project id ids (suc c.seq) now c.db.wheels

requeue_one_count :
    (id : ℕ) (seq : ℕ) (now : Timestamp) (xs : List Wheel)
    → count (is_held id) xs + count is_quarantined (update (is_held id) (requeued seq now) xs)
      ≡ count is_quarantined xs
unfolding count update
requeue_one_count id seq now [] = refl
requeue_one_count id seq now (x ∷ xs) = ground (arith, requeue_one_count id seq now xs)

pub requeue_all-count :
    (ids : List ℕ) (now : Timestamp) (c : Conn)
    → (requeue_all ids now c).0 + count is_quarantined (requeue_all ids now c).1.db.wheels
      ≡ count is_quarantined c.db.wheels
unfolding requeue_all requeue_one
requeue_all-count [] now c = omega arith
requeue_all-count (id ∷ ids) now c = omega (
  arith,
  requeue_all-count ids now (requeue_one id now c).1,
  requeue_one_count id (suc c.seq) now c.db.wheels,
)

All-contains : (ws : List Wheel) → All (λ w. contains w.id (row_ids ws) ≡ true) ws
All-contains [] = tt
All-contains (w ∷ ws) = (ground arith, All-imp _ _ (λ v h. ground arith) ws (All-contains ws))

left_zero :
    (project : Option String) (ids : List ℕ) (xs : List Wheel)
    → All (λ w. contains w.id ids ≡ true) (select (is_target project) xs)
    → count (is_left project ids) xs ≡ 0
unfolding count select
left_zero project ids [] h = refl
left_zero project ids (x ∷ xs) h = elim (Bool-cases (is_target project x)) [
  | inl e ↦
      let h' : (contains x.id ids ≡ true)
          × All (λ w. contains w.id ids ≡ true) (select (is_target project) xs) =
        rw e at h in
      rw (e, h'.0) (left_zero project ids xs h'.1)
  | inr e ↦ rw e (left_zero project ids xs (rw e at h))
]

left_le :
    (project : Option String) (ids : List ℕ) (xs : List Wheel)
    → count (is_left project ids) xs ≤ count (is_target project) xs
unfolding count
left_le project ids [] = omega arith
left_le project ids (x ∷ xs) = ground (arith, left_le project ids xs)

left_fewer :
    (project : Option String) (ids : List ℕ) (xs : List Wheel) (y : Wheel) (ys : List Wheel)
    → select (is_target project) xs ≡ y ∷ ys
    → contains y.id ids ≡ true
    → count (is_left project ids) xs < count (is_target project) xs
unfolding count select
left_fewer project ids [] y ys e h = absurd (cc)
left_fewer project ids (x ∷ xs) y ys e h =
    ground (arith, left_fewer project ids xs y ys, left_le project ids xs)

-- One chunk: it counts the wheels that leave quarantine, a full one has a target fewer, a short one
-- leaves none.
module _ (project : Option String) (size : ℕ) (now : Timestamp) (c : Conn) where
  pub chunk_runs :
      (ids : List ℕ)
      → (n : ℕ) × (c' : Conn) × (submit_and_wait (unquarantine_chunk_op ids now) c ≡ (ok n, c'))
        × (count (is_target project) c'.db.wheels ≡ count (is_left project ids) c.db.wheels)
        × (n + count is_quarantined c'.db.wheels ≡ count is_quarantined c.db.wheels)
  unfolding submit_and_wait unquarantine_chunk_op
  chunk_runs ids =
      let c0 : Conn = record c {
        db = record c.db { work = delete (λ r. contains r.wheel_id ids) c.db.work };
      } in
      (
        (requeue_all ids now c0).0,
        (requeue_all ids now c0).1,
        refl,
        requeue_all_left project ids now c0,
        requeue_all-count ids now c0,
      )

  pub chunk_fewer :
      (y : Wheel) (ys : List Wheel)
      → chunk_rows project size c.db ≡ y ∷ ys
      → count (is_left project (row_ids (chunk_rows project size c.db))) c.db.wheels
        < count (is_target project) c.db.wheels
  unfolding chunk_rows
  chunk_fewer y ys e =
      let (zs, same) = take_head size (select (is_target project) c.db.wheels) y ys e in
      left_fewer project (row_ids (chunk_rows project size c.db)) c.db.wheels y zs same
        (rw e (ground arith))

  pub chunk_last :
      length (chunk_rows project size c.db) < size
      → count (is_left project (row_ids (chunk_rows project size c.db))) c.db.wheels ≡ 0
  unfolding chunk_rows
  chunk_last h =
      let rows = select (is_target project) c.db.wheels in
      rw (take_short size rows h) (left_zero project (row_ids rows) c.db.wheels (All-contains rows))
