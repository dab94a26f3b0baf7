-- ===== src/Writer/Batch.antt =====
-- Batches of operations: their outcomes, the tables after them, and the sequence counter.
use reroll_sync.Base.{
  ℕ, suc, ◌+◌, ◌≤◌, ◌≡◌, refl, List, [], ◌∷◌, ◌++◌, length, arith, All, some, ap,
}
use reroll_sync.Db.{Conn, Result, ok, err, Write, DbError}
use reroll_sync.Writer.{Writer, all_failed, apply_op, apply_next, apply_batch, commit_batch}

-- `op` takes numbers from the counter and never gives one back.
abbrev pub Monotone : {A : Type 0} → Write A → Type 0
Monotone op = (c : Conn) → c.seq ≤ (op c).1.seq

abbrev pub failures : {A : Type 0} → List (Result A) → ℕ
failures [] = 0
failures (ok a ∷ rs) = failures rs
failures (err e ∷ rs) = suc (failures rs)

pub apply_op-failed :
    {A : Type 0} (op : Write A) (c : Conn) (e : DbError)
    → (op c).0 ≡ err e
    → ((apply_op op c).0 ≡ err e) × ((apply_op op c).1.db ≡ c.db)
unfolding apply_op
apply_op-failed op c e h = (ground arith, ground arith)

seq-apply_op : {A : Type 0} (op : Write A) (c : Conn) → (apply_op op c).1.seq ≡ (op c).1.seq
unfolding apply_op
seq-apply_op op c = ground arith

module _ {A : Type 0} where
  -- Where the thread cuts the queue into batches does not show in the outcomes nor in the tables.
  pub apply_batch-append :
      (xs ys : List (Write A)) (w : Writer)
      → apply_batch (xs ++ ys) w ≡ (
        (apply_batch xs w).0 ++ (apply_batch ys (apply_batch xs w).1).0,
        (apply_batch ys (apply_batch xs w).1).1,
      )
  unfolding apply_batch
  apply_batch-append [] ys w = refl
  apply_batch-append (x ∷ xs) ys w = let w' = (apply_next x w).1 in rw (apply_batch-append xs ys w')

  pub length-apply_batch :
      (ops : List (Write A)) (w : Writer) → length (apply_batch ops w).0 ≡ length ops
  unfolding apply_batch
  length-apply_batch [] w = refl
  length-apply_batch (op ∷ ops) w = ap suc (length-apply_batch ops (apply_next op w).1)

  failed_ops-apply_next :
      (op : Write A) (w : Writer)
      → (apply_next op w).1.failed_ops ≡ failures ((apply_next op w).0 ∷ []) + w.failed_ops
  unfolding apply_next
  failed_ops-apply_next op w = ground arith

  failures-cons :
      (r : Result A) (rs : List (Result A)) → failures (r ∷ rs) ≡ failures (r ∷ []) + failures rs
  failures-cons (ok a) rs = omega arith
  failures-cons (err e) rs = omega arith

  -- `failed_ops` counts exactly the operations that ended in an exception.
  pub failed_ops-apply_batch :
      (ops : List (Write A)) (w : Writer)
      → (apply_batch ops w).1.failed_ops ≡ failures (apply_batch ops w).0 + w.failed_ops
  unfolding apply_batch
  failed_ops-apply_batch [] w = omega arith
  failed_ops-apply_batch (op ∷ ops) w =
      let (r, w') = apply_next op w in
      omega (
        arith,
        failed_ops-apply_batch ops w',
        failed_ops-apply_next op w,
        failures-cons r (apply_batch ops w').0,
      )

  -- A batch whose operations only take numbers moves the counter forward, failures included.
  pub seq-apply_batch :
      (ops : List (Write A)) (w : Writer)
      → All Monotone ops
      → w.conn.seq ≤ (apply_batch ops w).1.conn.seq
  unfolding apply_batch apply_next
  seq-apply_batch [] w h = omega arith
  seq-apply_batch (op ∷ ops) w h =
      omega (arith, h.0 w.conn, seq-apply_op op w.conn, seq-apply_batch ops (apply_next op w).1 h.1)

  -- A failed COMMIT stops the writer with the tables as they were before the batch.
  pub commit_batch-fatal :
      (e : DbError) (ops : List (Write A)) (w : Writer)
      → let (rs, stopped, w') = commit_batch (some e) ops w in
        (w'.conn.db ≡ w.conn.db) × (length rs ≡ length ops) × (failures rs ≡ length ops)
  unfolding commit_batch
  commit_batch-fatal e ops w = (refl, all_failed_length ops, all_failed_failures ops)
    where
      all_failed_length : (xs : List (Write A)) → length (all_failed e xs) ≡ length xs
      all_failed_length [] = refl
      all_failed_length (x ∷ xs) = ap suc (all_failed_length xs)

      all_failed_failures : (xs : List (Write A)) → failures (all_failed e xs) ≡ length xs
      all_failed_failures [] = refl
      all_failed_failures (x ∷ xs) = ap suc (all_failed_failures xs)
