-- ===== src/Writer.antt =====
-- src/reroll_sync/writer.py: how the writer thread applies a batch of operations.
--
-- An operation runs inside its own savepoint; a batch runs inside one transaction.
pub mod Batch
pub mod Loop
pub mod Turn
use reroll_sync.Base.{
  ℕ, suc, ◌+◌, Bool, true, false, List, [], ◌∷◌, ◌++◌, if◌then◌else◌, Option, none, some,
}
use reroll_sync.Db.{Db, Conn, Result, ok, err, Write, DbError, writer_stopped}

-- `Writer._apply_op`: on an exception ROLLBACK TO the savepoint, which restores the tables and not
-- the sequence counter of the writer object.
abbrev settle : {A : Type 0} → Db → Result A × Conn → Result A × Conn
settle before (ok a, c) = (ok a, c)
settle before (err e, c) = (err e, record c { db = before })

unfoldable pub apply_op : {A : Type 0} → Write A → Write A
apply_op op c = settle c.db (op c)

abbrev count_failure : {A : Type 0} → Result A → ℕ → ℕ
count_failure (ok a) n = n
count_failure (err e) n = suc n

-- The writer object: its connection and `_failed_ops`.
pub record Writer : Type 0 where
  pub conn : Conn
  pub failed_ops : ℕ

module _ {A : Type 0} where
  -- one operation of the batch, with its `_Outcome`
  unfoldable pub apply_next : Write A → Writer → Result A × Writer
  unfolding apply_op
  apply_next op w =
      let (r, c) = apply_op op w.conn in
      (r, record w { conn = c; failed_ops = count_failure r w.failed_ops })

  -- `Writer._commit_batch` between BEGIN and COMMIT
  unfoldable pub apply_batch : List (Write A) → Writer → List (Result A) × Writer
  apply_batch [] w = ([], w)
  apply_batch (op ∷ ops) w =
      let (r, w') = apply_next op w in let (rs, w'') = apply_batch ops w' in (r ∷ rs, w'')

  abbrev all_failed : DbError → List (Write A) → List (Result A)
  all_failed e [] = []
  all_failed e (op ∷ ops) = err e ∷ all_failed e ops

  -- `Writer._commit_batch` with its caller's handler: where COMMIT raises `e`, the transaction is
  -- gone with the closed connection, `_fail_fatally` resolves every operation of the batch with `e`
  -- and the writer stops.
  unfoldable pub commit_batch :
      Option DbError → List (Write A) → Writer → List (Result A) × Bool × Writer
  unfolding apply_batch
  commit_batch none ops w = let (rs, w') = apply_batch ops w in (rs, false, w')
  commit_batch (some e) ops w =
      let (rs, w') = apply_batch ops w in
      (all_failed e ops, true, record w' { conn = record w.conn { seq = w'.conn.seq } })

-- `Writer.submit_and_wait` as its caller sees it: the outcome of the operation, which ran in some
-- batch after everything that was submitted before it.
unfoldable pub submit_and_wait : {A : Type 0} → Write A → Write A
unfolding apply_op
submit_and_wait op = apply_op op
