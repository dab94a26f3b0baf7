-- ===== src/Fetch/Queue.antt =====
-- fetch.py: `ByteBudgetedQueue`. A method that waits on a condition variable is one pass of its
-- loop, at the call or at a wake-up: it goes through, it fails, or it has to wait again.
--
-- `_current_bytes` is the difference of two counters, what was charged and what was released, so
-- that no subtraction is cut off at zero.
pub mod Budget
mod Tests
use reroll_sync.Base.{
  ℕ, ◌+◌, Bool, true, false, not, Option, none, some, List, [], ◌∷◌, ◌++◌, ltb, ◌==◌, ◌&&◌,
  if◌then◌else◌,
}

pub record Queue {ℓ} (A : Type ℓ) : Type ℓ where
  pub budget_bytes : ℕ
  pub items : List A
  pub charged : ℕ
  pub released : ℕ
  pub closed : Bool

-- How a pass of `put` ends; `queue_closed` is the exception `QueueClosed`.
pub data Put : Type 0 where
  accepted blocked queue_closed : Put

-- How a pass of `get` ends; `drained` is the result `None`.
pub data Got {ℓ} (A : Type ℓ) : Type ℓ where
  popped : A → Got A
  empty : Got A
  drained : Got A

module _ {ℓ} {A : Type ℓ} where
  -- `__init__`; `none` is its `ValueError`
  unfoldable pub make : ℕ → Option (Queue A)
  make budget =
      if budget == 0
      then none
      else some
          (record { budget_bytes = budget; items = []; charged = 0; released = 0; closed = false })

  -- `_current_bytes > 0`
  abbrev pub holds_bytes : Queue A → Bool
  holds_bytes q = ltb q.released q.charged

  -- `_current_bytes + size > _budget_bytes`
  abbrev pub exceeds : ℕ → Queue A → Bool
  exceeds size q = ltb (q.budget_bytes + q.released) (q.charged + size)

  unfoldable pub put : A → ℕ → Queue A → Put × Queue A
  put item size q =
      if not q.closed && (holds_bytes q && exceeds size q)
      then (blocked, q)
      else (if q.closed
          then (queue_closed, q)
          else (accepted, record q { items = q.items ++ (item ∷ []); charged = q.charged + size }))

  abbrev no_item : Bool → Got A
  no_item true = drained
  no_item false = empty

  unfoldable pub get : Queue A → Got A × Queue A
  get q = elim q.items [
    | [] ↦ (no_item q.closed, q)
    | item ∷ rest ↦ (popped item, record q { items = rest })
  ]

  unfoldable pub release : ℕ → Queue A → Queue A
  release size q = record q { released = q.released + size }

  unfoldable pub close : Queue A → Queue A
  close q = record q { closed = true }
