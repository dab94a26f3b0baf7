-- ===== src/Sql.antt =====
-- SQL statements over one table, a table being the list of its rows: SELECT, UPDATE, DELETE and
-- INSERT ... ON CONFLICT DO UPDATE, as the statements in dispatcher.py, ingest.py, fetch.py and
-- daemon/unquarantine.py use them.
pub mod Laws
use reroll_sync.Base.{
  List, [], ◌∷◌, ◌++◌, Bool, Option, none, some, ℕ, zero, suc, ◌+◌, if◌then◌else◌,
}

module _ {ℓ} {A : Type ℓ} where
  -- SELECT ... WHERE `p`
  unfoldable pub select : (A → Bool) → List A → List A
  select p [] = []
  select p (x ∷ xs) = let rest = select p xs in if p x then x ∷ rest else rest

  -- DELETE ... WHERE `p`
  unfoldable pub delete : (A → Bool) → List A → List A
  delete p [] = []
  delete p (x ∷ xs) = let rest = delete p xs in if p x then rest else x ∷ rest

  -- UPDATE ... SET `f` WHERE `p`
  unfoldable pub update : (A → Bool) → (A → A) → List A → List A
  update p f [] = []
  update p f (x ∷ xs) = (if p x then f x else x) ∷ update p f xs

  -- the row that a key selects
  unfoldable pub find : (A → Bool) → List A → Option A
  find p [] = none
  find p (x ∷ xs) = if p x then some x else find p xs

  -- INSERT `new` ON CONFLICT (the key that `p` tests) DO UPDATE SET `f`
  unfoldable pub upsert : (A → Bool) → (A → A) → A → List A → List A
  upsert p f new [] = new ∷ []
  upsert p f new (x ∷ xs) = if p x then f x ∷ xs else x ∷ upsert p f new xs

  -- `cursor.rowcount` of an UPDATE
  unfoldable pub count : (A → Bool) → List A → ℕ
  count p [] = 0
  count p (x ∷ xs) = let rest = count p xs in if p x then suc rest else rest

  -- ORDER BY, where `lt` is the order of two rows
  unfoldable pub insert_by : (A → A → Bool) → A → List A → List A
  insert_by lt v [] = v ∷ []
  insert_by lt v (w ∷ ws) = if lt w v then w ∷ insert_by lt v ws else v ∷ w ∷ ws

  unfoldable pub order_by : (A → A → Bool) → List A → List A
  unfolding insert_by
  order_by lt [] = []
  order_by lt (w ∷ ws) = insert_by lt w (order_by lt ws)
