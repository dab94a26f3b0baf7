-- ===== src/Fetch/Queue/Budget.antt =====
-- Producers and consumers that keep the protocol of the queue: an item is put with its own size,
-- and a consumer releases the size of each item that it got, once.
use reroll_sync.Base.{
  ℕ, zero, suc, ◌+◌, ◌≤◌, ◌<◌, ◌≡◌, refl, true, List, [], ◌∷◌, ◌++◌, arith, length, max, sum_by,
  sum_by-append, Option, none, some, append_assoc, inl, inr, get_elem?, All, Option-cases,
  List-cases,
}
use reroll_sync.Fetch.Queue.{
  Queue, Put, Got, accepted, blocked, queue_closed, popped, make, put, get, release, close,
}

module _ {ℓ} {A : Type ℓ} where
  abbrev pub remove_at : ℕ → List A → List A
  remove_at i [] = []
  remove_at zero (x ∷ xs) = xs
  remove_at (suc i) (x ∷ xs) = x ∷ remove_at i xs

  sum_by-remove_at :
      (f : A → ℕ) (i : ℕ) (xs : List A) (x : A)
      → get_elem? xs i ≡ some x
      → sum_by f xs ≡ f x + sum_by f (remove_at i xs)
  sum_by-remove_at f i [] x e = ground arith
  sum_by-remove_at f zero (y ∷ ys) x e = ground arith
  sum_by-remove_at f (suc i) (y ∷ ys) x e = omega (arith, sum_by-remove_at f i ys x e)

-- The queue, the items that consumers hold, and all items ever accepted and ever popped.
pub record World {ℓ} (A : Type ℓ) : Type ℓ where
  pub queue : Queue A
  pub held : List A
  pub put_in : List A
  pub got : List A

-- One event of the protocol; `releases i` is by the consumer that holds the `i`-th of the items
-- that were popped and not yet released.
pub data Event {ℓ} (A : Type ℓ) : Type ℓ where
  puts : A → Event A
  gets : Event A
  releases : ℕ → Event A
  closes : Event A

module _ {ℓ} {A : Type ℓ} (size : A → ℕ) where
  abbrev on_put : A → Put × Queue A → World A → World A
  on_put a (accepted, q) w = record w { queue = q; put_in = w.put_in ++ (a ∷ []) }
  on_put a (_, q) w = record w { queue = q }

  abbrev on_get : Got A × Queue A → World A → World A
  on_get (popped a, q) w = record w { queue = q; held = a ∷ w.held; got = w.got ++ (a ∷ []) }
  on_get (_, q) w = record w { queue = q }

  abbrev on_release : ℕ → Option A → World A → World A
  on_release i none w = w
  on_release i (some a) w = record w { queue = release (size a) w.queue; held = remove_at i w.held }

  unfoldable pub serve : Event A → World A → World A
  serve (puts a) w = on_put a (put a (size a) w.queue) w
  serve gets w = on_get (get w.queue) w
  serve (releases i) w = on_release i (get_elem? w.held i) w
  serve closes w = record w { queue = close w.queue }

  unfoldable pub run : List (Event A) → World A → World A
  run [] w = w
  run (e ∷ es) w = run es (serve e w)

  -- The bytes charged are those of the items queued and held, and the items popped are those put,
  -- in order, up to the ones still queued.
  pub record IsBalanced (w : World A) : Type ℓ where
    pub balance :
        w.queue.charged ≡ w.queue.released + (sum_by size w.queue.items + sum_by size w.held)
    pub order : w.put_in ≡ w.got ++ w.queue.items

  put-IsBalanced : (a : A) (w : World A) → IsBalanced w → IsBalanced (serve (puts a) w)
  unfolding serve put
  put-IsBalanced a w h = record {
    balance = ground (arith, h.balance, sum_by-append size w.queue.items (a ∷ []));
    order = ground (arith, h.order, append_assoc w.got w.queue.items (a ∷ []));
  }

  get-IsBalanced : (w : World A) → IsBalanced w → IsBalanced (serve gets w)
  unfolding serve get
  get-IsBalanced w h = elim (List-cases w.queue.items) [
    | inl e ↦ record { balance = ground (arith, h.balance, e); order = ground (arith, h.order, e) }
    | inr (a, rest, e) ↦ record {
      balance = ground (arith, h.balance, e);
      order = ground (arith, h.order, e, append_assoc w.got (a ∷ []) rest);
    }
  ]

  release-IsBalanced : (i : ℕ) (w : World A) → IsBalanced w → IsBalanced (serve (releases i) w)
  unfolding serve release
  release-IsBalanced i w h = elim (Option-cases (get_elem? w.held i)) [
    | inl e ↦ rw e h
    | inr (a, e) ↦ rw e (record {
      balance = omega (arith, h.balance, sum_by-remove_at size i w.held a e);
      order = h.order;
    })
  ]

  serve-IsBalanced : (e : Event A) (w : World A) → IsBalanced w → IsBalanced (serve e w)
  unfolding serve close
  serve-IsBalanced (puts a) w h = put-IsBalanced a w h
  serve-IsBalanced gets w h = get-IsBalanced w h
  serve-IsBalanced (releases i) w h = release-IsBalanced i w h
  serve-IsBalanced closes w h = record { balance = h.balance; order = h.order }

  pub run-IsBalanced : (es : List (Event A)) (w : World A) → IsBalanced w → IsBalanced (run es w)
  unfolding run
  run-IsBalanced [] w h = h
  run-IsBalanced (e ∷ es) w h = run-IsBalanced es (serve e w) (serve-IsBalanced e w h)

  -- the items put have at most `m` bytes
  abbrev pub Fits : ℕ → Event A → Type 0
  Fits m (puts a) = size a ≤ m
  Fits m _ = Unit

  abbrev pub IsBounded : ℕ → World A → Type 0
  IsBounded m w = w.queue.charged ≤ w.queue.released + max w.queue.budget_bytes m

  serve-IsBounded :
      (m : ℕ) (e : Event A) (w : World A) → Fits m e → IsBounded m w → IsBounded m (serve e w)
  unfolding serve put get release close
  serve-IsBounded m e w f h = ground arith

  pub run-IsBounded :
      (m : ℕ) (es : List (Event A)) (w : World A)
      → All (Fits m) es
      → IsBounded m w
      → IsBounded m (run es w)
  unfolding run
  run-IsBounded m [] w f h = h
  run-IsBounded m (e ∷ es) w f h = run-IsBounded m es (serve e w) f.1 (serve-IsBounded m e w f.0 h)

  -- A producer waits only while an item is queued or in a consumer's hands.
  pub put_blocked :
      (a : A) (w : World A)
      → IsBalanced w
      → (put a (size a) w.queue).0 ≡ blocked
      → 0 < length w.queue.items + length w.held
  unfolding put
  put_blocked a w h e = elim (List-cases w.queue.items) [
    | inr (x, xs, i) ↦ rw i (omega arith)
    | inl i ↦ elim (List-cases w.held) [
      | inl j ↦ ground (arith, h.balance, i, j, e)
      | inr (x, xs, j) ↦ rw j (omega arith)
    ]
  ]

  -- No put succeeds once the queue is closed
  pub put_closed : (a : A) (q : Queue A) → q.closed ≡ true → put a (size a) q ≡ (queue_closed, q)
  unfolding put
  put_closed a q h = ground arith

  abbrev pub started : Queue A → World A
  started q = record { queue = q; held = []; put_in = []; got = [] }

  run-budget :
      (es : List (Event A)) (w : World A) → (run es w).queue.budget_bytes ≡ w.queue.budget_bytes
  unfolding run serve put get release close
  run-budget [] w = refl
  run-budget (puts a ∷ es) w = ground (arith, run-budget es (serve (puts a) w))
  run-budget (gets ∷ es) w = ground (arith, run-budget es (serve gets w))
  run-budget (releases i ∷ es) w = ground (arith, run-budget es (serve (releases i) w))
  run-budget (closes ∷ es) w = ground (arith, run-budget es (serve closes w))

  -- From a new queue, whatever the order of puts, gets, releases and the close, the bytes of the
  -- items that are queued or in a consumer's hands are at most the budget or the largest item put,
  -- and the items popped are the items put, in their order, up to those still queued.
  pub handoff_bounded :
      (budget m : ℕ) (q : Queue A) (es : List (Event A))
      → make budget ≡ some q
      → All (Fits m) es
      → let w = run es (started q) in
        (sum_by size w.queue.items + sum_by size w.held ≤ max budget m)
        × (w.put_in ≡ w.got ++ w.queue.items)
  unfolding make
  handoff_bounded budget m q es e f =
      let start = started q in
      let same = run-budget es start in
      let fresh : IsBalanced start = record {
        balance = ground (arith, e);
        order = ground (arith, e);
      } in
      let b = run-IsBalanced es start fresh in
      let low : IsBounded m start = ground (arith, e) in
      let bound = run-IsBounded m es start f low in
      let given : q.budget_bytes ≡ budget = ground (arith, e) in
      (omega (arith, b.balance, bound, same, given), b.order)
