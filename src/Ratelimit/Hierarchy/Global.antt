-- ===== src/Ratelimit/Hierarchy/Global.antt =====
-- The shared bucket, the reserve of a child, and refused requests.
use reroll_sync.Base.{
  ℕ, ◌+◌, ◌*◌, ◌≤◌, ◌≡◌, ap, Bool, true, false, none, List, [], ◌∷◌, arith, if◌then◌else◌,
}
use reroll_sync.Ratelimit.Bucket.{Bucket, refill, try_take, return_tokens, is_penalized, make}
use reroll_sync.Ratelimit.Bucket.Rate.{Within, no_time, credit, credit_later}
use reroll_sync.Ratelimit.Hierarchy.{take_locked}

-- one request of `n` units, `gap` microseconds after the one before, for a child whose bucket and
-- whose siblings' idleness may be anything
pub record Request : Type 0 where
  pub gap : ℕ
  pub n : ℕ
  pub idle : Bool
  pub child : Bucket

-- the units granted over a sequence of requests that share the global bucket
unfoldable pub granted_total : ℕ → List Request → Bucket → ℕ
granted_total now [] total = 0
granted_total now (r ∷ rs) total =
    let (taken, child, total') = take_locked r.idle r.n (now + r.gap) r.child total in
    (if taken then r.n else 0) + granted_total (now + r.gap) rs total'

unfoldable pub elapsed : List Request → ℕ
elapsed [] = 0
elapsed (r ∷ rs) = r.gap + elapsed rs

take_credit :
    (n now : ℕ) (b : Bucket)
    → b.last_refill ≤ now
    → let (taken, b') = try_take n now b in
      ((if taken then n else 0) + credit now b' ≤ credit now b)
      × (b'.rate ≡ b.rate)
      × (b'.last_refill ≤ now)
unfolding try_take
take_credit n now b h = ground (arith, no_time now b.rate)

locked_credit :
    (idle : Bool) (n now : ℕ) (child total : Bucket)
    → total.last_refill ≤ now
    → let (taken, child', total') = take_locked idle n now child total in
      ((if taken then n else 0) + credit now total' ≤ credit now total)
      × (total'.rate ≡ total.rate)
      × (total'.last_refill ≤ now)
unfolding take_locked
locked_credit idle n now child total h = ground (arith, take_credit n now total h)

granted_total-credit :
    (now : ℕ) (rs : List Request) (total : Bucket)
    → total.last_refill ≤ now
    → granted_total now rs total ≤ credit now total + elapsed rs * total.rate
unfolding granted_total elapsed
granted_total-credit now [] total h = omega arith
granted_total-credit now (r ∷ rs) total h =
    let later = now + r.gap in
    let ahead : total.last_refill ≤ later = omega arith in
    let (grant, same_rate, ahead') = locked_credit r.idle r.n later r.child total ahead in
    let total' = (take_locked r.idle r.n later r.child total).2 in
    omega (
      arith,
      credit_later now r.gap total h,
      grant,
      same_rate,
      granted_total-credit later rs total' ahead',
      ap (λ k. elapsed rs * k) same_rate,
    )

-- Over any sequence of requests for any children, reserved or borrowed, the grants stay within the
-- burst of the global bucket and what its rate refills in the time that has passed.
pub granted_total_bounded :
    (rate burst now : ℕ) (rs : List Request)
    → granted_total now rs (make rate burst now) ≤ burst + elapsed rs * rate
unfolding make
granted_total_bounded rate burst now rs = omega (
  arith,
  granted_total-credit now rs
      (record {
        rate = rate;
        burst = burst;
        tokens = burst;
        last_refill = now;
        penalty_deadline = none;
      })
      (omega arith),
  no_time now rate,
)

grant_not_penalized :
    (n now : ℕ) (b : Bucket) → (try_take n now b).0 ≡ true → is_penalized now b ≡ false
unfolding try_take is_penalized
grant_not_penalized n now b h = ground arith

-- A request that the child's own reserve and the global bucket can both meet is granted, whatever
-- the siblings do.
pub take_locked_reserve :
    (idle : Bool) (n now : ℕ) (child total : Bucket)
    → (try_take n now child).0 ≡ true
    → (try_take n now total).0 ≡ true
    → (take_locked idle n now child total).0 ≡ true
unfolding take_locked
take_locked_reserve idle n now child total h k = ground (arith, grant_not_penalized n now child h)

-- A request of a child whose reserve cannot meet it is granted only from a global bucket that can,
-- when the siblings are idle and the child is under no penalty.
pub take_locked_borrows :
    (idle : Bool) (n now : ℕ) (child total : Bucket)
    → (try_take n now child).0 ≡ false
    → (take_locked idle n now child total).0 ≡ true
    → (idle ≡ true) × ((try_take n now total).0 ≡ true) × (is_penalized now child ≡ false)
unfolding take_locked
take_locked_borrows idle n now child total h k = ground arith

take_keeps :
    (n now : ℕ) (b : Bucket)
    → Within b
    → (try_take n now b).0 ≡ true
    → (return_tokens n (try_take n now b).1).tokens ≡ (refill now b).tokens
unfolding try_take return_tokens refill
take_keeps n now b w h = ground arith

take_misses :
    (n now : ℕ) (b : Bucket)
    → is_penalized now b ≡ false
    → (try_take n now b).0 ≡ false
    → (try_take n now b).1 ≡ refill now b
unfolding try_take refill is_penalized
take_misses n now b p h = ground arith

-- A refused request costs the child nothing: its bucket is only refilled.
pub take_locked_refused :
    (idle : Bool) (n now : ℕ) (child total : Bucket)
    → Within child
    → is_penalized now child ≡ false
    → (take_locked idle n now child total).0 ≡ false
    → (take_locked idle n now child total).1.tokens ≡ (refill now child).tokens
unfolding take_locked
take_locked_refused idle n now child total w p h =
    ground (arith, take_keeps n now child w, take_misses n now child p)
