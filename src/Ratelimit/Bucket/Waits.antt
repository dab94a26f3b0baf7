-- ===== src/Ratelimit/Bucket/Waits.antt =====
-- The waiting times of a bucket.
use Prim.Native.Nat.{◌-◌}
use reroll_sync.Base.{ℕ, ◌+◌, ◌*◌, ◌≤◌, ◌<◌, ◌≡◌, true, false, Option, some, List, ◌∷◌, arith}
use reroll_sync.Ratelimit.Bucket.{
  Bucket, refill, try_take, refill_time, time_until_available, left_until, acquire, refused,
  is_penalized,
}

-- in the rounded-up time at least the deficit arrives
pub refill_time_enough : (deficit rate : ℕ) → 0 < rate → deficit ≤ refill_time deficit rate * rate
refill_time_enough deficit rate h = grind arith

mul_mono : (a b r : ℕ) → a ≤ b → a * r ≤ b * r
mul_mono a b r h = grind arith

-- an acquisition succeeds once the penalty is over and enough has arrived
try_take_enough :
    (n later : ℕ) (b : Bucket)
    → n ≤ b.burst
    → b.last_refill ≤ later
    → is_penalized later b ≡ false
    → n ≤ b.tokens + (later - b.last_refill) * b.rate
    → (try_take n later b).0 ≡ true
unfolding try_take is_penalized
try_take_enough n later b h k p e = ground (arith, mul_mono (later - b.last_refill) 0 b.rate)

-- the state in which the bucket is left is the refilled one
state_until :
    (n now wait : ℕ) (b : Bucket)
    → (time_until_available n now b).0 ≡ some wait
    → (time_until_available n now b).1 ≡ refill now b
unfolding time_until_available
state_until n now wait b e = ground arith

-- what the promised wait covers
promise :
    (n now wait : ℕ) (b : Bucket)
    → (time_until_available n now b).0 ≡ some wait
    → (n ≤ b.burst)
      × (left_until b.penalty_deadline now ≤ wait)
      × (n ≤ (refill now b).tokens + wait * (refill now b).rate)
unfolding time_until_available
promise n now wait b e =
    let b' = refill now b in
    ground (
      arith,
      refill_time_enough (n - b'.tokens) b'.rate,
      mul_mono (refill_time (n - b'.tokens) b'.rate) wait b'.rate,
    )

refilled :
    (now : ℕ) (b : Bucket)
    → b.last_refill ≤ now
    → ((refill now b).last_refill ≡ now)
      × ((refill now b).burst ≡ b.burst)
      × ((refill now b).penalty_deadline ≡ b.penalty_deadline)
unfolding refill
refilled now b h = ground arith

penalty_over :
    (now wait : ℕ) (b : Bucket)
    → left_until b.penalty_deadline now ≤ wait
    → is_penalized (now + wait) b ≡ false
unfolding is_penalized
penalty_over now wait b h = ground arith

-- An acquisition that is tried after the promised wait succeeds, if nothing else happened to the
-- bucket in between.
pub time_until_available_right :
    (n now wait : ℕ) (b : Bucket)
    → b.last_refill ≤ now
    → (time_until_available n now b).0 ≡ some wait
    → (try_take n (now + wait) (time_until_available n now b).1).0 ≡ true
time_until_available_right n now wait b k e =
    let b' = refill now b in
    let (fits, over, enough) = promise n now wait b e in
    let (at, same_burst, same_penalty) = refilled now b k in
    rw (state_until n now wait b e) (
      try_take_enough n (now + wait) b' (rw same_burst fits) (omega (arith, at))
        (penalty_over now wait b' (rw same_penalty over))
        (rw at (rw (let q : now + wait - now ≡ wait = omega arith in q) enough)))

-- A blocking acquisition of more than the burst never waits.
pub acquire_too_much :
    (n now : ℕ) (deadline : Option ℕ) (wakes : List ℕ) (b : Bucket)
    → b.burst < n
    → (acquire n deadline (now ∷ wakes) b).0 ≡ refused
unfolding acquire
acquire_too_much n now deadline wakes b h = ground arith
