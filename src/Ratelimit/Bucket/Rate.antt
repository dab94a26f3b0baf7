-- ===== src/Ratelimit/Bucket/Rate.antt =====
-- What sequences of calls take from a bucket, and penalties.
use Prim.Native.Nat.{◌-◌}
use reroll_sync.Base.{
  ℕ, ◌+◌, ◌*◌, ◌≤◌, ◌<◌, ◌≡◌, ap, true, false, none, List, [], ◌∷◌, arith, if◌then◌else◌,
}
use reroll_sync.Ratelimit.Bucket.{Bucket, make, refill, try_take, drain, penalize, is_penalized}

abbrev pub Within : Bucket → Type 0
Within b = b.tokens ≤ b.burst

-- One call of a method of the bucket at a time.
pub data Call : Type 0 where
  takes : ℕ → Call
  drains : Call
  penalizes : ℕ → Call

unfoldable pub serve : Call → ℕ → Bucket → Bucket
serve (takes n) now b = (try_take n now b).1
serve drains now b = drain now b
serve (penalizes s) now b = penalize s now b

-- the units that the call takes
abbrev taken : Call → ℕ → Bucket → ℕ
taken (takes n) now b = if (try_take n now b).0 then n else 0
taken _ now b = 0

-- the units that a sequence of calls takes, each `gap` microseconds after the one before
unfoldable pub total : ℕ → List (ℕ × Call) → Bucket → ℕ
total now [] b = 0
total now ((gap, c) ∷ cs) b = taken c (now + gap) b + total (now + gap) cs (serve c (now + gap) b)

unfoldable pub elapsed : List (ℕ × Call) → ℕ
elapsed [] = 0
elapsed ((gap, c) ∷ cs) = gap + elapsed cs

-- what the bucket could give at `now`
abbrev pub credit : ℕ → Bucket → ℕ
credit now b = b.tokens + (now - b.last_refill) * b.rate

pub serve-Within : (c : Call) (now : ℕ) (b : Bucket) → Within b → Within (serve c now b)
unfolding serve try_take drain penalize
serve-Within c now b h = ground arith

rate-serve : (c : Call) (now : ℕ) (b : Bucket) → (serve c now b).rate ≡ b.rate
unfolding serve try_take drain penalize
rate-serve c now b = ground arith

refill_ahead : (now : ℕ) (b : Bucket) → b.last_refill ≤ now → (refill now b).last_refill ≡ now
unfolding refill
refill_ahead now b h = ground arith

serve_ahead :
    (c : Call) (now : ℕ) (b : Bucket) → b.last_refill ≤ now → (serve c now b).last_refill ≤ now
unfolding serve try_take drain penalize
serve_ahead c now b h = ground arith

pub no_time : (n r : ℕ) → (n - n) * r ≡ 0
no_time n r = rw (let e : n - n ≡ 0 = omega arith in e) (omega arith)

-- a call takes no more than the credit that it uses up
serve-credit :
    (c : Call) (now : ℕ) (b : Bucket)
    → b.last_refill ≤ now
    → taken c now b + credit now (serve c now b) ≤ credit now b
unfolding serve try_take drain penalize
serve-credit (takes n) now b h = ground (arith, no_time now b.rate)
serve-credit drains now b h = ground (arith, no_time now b.rate)
serve-credit (penalizes s) now b h = ground arith

-- waiting adds what the rate refills
pub credit_later :
    (now gap : ℕ) (b : Bucket)
    → b.last_refill ≤ now
    → credit (now + gap) b ≡ credit now b + gap * b.rate
credit_later now gap b h =
    rw (let e : now + gap - b.last_refill ≡ (now - b.last_refill) + gap = omega arith in e)
      (omega arith)

total_credit :
    (now : ℕ) (cs : List (ℕ × Call)) (b : Bucket)
    → b.last_refill ≤ now
    → total now cs b ≤ credit now b + elapsed cs * b.rate
unfolding total elapsed
total_credit now [] b h = omega arith
total_credit now ((gap, c) ∷ cs) b h =
    let later = now + gap in
    let b' = serve c later b in
    let ahead : b.last_refill ≤ later = omega arith in
    omega (
      arith,
      credit_later now gap b h,
      serve-credit c later b ahead,
      rate-serve c later b,
      total_credit later cs b' (serve_ahead c later b ahead),
      ap (λ r. elapsed cs * r) (rate-serve c later b),
    )

-- From a new bucket, any sequence of acquisitions, drains and penalties takes at most the burst and
-- what the rate refills in the time that has passed.
pub total_make :
    (rate burst now : ℕ) (cs : List (ℕ × Call))
    → total now cs (make rate burst now) ≤ burst + elapsed cs * rate
unfolding make
total_make rate burst now cs = omega (
  arith,
  total_credit now cs
      (record {
        rate = rate;
        burst = burst;
        tokens = burst;
        last_refill = now;
        penalty_deadline = none;
      })
      (omega arith),
  no_time now rate,
)

-- Nothing is taken while a penalty runs, and the bucket stays as it is.
pub try_take_penalized :
    (n now : ℕ) (b : Bucket) → is_penalized now b ≡ true → try_take n now b ≡ (false, b)
unfolding try_take is_penalized
try_take_penalized n now b h = ground arith

-- A penalty refuses acquisitions until its end, and never shortens one that is running.
pub penalize_extends :
    (seconds now later : ℕ) (b : Bucket)
    → (later < now + seconds → is_penalized later (penalize seconds now b) ≡ true)
      × (is_penalized later b ≡ true → is_penalized later (penalize seconds now b) ≡ true)
unfolding penalize is_penalized
penalize_extends seconds now later b = ground arith
