-- ===== src/Ratelimit/Bucket.antt =====
-- ratelimit.py: `TokenBucket`. The floats are exact integers here: the clock counts microseconds,
-- and a token is `token` units, so that a rate of R tokens a minute is R units a microsecond. A
-- method takes the reading of the clock as `now`; the clock may stand still or go back. A penalty
-- deadline of minus infinity is `none`. `time_until_available` rounds the quotient up.
pub mod Rate
pub mod Waits
use Prim.Native.Nat.{◌-◌, ◌/◌}
use reroll_sync.Base.{
  ℕ, zero, suc, ◌+◌, ◌*◌, min, max, Bool, true, false, Option, none, some, List, [], ◌∷◌, ltb, leb,
  ◌==◌, ◌||◌, if◌then◌else◌,
}

-- the units of one token: the microseconds of a minute
abbrev pub token : ℕ
token = 60000000

pub record Bucket : Type 0 where
  pub rate : ℕ
  pub burst : ℕ
  pub tokens : ℕ
  pub last_refill : ℕ
  pub penalty_deadline : Option ℕ

-- `_one_second_burst`, of a rate a minute: a second's worth, and at least one token
unfoldable pub one_second_burst : ℕ → ℕ
one_second_burst rate_per_minute = max token (rate_per_minute * 1000000)

-- `__init__`
unfoldable pub make : ℕ → ℕ → ℕ → Bucket
make rate_per_minute burst now = record {
  rate = rate_per_minute;
  burst = burst;
  tokens = burst;
  last_refill = now;
  penalty_deadline = none;
}

-- `_refill_locked`
unfoldable pub refill : ℕ → Bucket → Bucket
refill now b =
    if ltb b.last_refill now
    then record b {
      tokens = min b.burst (b.tokens + (now - b.last_refill) * b.rate);
      last_refill = now;
    }
    else b

abbrev pub is_before : ℕ → Option ℕ → Bool
is_before now none = false
is_before now (some d) = ltb now d

-- `is_penalized`
unfoldable pub is_penalized : ℕ → Bucket → Bool
is_penalized now b = is_before now b.penalty_deadline

-- `_try_take_locked`
unfoldable pub try_take : ℕ → ℕ → Bucket → Bool × Bucket
unfolding refill
try_take n now b =
    if is_before now b.penalty_deadline
    then (false, b)
    else (let b' = refill now b in
        if ltb b'.burst n || ltb b'.tokens n
        then (false, b')
        else (true, record b' { tokens = b'.tokens - n }))

-- `drain`
unfoldable pub drain : ℕ → Bucket → Bucket
drain now b = record b { tokens = 0; last_refill = now }

abbrev extend : ℕ → Option ℕ → Option ℕ
extend deadline none = some deadline
extend deadline (some d) = if ltb d deadline then some deadline else some d

-- `penalize`
unfoldable pub penalize : ℕ → ℕ → Bucket → Bucket
penalize seconds now b = record b { penalty_deadline = extend (now + seconds) b.penalty_deadline }

-- `return_tokens`
unfoldable pub return_tokens : ℕ → Bucket → Bucket
return_tokens n b = record b { tokens = min b.burst (b.tokens + n) }

abbrev pub left_until : Option ℕ → ℕ → ℕ
left_until none now = 0
left_until (some d) now = d - now

-- the microseconds in which `deficit` units arrive at `rate` units a microsecond, rounded up
abbrev pub refill_time : ℕ → ℕ → ℕ
refill_time deficit rate = (deficit + rate - 1) / rate

-- `_time_until_available_locked`, which refills on the way
unfoldable pub time_until_available : ℕ → ℕ → Bucket → Option ℕ × Bucket
time_until_available n now b =
    if ltb b.burst n
    then (none, b)
    else (let b' = refill now b in
        let wait = left_until b.penalty_deadline now in
        if leb n b'.tokens
        then (some wait, b')
        else (if b'.rate == 0
            then (none, b')
            else (some (max wait (refill_time (n - b'.tokens) b'.rate)), b')))

-- How a blocking `acquire` stands after some wake-ups of its condition variable.
pub data Acquired : Type 0 where
  granted refused waiting : Acquired

abbrev is_past : Option ℕ → ℕ → Bool
is_past none now = false
is_past (some d) now = leb d now

-- `acquire`: the loop runs once at the time of the call and once at each wake-up, whose times the
-- environment chooses; `deadline` is `now + timeout` of the call.
unfoldable pub acquire : ℕ → Option ℕ → List ℕ → Bucket → Acquired × Bucket
unfolding try_take time_until_available
acquire n deadline [] b = (waiting, b)
acquire n deadline (now ∷ wakes) b =
    let (taken, b') = try_take n now b in
    let (wait, b'') = time_until_available n now b' in
    let again = acquire n deadline wakes b'' in
    if taken then (granted, b') else elim wait [
      | none ↦ (refused, b'')
      | some w ↦ if is_past deadline now then (refused, b'') else again
    ]
