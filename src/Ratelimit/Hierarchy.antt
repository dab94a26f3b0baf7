-- ===== src/Ratelimit/Hierarchy.antt =====
-- ratelimit.py: `HierarchicalLimiter`, in the units of `Bucket`. The dictionaries keyed by child
-- name are one list of children.
pub mod Global
use Prim.Native.Nat.{◌-◌}
use reroll_sync.Base.{
  ℕ, zero, suc, ◌+◌, ◌*◌, min, max, String, Bool, true, false, not, Option, none, some, List, [],
  ◌∷◌, ltb, leb, ◌==◌, ◌||◌, ◌&&◌, text_eq, if◌then◌else◌,
}
use reroll_sync.Sql.{find, update}
use reroll_sync.Ratelimit.Bucket.{
  Bucket, token, make, one_second_burst, try_take, return_tokens, penalize, is_penalized,
  time_until_available, refill_time, Acquired, granted, refused, waiting,
}

pub record Child : Type 0 where
  pub name : String
  pub bucket : Bucket
  pub reserve_rate : ℕ
  pub last_attempt : Option ℕ
  pub acquired : ℕ
  pub denied : ℕ

pub record Limiter : Type 0 where
  pub total : Bucket
  pub children : List Child

abbrev make_children : ℕ → List (String × ℕ) → List Child
make_children now [] = []
make_children now ((name, rate) ∷ rest) =
    record {
      name = name;
      bucket = make rate (one_second_burst rate) now;
      reserve_rate = rate;
      last_attempt = none;
      acquired = 0;
      denied = 0;
    }
    ∷ make_children now rest

-- `__init__`
unfoldable pub make_limiter : ℕ → List (String × ℕ) → ℕ → Limiter
make_limiter global_rate reserves now = record {
  total = make global_rate (one_second_burst global_rate) now;
  children = make_children now reserves;
}

abbrev pub is_child : String → Child → Bool
is_child name c = text_eq c.name name

unfoldable pub set_child : String → (Child → Child) → Limiter → Limiter
set_child name f l = record l { children = update (is_child name) f l.children }

-- the microseconds until `c` counts as idle: the time in which one of its reserve tokens refills
-- has to pass since its last attempt
abbrev idle_threshold : ℕ → ℕ
idle_threshold rate = if rate == 0 then 0 else refill_time token rate

abbrev idle_wait : Option ℕ → ℕ → ℕ → ℕ
idle_wait none threshold now = 0
idle_wait (some last) threshold now = last + threshold - now

-- `_time_until_siblings_idle_locked`
unfoldable pub siblings_wait : String → ℕ → List Child → ℕ
siblings_wait name now [] = 0
siblings_wait name now (c ∷ cs) =
    let rest = siblings_wait name now cs in
    if is_child name c
    then rest
    else max (idle_wait c.last_attempt (idle_threshold c.reserve_rate) now) rest

-- the branch of `_try_take_locked` for a child whose reserve has the tokens: both buckets, or none
abbrev take_both : ℕ → ℕ → Bucket → Bucket → Bool × Bucket × Bucket
take_both n now child total =
    let (taken, total') = try_take n now total in
    if taken then (true, child, total') else (false, return_tokens n child, total')

abbrev borrow : Bool → ℕ → ℕ → Bucket → Bucket → Bool × Bucket × Bucket
borrow idle n now child total =
    if idle
    then (let (taken, total') = try_take n now total in (taken, child, total'))
    else (false, child, total)

-- `_try_take_locked` on the two buckets; `idle` says whether all siblings are
unfoldable pub take_locked : Bool → ℕ → ℕ → Bucket → Bucket → Bool × Bucket × Bucket
take_locked idle n now child total =
    if is_penalized now child
    then (false, child, total)
    else (let (own, child') = try_take n now child in
        if own then take_both n now child' total else borrow idle n now child' total)

-- `_time_until_locked`, which refills both buckets on the way
abbrev own_or_borrow : Option ℕ → ℕ → ℕ
own_or_borrow none wait = wait
own_or_borrow (some own) wait = min own wait

abbrev wait_for : Option ℕ → Option ℕ → ℕ → Option ℕ
wait_for own none siblings = none
wait_for (some zero) (some total) siblings = some total
wait_for own (some total) siblings = some (own_or_borrow own (max siblings total))

unfoldable pub time_until : ℕ → ℕ → ℕ → Bucket → Bucket → Option ℕ × Bucket × Bucket
time_until siblings n now child total =
    let (own, child') = time_until_available n now child in
    let (all, total') = time_until_available n now total in
    (wait_for own all siblings, child', total')

abbrev is_past : Option ℕ → ℕ → Bool
is_past none now = false
is_past (some d) now = leb d now

-- One pass of the loop in `acquire` for the child that the name denotes: granted, refused, or to
-- be tried again after a wait.
abbrev decide : Bool → Option ℕ → Option ℕ → ℕ → Acquired
decide true wait deadline now = granted
decide false none deadline now = refused
decide false (some w) deadline now = if is_past deadline now then refused else waiting

abbrev note : Acquired → Child → Child
note granted c = record c { acquired = suc c.acquired }
note refused c = record c { denied = suc c.denied }
note waiting c = c

unfoldable pub attempt : String → ℕ → Option ℕ → ℕ → Child → Limiter → Acquired × Limiter
unfolding take_locked time_until set_child siblings_wait
attempt name n deadline now child l =
    let siblings = siblings_wait name now l.children in
    let (taken, b, t) = take_locked (siblings == 0) n now child.bucket l.total in
    let (wait, b', t') = time_until siblings n now b t in
    let r = decide taken wait deadline now in
    let b'' = if taken then b else b' in
    let t'' = if taken then t else t' in
    (r, set_child name (λ c. note r (record c { bucket = b'' })) (record l { total = t'' }))

-- `acquire`: `none` stands for a `KeyError`. The first time is that of the call, which is noted as
-- the child's last attempt; the others are the wake-ups of the condition variable.
abbrev noted : ℕ → Child → Child
noted now c = record c { last_attempt = some now }

unfoldable pub acquire_loop : String → ℕ → Option ℕ → List ℕ → Limiter → Option Acquired × Limiter
unfolding attempt
acquire_loop name n deadline [] l = (some waiting, l)
acquire_loop name n deadline (now ∷ wakes) l = elim (find (is_child name) l.children) [
  | none ↦ (none, l)
  | some child ↦
      let (r, l') = attempt name n deadline now child l in
      let again = acquire_loop name n deadline wakes l' in
      elim r [ waiting ↦ again | granted ↦ (some granted, l') | refused ↦ (some refused, l') ]
]

unfoldable pub acquire : String → ℕ → Option ℕ → ℕ → List ℕ → Limiter → Option Acquired × Limiter
unfolding acquire_loop set_child
acquire name n deadline now wakes l =
    acquire_loop name n deadline (now ∷ wakes) (set_child name (noted now) l)

-- `HierarchicalLimiter.penalize`, which touches the named child alone
unfoldable pub penalize_child : String → ℕ → ℕ → Limiter → Limiter
unfolding set_child
penalize_child name seconds now l =
    set_child name (λ c. record c { bucket = penalize seconds now c.bucket }) l
