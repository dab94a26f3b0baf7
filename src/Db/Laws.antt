-- ===== src/Db/Laws.antt =====
-- The keys of the tables.
use reroll_sync.Base.{◌≡◌, refl, ◌↔◌, true, arith}
use reroll_sync.Db.{Stage, stage_eq, Write, Conn, ok, ◌>>=◌}

pub stage_eq_iff : (s t : Stage) → (stage_eq s t ≡ true) ↔ (s ≡ t)
stage_eq_iff s t = ground arith

pub stage_eq_refl : (s : Stage) → stage_eq s s ≡ true
stage_eq_refl s = (stage_eq_iff s s).1 refl

-- an operation goes on from the result and the state of what ran before it
pub bind_ok :
    {A B : Type 0} (m : Write A) (f : A → Write B) (c : Conn) (a : A)
    → (m c).0 ≡ ok a
    → (m >>= f) c ≡ f a (m c).1
bind_ok m f c a e = rw e refl
