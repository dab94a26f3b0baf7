-- ===== src/DiskGuard.antt =====
-- src/reroll_sync/daemon/disk_guard.py. The float `hysteresis` is the fraction `up / down`; the
-- free bytes that `disk_usage` reports are an argument.
pub mod Band
mod Tests
use reroll_sync.Base.{ℕ, ◌*◌, Bool, true, false, List, [], ◌∷◌, ltb, leb, if◌then◌else◌}

pub record DiskGuard : Type 0 where
  pub floor_bytes : ℕ
  pub up : ℕ
  pub down : ℕ
  pub paused : Bool

-- `check`: the new state, which it also returns
unfoldable pub check : ℕ → DiskGuard → DiskGuard
check free g =
    if g.paused
    then (if leb (g.floor_bytes * g.up) (free * g.down) then record g { paused = false } else g)
    else (if ltb free g.floor_bytes then record g { paused = true } else g)

-- a check for each reading, in order
unfoldable pub check_all : List ℕ → DiskGuard → DiskGuard
check_all [] g = g
check_all (free ∷ rest) g = check_all rest (check free g)
