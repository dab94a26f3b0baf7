-- ===== src/DiskGuard/Tests.antt =====
-- The guard on examples: a floor of 100 bytes and a headroom of 1.2.
use reroll_sync.Base.{◌≡◌, true, [], ◌∷◌, arith}
use reroll_sync.DiskGuard.{DiskGuard, check_all}
use reroll_sync.DiskGuard.Band.{check_all-InBand}

abbrev paused_guard : DiskGuard
paused_guard = record { floor_bytes = 100; up = 6; down = 5; paused = true }

check_all-InBand_example : check_all (100 ∷ 119 ∷ []) paused_guard ≡ paused_guard
check_all-InBand_example =
    check_all-InBand (100 ∷ 119 ∷ []) paused_guard
      ((omega arith, omega arith), ((omega arith, omega arith), tt))
