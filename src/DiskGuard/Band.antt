-- ===== src/DiskGuard/Band.antt =====
-- Readings of the disk against the floor and the headroom of the guard.
use reroll_sync.Base.{ℕ, ◌*◌, ◌≤◌, ◌<◌, ◌≡◌, refl, true, false, List, [], ◌∷◌, All, arith, ◌∙◌, ap}
use reroll_sync.DiskGuard.{DiskGuard, check, check_all}

-- A reading in the band: not below the floor, and without the headroom.
abbrev pub InBand : DiskGuard → ℕ → Type 0
InBand g free = (g.floor_bytes ≤ free) × (free * g.down < g.floor_bytes * g.up)

check-InBand : (free : ℕ) (g : DiskGuard) → InBand g free → check free g ≡ g
unfolding check
check-InBand free g h = ground arith

-- Readings between the floor and the headroom never change the state, so the guard does not flap.
pub check_all-InBand :
    (frees : List ℕ) (g : DiskGuard) → All (InBand g) frees → check_all frees g ≡ g
unfolding check_all
check_all-InBand [] g h = refl
check_all-InBand (free ∷ rest) g h =
    ap (check_all rest) (check-InBand free g h.0) ∙ check_all-InBand rest g h.1

below_headroom :
    (free floor up down : ℕ) → free < floor → 0 < down → down ≤ up → free * down < floor * up
below_headroom free floor up down a b c = grind arith

-- With a headroom of at least the floor itself, a reading below the floor pauses in every state,
-- and one with the headroom resumes in every state.
pub check_outside :
    (free : ℕ) (g : DiskGuard)
    → g.down ≤ g.up
    → (free < g.floor_bytes → 0 < g.down → (check free g).paused ≡ true)
      × (g.floor_bytes * g.up ≤ free * g.down → 0 < g.down → (check free g).paused ≡ false)
unfolding check
check_outside free g h = ground (arith, below_headroom free g.floor_bytes g.up g.down)

-- Once paused, the guard stays paused as long as every reading lacks the headroom.
pub check_all_paused :
    (frees : List ℕ) (g : DiskGuard)
    → g.paused ≡ true
    → All (λ free. free * g.down < g.floor_bytes * g.up) frees
    → check_all frees g ≡ g
unfolding check_all check
check_all_paused [] g p h = refl
check_all_paused (free ∷ rest) g p h = ground (arith, check_all_paused rest g p h.1)
