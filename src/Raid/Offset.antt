-- ===== src/Raid/Offset.antt =====
-- How much of a device calculate_data_offset_bytes sets aside.
use native.Mathlib.Nat.{pow-suc}
use subiquity.Base.{
  ℕ, zero, suc, ◌+◌, ◌*◌, ◌/◌, ◌%◌, ◌^◌, ◌≤◌, ◌<◌, ◌≡◌, inl, inr, false, arith, Bool-cases,
}
use subiquity.Align.{mib}
use subiquity.Align.Laws.{align_up_lem, align_down_lem}
use subiquity.Raid.{bitmap_space, too_large, shrink_headroom, sectors, calculate_data_offset_bytes}

shrink_headroom_bounds :
    (fuel devsize headroom : ℕ)
    → 2048 ≤ headroom
    → (2048 ≤ shrink_headroom fuel devsize headroom)
      × (shrink_headroom fuel devsize headroom ≤ headroom)
unfolding shrink_headroom
shrink_headroom_bounds zero devsize headroom h = (h, omega arith)
shrink_headroom_bounds (suc fuel) devsize headroom h =
    elim (Bool-cases (too_large devsize headroom)) [
      | inr fits ↦ rw fits (h, omega arith)
      | inl large ↦
          let half : 2048 ≤ headroom / 2 = ground arith in
          let (low, high) = shrink_headroom_bounds fuel devsize (headroom / 2) half in
          rw large (low, omega arith)
    ]

-- Each unit of fuel halves what the headroom may be.
pub shrink_headroom-settles :
    (fuel devsize headroom : ℕ)
    → headroom < 4096 * 2 ^ fuel
    → too_large devsize (shrink_headroom fuel devsize headroom) ≡ false
unfolding shrink_headroom
shrink_headroom-settles zero devsize headroom h = ground arith
shrink_headroom-settles (suc fuel) devsize headroom h =
    elim (Bool-cases (too_large devsize headroom)) [
      | inr fits ↦ rw fits fits
      | inl large ↦
          rw large
            (shrink_headroom-settles fuel devsize (headroom / 2) (omega (arith, pow-suc 2 fuel)))
    ]

bitmap_space-le : (devsize : ℕ) → bitmap_space devsize ≤ 256
unfolding bitmap_space
bitmap_space-le devsize = ground arith

-- What is set aside is a whole number of MiB, from 2 to 129, and at most a 1024th of the device and
-- 4 MiB; the loop for the headroom ends by its own test.
pub calculate_data_offset_bytes_bounds :
    (devsize : ℕ)
    → (2 * mib ≤ calculate_data_offset_bytes devsize)
      × (calculate_data_offset_bytes devsize ≤ 129 * mib)
      × (calculate_data_offset_bytes devsize % mib ≡ 0)
      × (calculate_data_offset_bytes devsize ≤ devsize / 1024 + 4 * mib)
      × (too_large (sectors devsize) (shrink_headroom 8 (sectors devsize) (128 * 1024 * 2)) ≡ false)
unfolding calculate_data_offset_bytes
calculate_data_offset_bytes_bounds devsize =
    let size = sectors devsize in
    let headroom = shrink_headroom 8 size 262144 in
    let (low, high) = shrink_headroom_bounds 8 size 262144 (omega arith) in
    let settled = shrink_headroom-settles 8 size 262144 (omega arith) in
    let small = bitmap_space-le size in
    let (up, near, whole) = align_up_lem 11 (24 + bitmap_space size + headroom) in
    let below = (align_down_lem 9 (devsize / 512)).0 in
    let share : headroom ≤ size / 1024 + 4096 = ground arith in
    (omega arith, omega arith, omega arith, omega arith, settled)
