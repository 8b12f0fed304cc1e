-- ===== src/Sizes.antt =====
-- subiquity/common/filesystem/sizes.py. Floating point is a parameter, `Floats`: a field for each
-- expression that the file computes in floats, with what the proofs ask of its rounding.
pub mod Scale
pub mod Resize
pub mod Example
use subiquity.Base.{
  ℕ, ◌+◌, ◌-◌, ◌*◌, ◌/◌, ◌^◌, ◌≤◌, ◌<◌, min, max, ◌≡◌, Bool, Option, none, some, List, [], ◌∷◌, map,
  true, false, not, ltb, ◌==◌, if◌then◌else◌, sum, filter, any,
}
use subiquity.Base.Ints.{ℤ, pos, negsuc, ◌-ℤ◌, leb_ℤ, sum_ℤ}
use subiquity.Align.{align_up, align_down, mib, gib}

-- IEEE doubles hold every natural below 2 ^ 53, and rounding to them is monotone.
pub record Floats : Type 0 where
  -- `int((available / total) * priority)`
  pub share : (available total priority : ℕ) → ℕ
  -- `math.ceil(0.25 * n)` and `math.ceil(0.5 * n)`
  pub quarter_up : ℕ → ℕ
  pub half_up : ℕ → ℕ
  -- `math.ceil(window * (a / (a + b)))`
  pub ratio_up : (window a b : ℕ) → ℕ
  pub ratio-le : (w a b : ℕ) → w < 2 ^ 53 → ratio_up w a b ≤ w

-- `maximum` is -1 for "the rest of the disk".
pub record PartitionScaleFactors : Type 0 where
  pub minimum : ℕ
  pub priority : ℕ
  pub maximum : ℤ

abbrev pub uefi_scale : PartitionScaleFactors
uefi_scale = record { minimum = 538 * mib; priority = 538; maximum = pos (1075 * mib) }

abbrev pub bootfs_scale : PartitionScaleFactors
bootfs_scale = record { minimum = 1792 * mib; priority = 1024; maximum = pos (2048 * mib) }

abbrev pub rootfs_scale : PartitionScaleFactors
rootfs_scale = record { minimum = 900 * mib; priority = 10000; maximum = negsuc 0 }

abbrev pub all_factors : List PartitionScaleFactors
all_factors = uefi_scale ∷ bootfs_scale ∷ rootfs_scale ∷ []

-- The body of the loop: what is appended for `cur`, of which `scaled` was computed.
unfoldable pub scale_one : PartitionScaleFactors → ℕ → ℤ
scale_one cur scaled =
    if ltb scaled cur.minimum
    then pos cur.minimum
    else if leb_ℤ (pos scaled) cur.maximum
    then pos scaled
    else cur.maximum

abbrev pub is_minus_one : ℤ → Bool
is_minus_one (pos n) = false
is_minus_one (negsuc n) = n == 0

-- `ret[ret.index(-1)] = rest`, which changes nothing where -1 is not in `ret`
unfoldable pub fill_rest : List ℤ → ℤ → List ℤ
fill_rest [] rest = []
fill_rest (x ∷ xs) rest = if is_minus_one x then rest ∷ xs else x ∷ fill_rest xs rest

abbrev pub priorities : List PartitionScaleFactors → ℕ
priorities factors = sum (map (λ factor. factor.priority) factors)

-- Indexing a list that may be too short is Python's IndexError; here it gives 0.
abbrev pub first : List ℤ → ℤ
first [] = pos 0
first (x ∷ xs) = x

abbrev pub second : List ℤ → ℤ
second [] = pos 0
second (x ∷ xs) = first xs

module _ (fl : Floats) where
  unfoldable pub scaled_sizes : (available total : ℕ) → List PartitionScaleFactors → List ℤ
  unfolding scale_one
  scaled_sizes available total [] = []
  scaled_sizes available total (cur ∷ rest) =
      scale_one cur (fl.share available total cur.priority) ∷ scaled_sizes available total rest

  unfoldable pub scale_partitions : List PartitionScaleFactors → ℕ → List ℤ
  unfolding scaled_sizes fill_rest
  scale_partitions factors available_space =
      let ret = scaled_sizes available_space (priorities factors) factors in
      let used = sum_ℤ (filter (λ x. not (is_minus_one x)) ret) in
      if any is_minus_one ret then fill_rest ret (pos available_space -ℤ used) else ret

  -- `[0]` and `[1]` of a list that the constants make three long
  unfoldable pub get_efi_size : ℕ → ℤ
  unfolding scale_partitions
  get_efi_size available_space = first (scale_partitions all_factors available_space)

  unfoldable pub get_bootfs_size : ℕ → ℤ
  unfolding scale_partitions
  get_bootfs_size available_space = second (scale_partitions all_factors available_space)

-- GuidedResizeValues of subiquity/common/types/storage.py
pub record GuidedResizeValues : Type 0 where
  pub install_max : ℕ
  pub minimum : ℕ
  pub recommended : ℕ
  pub maximum : ℕ

module _ (fl : Floats) where
  -- The body behind the test that `part_min` is not negative.
  unfoldable pub guided_resize :
      (part_min part_size install_min part_align : ℕ) → Option GuidedResizeValues
  guided_resize part_min given_size install_min part_align =
      let part_size = align_up given_size part_align in
      let other_room_to_grow = max (2 * gib) (fl.quarter_up part_min) in
      let padded_other_min = part_min + other_room_to_grow in
      let other_min = min (align_up padded_other_min part_align) part_size in
      let plausible_free_space = part_size - other_min in
      if ltb plausible_free_space install_min
      then none
      else let other_max = align_down (part_size - install_min) part_align in
        let resize_window = other_max - other_min in
        let raw_recommended = fl.ratio_up resize_window other_min install_min + other_min in
        some (record {
          install_max = plausible_free_space;
          minimum = other_min;
          recommended = align_up raw_recommended part_align;
          maximum = other_max;
        })

  unfoldable pub calculate_guided_resize :
      ℤ → (part_size install_min part_align : ℕ) → Option GuidedResizeValues
  unfolding guided_resize
  calculate_guided_resize (negsuc n) part_size install_min part_align = none
  calculate_guided_resize (pos part_min) part_size install_min part_align =
      guided_resize part_min part_size install_min part_align

  unfoldable pub calculate_suggested_install_min : (source_min part_align : ℕ) → ℕ
  calculate_suggested_install_min source_min part_align =
      let room_for_boot = bootfs_scale.minimum in
      let room_for_esp = uefi_scale.minimum in
      let room_to_grow = max (2 * gib) (fl.half_up source_min) in
      align_up (source_min + room_for_boot + room_for_esp + room_to_grow) part_align

unfoldable pub scaled_rootfs_size : ℕ → ℕ
scaled_rootfs_size available =
    if ltb available (10 * gib)
    then available
    else if ltb available (20 * gib)
    then 10 * gib
    else if ltb available (200 * gib)
    then available / 2
    else 100 * gib
