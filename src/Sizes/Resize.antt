-- ===== src/Sizes/Resize.antt =====
-- calculate_guided_resize and the sizes that go with it: the slider that the guided installation
-- offers for shrinking a partition.
use subiquity.Base.{
  ℕ, ◌+◌, ◌-◌, ◌*◌, ◌%◌, ◌^◌, ◌≤◌, ◌<◌, min, max, ◌≡◌, some, arith, ltb, Bool-cases, inl, inr,
  subst,
}
use mathlib.Core.Option.{some-injective}
use subiquity.Base.Ints.{pos}
use subiquity.Align.{align_up, align_down, mib, gib}
use subiquity.Align.Laws.{align_up_lem, align_down_lem, align_up-least, align_down-greatest}
use subiquity.Sizes.{
  Floats, GuidedResizeValues, calculate_guided_resize, calculate_suggested_install_min,
  scaled_rootfs_size, uefi_scale, bootfs_scale,
}

module _ (fl : Floats) (part_min part_size install_min k : ℕ) where
  abbrev pub whole : ℕ
  whole = align_up part_size (2 ^ k)

  abbrev pub other_min : ℕ
  other_min = min (align_up (part_min + max (2 * gib) (fl.quarter_up part_min)) (2 ^ k)) whole

  other_min-multiple : other_min % 2 ^ k ≡ 0
  other_min-multiple = ground (
    arith,
    (align_up_lem k part_size).2,
    (align_up_lem k (part_min + max (2 * gib) (fl.quarter_up part_min))).2,
  )

  abbrev other_max : ℕ
  other_max = align_down (whole - install_min) (2 ^ k)

  abbrev recommended : ℕ
  recommended =
      align_up (fl.ratio_up (other_max - other_min) other_min install_min + other_min) (2 ^ k)

  module _ (fits : install_min ≤ whole - other_min) (below : whole < 2 ^ 53) where
    min-le-max : other_min ≤ other_max
    min-le-max =
        (align_down-greatest k (whole - install_min) other_min other_min-multiple (omega arith)).3

    max-le : other_max + install_min ≤ whole
    max-le = omega (arith, (align_down_lem k (whole - install_min)).0)

    recommended_bounds :
        (other_min ≤ recommended) × (recommended ≤ other_max) × (recommended % 2 ^ k ≡ 0)
    recommended_bounds =
        let window = other_max - other_min in
        let raw = fl.ratio_up window other_min install_min + other_min in
        let small : window < 2 ^ 53 = omega (arith, max-le) in
        let ratio = fl.ratio-le window other_min install_min small in
        let up = align_up_lem k raw in
        let whole_max = (align_down_lem k (whole - install_min)).2 in
        (
          omega (arith, up.0),
          (align_up-least k raw other_max whole_max (omega (arith, ratio, min-le-max))).3,
          up.2,
        )

-- The values that a resize may be given: the three of the partition in order and aligned, and
-- enough room left for the installation at each of them.
pub record IsResizable (whole install_min align : ℕ) (r : GuidedResizeValues) : Type 0 where
  pub minimum-le : r.minimum ≤ r.recommended
  pub recommended-le : r.recommended ≤ r.maximum
  pub leaves_room : r.maximum + install_min ≤ whole
  pub minimum_aligned : r.minimum % align ≡ 0
  pub recommended_aligned : r.recommended % align ≡ 0
  pub maximum_aligned : r.maximum % align ≡ 0
  pub install_max-eq : r.minimum + r.install_max ≡ whole

resized :
    (fl : Floats) (part_min part_size install_min k : ℕ)
    → install_min
      ≤ whole fl part_min part_size install_min k - other_min fl part_min part_size install_min k
    → whole fl part_min part_size install_min k < 2 ^ 53
    → IsResizable (align_up part_size (2 ^ k)) install_min (2 ^ k) (record {
      install_max =
          whole fl part_min part_size install_min k - other_min fl part_min part_size install_min k;
      minimum = other_min fl part_min part_size install_min k;
      recommended = recommended fl part_min part_size install_min k;
      maximum = other_max fl part_min part_size install_min k;
    })
resized fl part_min part_size install_min k fits below =
    let (low, high, aligned) = recommended_bounds fl part_min part_size install_min k fits below in
    record {
      minimum-le = low;
      recommended-le = high;
      leaves_room = max-le fl part_min part_size install_min k fits below;
      minimum_aligned = other_min-multiple fl part_min part_size install_min k;
      recommended_aligned = aligned;
      maximum_aligned =
          (align_down_lem k (whole fl part_min part_size install_min k - install_min)).2;
      install_max-eq = omega arith;
    }

-- For an alignment that is a power of two and a partition below 2 ^ 53 bytes, the suggested sizes
-- are in order, aligned, and leave the installation its minimum.
pub guided_resize-IsResizable :
    (fl : Floats) (part_min part_size install_min k : ℕ) (r : GuidedResizeValues)
    → align_up part_size (2 ^ k) < 2 ^ 53
    → calculate_guided_resize fl (pos part_min) part_size install_min (2 ^ k) ≡ some r
    → IsResizable (align_up part_size (2 ^ k)) install_min (2 ^ k) r
unfolding calculate_guided_resize
guided_resize-IsResizable fl part_min part_size install_min k r below e =
    let free =
      whole fl part_min part_size install_min k - other_min fl part_min part_size install_min k in
    elim (Bool-cases (ltb free install_min)) [
      | inl short ↦ cc (short)
      | inr roomy ↦
          subst (IsResizable (align_up part_size (2 ^ k)) install_min (2 ^ k))
            (some-injective _ _ (rw roomy at e))
            (resized fl part_min part_size install_min k (ground arith) below)
    ]

-- The suggested minimum for an installation covers the source, a boot and an EFI partition of
-- minimum size and 2 GiB, and is aligned.
pub suggested_install_min-covers :
    (fl : Floats) (source_min k : ℕ)
    → (source_min + (538 + 1792 + 2048) * mib
        ≤ calculate_suggested_install_min fl source_min (2 ^ k))
      × (calculate_suggested_install_min fl source_min (2 ^ k) % 2 ^ k ≡ 0)
unfolding calculate_suggested_install_min
suggested_install_min-covers fl source_min k =
    let up = align_up_lem k (
      source_min
      + bootfs_scale.minimum
      + uefi_scale.minimum
      + max (2 * gib) (fl.half_up source_min)) in
    (omega (arith, up.0), up.2)

-- The root volume never gets more than there is, is all of a disk below 10 GiB, is otherwise
-- between 10 and 100 GiB, and does not shrink as the disk grows.
pub scaled_rootfs_size_bounds :
    (available more : ℕ)
    → available ≤ more
    → (scaled_rootfs_size available ≤ available)
      × (min available (10 * gib) ≤ scaled_rootfs_size available)
      × (scaled_rootfs_size available ≤ 100 * gib)
      × (scaled_rootfs_size available ≤ scaled_rootfs_size more)
unfolding scaled_rootfs_size
scaled_rootfs_size_bounds available more h = ground arith
