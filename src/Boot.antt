-- ===== src/Boot.antt =====
-- subiquity/common/filesystem/boot.py: the plans that turn a device into a boot device, for BIOS and
-- PReP. What a plan creates is a record of the `spec` and `args` of the source.
pub mod Valid
pub mod Example
use subiquity.Base.{
  ℕ, zero, suc, ◌+◌, ◌-◌, ◌*◌, ◌/◌, Bool, true, false, not, ◌&&◌, ◌||◌, Option, none, some, List,
  [], ◌∷◌, ◌++◌, ltb, leb, if◌then◌else◌, filter, find, all,
}
use subiquity.Base.Ints.{ℤ, pos, negsuc, sub_ℕ, leb_ℤ, ◌-ℤ◌}
use subiquity.Align.{mib}
use subiquity.Storage.{
  Flag, bios_grub, prep, extended, logical, flag_eq, msdos, has_ptable, PartitionAlignmentData,
  Partition, Device, is_logical,
}
use subiquity.Gaps.{Gap, PartOrGap, part, gap, plain_gap, split}
use subiquity.Gaps.Find.{first_gap_with_size}

abbrev pub bios_grub_size_bytes : ℕ
bios_grub_size_bytes = 1 * mib

abbrev pub prep_grub_size_bytes : ℕ
prep_grub_size_bytes = 8 * mib

-- `spec` and `args` of a CreatePartPlan; neither BIOS nor PReP formats or mounts what it creates.
pub record NewPart : Type 0 where
  pub size : ℕ
  pub flag : Flag
  pub grub_device : Bool
  pub wipe_zero : Bool

-- What SetAttrPlan sets: `grub_device` of a device or partition to True, `wipe` to "zero".
pub data Setting : Type 0 where
  device_grub : Device → Setting
  part_grub : Partition → Setting
  part_wipe : Partition → Setting

mutual
  pub data Plan : Type 0 where
    create_part : Gap → NewPart → Plan
    -- the part, the size that it loses, `allow_resize_preserved`
    resize_part : Partition → ℕ → Bool → Plan
    slide : List Partition → ℕ → Plan
    set_attr : Setting → Plan
    no_op : Plan
    multi_step : Plans → Plan

  pub data Plans : Type 0 where
    nil : Plans
    cons : Plan → Plans → Plans

unfoldable mutual
  pub new_partition_count : Plan → ℕ
  new_partition_count (create_part g new) = 1
  new_partition_count (resize_part p lost allow) = 0
  new_partition_count (slide ps delta) = 0
  new_partition_count (set_attr s) = 0
  new_partition_count no_op = 0
  new_partition_count (multi_step plans) = sum_counts plans

  pub sum_counts : Plans → ℕ
  sum_counts nil = 0
  sum_counts (cons plan plans) = new_partition_count plan + sum_counts plans

-- The validators of ResizePlan and SlidePlan, for all plans inside of a plan: False is an
-- AssertionError when the plan is made.
unfoldable mutual
  pub passes_validators : Plan → Bool
  passes_validators (create_part g new) = true
  passes_validators (resize_part p lost allow) = not p.preserve || allow
  passes_validators (slide ps delta) = all (λ (p : Partition). not p.preserve) ps
  passes_validators (set_attr s) = true
  passes_validators no_op = true
  passes_validators (multi_step plans) = all_pass plans

  pub all_pass : Plans → Bool
  all_pass nil = true
  all_pass (cons plan plans) = passes_validators plan && all_pass plans

abbrev pub steps : List Plan → Plans
steps [] = nil
steps (x ∷ xs) = cons x (steps xs)

-- `max(enumerate(parts), key=size)`: the first of the largest ones, with the list up to it. `seen` is
-- what was passed, `upto` and `best` the result so far.
unfoldable pub largest_part :
    (seen upto : List Partition) → Partition → List Partition → List Partition × Partition
largest_part seen upto best [] = (upto, best)
largest_part seen upto best (p ∷ ps) =
    let here = seen ++ p ∷ [] in
    if ltb best.size p.size then largest_part here here p ps else largest_part here upto best ps

abbrev pub create_bios_part : PartitionAlignmentData → Plan
create_bios_part info = create_part (plain_gap info.min_start_offset bios_grub_size_bytes) (record {
  size = bios_grub_size_bytes;
  flag = bios_grub;
  grub_device = false;
  wipe_zero = false;
})

module _ (d : Device) (info : PartitionAlignmentData) where
  -- Behind the loop, which ended at a preserved partition or at the end of the list.
  unfoldable pub shrink_largest : List Partition → Option Plan
  unfolding largest_part
  shrink_largest [] = none
  shrink_largest (p ∷ ps) =
      let (upto, largest) = largest_part (p ∷ []) (p ∷ []) p ps in
      some (
        multi_step (
          steps (
            resize_part largest bios_grub_size_bytes false
            ∷ slide upto bios_grub_size_bytes
            ∷ create_bios_part info
            ∷ set_attr (device_grub d)
            ∷ [])))

  -- The loop, with `movable`.
  unfoldable pub bios_plan : List Partition → List PartOrGap → Option Plan
  unfolding shrink_largest
  bios_plan movable [] = shrink_largest movable
  bios_plan movable (gap g ∷ rest) =
      if leb bios_grub_size_bytes g.size
      then some (
          multi_step (
            steps (
              slide movable bios_grub_size_bytes
              ∷ create_bios_part info
              ∷ set_attr (device_grub d)
              ∷ [])))
      else none
  bios_plan movable (part p ∷ rest) =
      let further = bios_plan (movable ++ p ∷ []) rest in
      if p.preserve then shrink_largest movable else further

  abbrev pub starts_with_bios_grub : List PartOrGap → Bool
  starts_with_bios_grub (part p ∷ rest) = flag_eq p.flag bios_grub
  starts_with_bios_grub _ = false

  -- The device's `parts_and_gaps` is the argument.
  unfoldable pub get_boot_device_plan_bios : List PartOrGap → Option Plan
  unfolding bios_plan
  get_boot_device_plan_bios pgs =
      if has_ptable d.ptable msdos || starts_with_bios_grub pgs
      then some (set_attr (device_grub d))
      else bios_plan [] pgs

  -- The branch that takes the space from a partition to be resized.
  unfoldable pub resize_plan : NewPart → Partition → Option Plan
  resize_plan new r =
      if leb_ℤ (pos new.size) (pos r.size -ℤ r.estimated_min_size)
      then some (
          multi_step (
            steps (
              resize_part r new.size true
              ∷ create_part (plain_gap (r.offset + r.size - new.size) new.size) new
              ∷ [])))
      else none

  abbrev pub is_new_primary : Partition → Bool
  is_new_primary p = not p.preserve && not (flag_eq p.flag extended || flag_eq p.flag logical)

  -- The branch that halves the largest new primary partition.
  unfoldable pub halve_plan : NewPart → List Partition → Option Plan
  unfolding largest_part
  halve_plan new [] = none
  halve_plan new (p ∷ ps) =
      let largest = (largest_part (p ∷ []) (p ∷ []) p ps).1 in
      if ltb (largest.size / 2) new.size
      then none
      else some (
          multi_step (
            steps (
              resize_part largest new.size false
              ∷ slide (largest ∷ []) new.size
              ∷ create_part (plain_gap largest.offset new.size) new
              ∷ [])))

  unfoldable pub without_gap : NewPart → Option Partition → Option Plan
  unfolding resize_plan halve_plan
  without_gap new none = halve_plan new (filter is_new_primary d.partitions)
  without_gap new (some r) =
      if is_logical d.ptable r
      then halve_plan new (filter is_new_primary d.partitions)
      else resize_plan new r

  unfoldable pub get_add_part_plan : NewPart → Option Partition → List PartOrGap → Option Plan
  unfolding without_gap first_gap_with_size split
  get_add_part_plan new resize_partition pgs =
      elim (first_gap_with_size new.size (some false) pgs) [
        | none ↦ without_gap new resize_partition
        | some g ↦ elim (split info g new.size) [
          | none ↦ none
          | some (front, rest) ↦ some (create_part front new)
        ]
      ]

  unfoldable pub get_boot_device_plan_prep : Option Partition → List PartOrGap → Option Plan
  unfolding get_add_part_plan
  get_boot_device_plan_prep resize_partition pgs =
      elim (find (λ (p : Partition). flag_eq p.flag prep) d.partitions) [
        | some p ↦ some (multi_step (steps (set_attr (part_grub p) ∷ set_attr (part_wipe p) ∷ [])))
        | none ↦
            get_add_part_plan
              (record {
                size = prep_grub_size_bytes;
                flag = prep;
                grub_device = true;
                wipe_zero = true;
              })
              resize_partition pgs
      ]
