-- ===== src/Boot/Valid.antt =====
-- The validators of the boot plans, and how many partitions a plan creates.
use subiquity.Base.{
  ℕ, ◌≤◌, ◌≡◌, refl, Bool, true, false, not, ◌||◌, Option, none, some, List, [], ◌∷◌, ◌++◌, arith,
  ltb, leb, all, filter, inl, inr, Bool-cases, if◌then◌else◌, ◌/◌,
}
use subiquity.Base.Ints.{leb_ℤ, pos, ◌-ℤ◌}
use subiquity.Storage.{msdos, has_ptable, PartitionAlignmentData, Partition, Device, is_logical}
use subiquity.Gaps.{Gap, PartOrGap, RestGap, part, gap, split}
use subiquity.Gaps.Find.{first_gap_with_size}
use subiquity.Boot.{
  create_part, Plan, NewPart, passes_validators, new_partition_count, largest_part, shrink_largest,
  bios_plan, bios_grub_size_bytes, get_boot_device_plan_bios, resize_plan, is_new_primary,
  halve_plan, without_gap, get_add_part_plan, starts_with_bios_grub,
}

abbrev new_only : List Partition → Bool
new_only ps = all (λ (p : Partition). not p.preserve) ps

new_only-snoc :
    (ps : List Partition) (p : Partition)
    → new_only ps ≡ true
    → p.preserve ≡ false
    → new_only (ps ++ p ∷ []) ≡ true
new_only-snoc [] p h k = ground arith
new_only-snoc (q ∷ ps) p h k = ground (arith, new_only-snoc ps p)

largest_part-new :
    (seen upto : List Partition) (best : Partition) (ps : List Partition)
    → new_only seen ≡ true
    → new_only upto ≡ true
    → best.preserve ≡ false
    → new_only ps ≡ true
    → let (taken, largest) = largest_part seen upto best ps in
      (new_only taken ≡ true) × (largest.preserve ≡ false)
unfolding largest_part
largest_part-new seen upto best [] s u b h = (u, b)
largest_part-new seen upto best (p ∷ ps) s u b h =
    let fresh : p.preserve ≡ false = ground arith in
    let here = new_only-snoc seen p s fresh in
    elim (Bool-cases (ltb best.size p.size)) [
      | inl larger ↦
          rw larger
            (largest_part-new (seen ++ p ∷ []) (seen ++ p ∷ []) p ps here here fresh (ground arith))
      | inr smaller ↦
          rw smaller (largest_part-new (seen ++ p ∷ []) upto best ps here u b (ground arith))
    ]

-- No assertion fails while the plan is made, and it creates at most `most` partitions.
abbrev pub IsMade : (most : ℕ) → Option Plan → Type 0
IsMade most none = Unit
IsMade most (some plan) = (passes_validators plan ≡ true) × (new_partition_count plan ≤ most)

IsMade-if :
    (b : Bool) (x y : Option Plan)
    → IsMade 1 x
    → (b ≡ false → IsMade 1 y)
    → IsMade 1 (if b then x else y)
IsMade-if true x y h k = h
IsMade-if false x y h k = k refl

module _ (d : Device) (info : PartitionAlignmentData) where
  shrink_largest-IsMade :
      (movable : List Partition)
      → new_only movable ≡ true
      → IsMade 1 (shrink_largest d info movable)
  unfolding shrink_largest passes_validators new_partition_count
  shrink_largest-IsMade [] h = tt
  shrink_largest-IsMade (p ∷ ps) h =
      let fresh : p.preserve ≡ false = ground arith in
      let (taken, largest) =
        largest_part-new (p ∷ []) (p ∷ []) p ps (ground arith) (ground arith) fresh
          (ground arith) in
      (rw (taken, largest) refl, omega arith)

  bios_plan-IsMade :
      (movable : List Partition) (pgs : List PartOrGap)
      → new_only movable ≡ true
      → IsMade 1 (bios_plan d info movable pgs)
  unfolding bios_plan passes_validators new_partition_count
  bios_plan-IsMade movable [] h = shrink_largest-IsMade movable h
  bios_plan-IsMade movable (gap g ∷ rest) h = elim (Bool-cases (leb bios_grub_size_bytes g.size)) [
    | inl fits ↦ rw fits (rw h refl, omega arith)
    | inr small ↦ rw small tt
  ]
  bios_plan-IsMade movable (part p ∷ rest) h =
      IsMade-if p.preserve (shrink_largest d info movable)
        (bios_plan d info (movable ++ p ∷ []) rest) (shrink_largest-IsMade movable h)
        (λ new. bios_plan-IsMade (movable ++ p ∷ []) rest (new_only-snoc movable p h new))

  -- The plan for BIOS, if there is one, resizes and moves only partitions that are not preserved, so
  -- that no validator fails, and creates one partition at most.
  pub get_boot_device_plan_bios-IsMade :
      (pgs : List PartOrGap) → IsMade 1 (get_boot_device_plan_bios d info pgs)
  unfolding get_boot_device_plan_bios passes_validators new_partition_count
  get_boot_device_plan_bios-IsMade pgs =
      elim (Bool-cases (has_ptable d.ptable msdos || starts_with_bios_grub d info pgs)) [
        | inl ready ↦ rw ready (refl, omega arith)
        | inr other ↦ rw other (bios_plan-IsMade [] pgs refl)
      ]

  filter-new : (ps : List Partition) → new_only (filter (is_new_primary d info) ps) ≡ true
  filter-new [] = refl
  filter-new (p ∷ ps) = ground (arith, filter-new ps)

  resize_plan-IsMade : (new : NewPart) (r : Partition) → IsMade 1 (resize_plan d info new r)
  unfolding resize_plan passes_validators new_partition_count
  resize_plan-IsMade new r =
      elim (Bool-cases (leb_ℤ (pos new.size) (pos r.size -ℤ r.estimated_min_size))) [
        | inl fits ↦ rw fits (ground arith, omega arith)
        | inr tight ↦ rw tight tt
      ]

  halve_plan-IsMade :
      (new : NewPart) (ps : List Partition)
      → new_only ps ≡ true
      → IsMade 1 (halve_plan d info new ps)
  unfolding halve_plan passes_validators new_partition_count
  halve_plan-IsMade new [] h = tt
  halve_plan-IsMade new (p ∷ ps) h =
      let fresh : p.preserve ≡ false = ground arith in
      let (taken, largest) =
        largest_part-new (p ∷ []) (p ∷ []) p ps (ground arith) (ground arith) fresh
          (ground arith) in
      let best = (largest_part (p ∷ []) (p ∷ []) p ps).1 in
      elim (Bool-cases (ltb (best.size / 2) new.size)) [
        | inl tight ↦ rw tight tt
        | inr fits ↦ rw fits (rw largest refl, omega arith)
      ]

  without_gap-IsMade :
      (new : NewPart) (resize : Option Partition) → IsMade 1 (without_gap d info new resize)
  unfolding without_gap
  without_gap-IsMade new none =
      halve_plan-IsMade new (filter (is_new_primary d info) d.partitions) (filter-new d.partitions)
  without_gap-IsMade new (some r) = elim (Bool-cases (is_logical d.ptable r)) [
    | inl log ↦ rw log (
        halve_plan-IsMade new (filter (is_new_primary d info) d.partitions)
          (filter-new d.partitions))
    | inr prim ↦ rw prim (resize_plan-IsMade new r)
  ]

  from_split :
      (new : NewPart) (o : Option (Gap × Option RestGap))
      → IsMade 1 (elim o [ none ↦ none | some (front, rest) ↦ some (create_part front new) ])
  unfolding passes_validators new_partition_count
  from_split new none = tt
  from_split new (some (front, rest)) = (refl, omega arith)

  from_gap :
      (new : NewPart) (resize : Option Partition) (o : Option Gap)
      → IsMade 1 (elim o [
        | none ↦ without_gap d info new resize
        | some g ↦ elim (split info g new.size) [
          | none ↦ none
          | some (front, rest) ↦ some (create_part front new)
        ]
      ])
  from_gap new resize none = without_gap-IsMade new resize
  from_gap new resize (some g) = from_split new (split info g new.size)

  -- The plan that adds a partition, if there is one, resizes and moves only partitions that are not
  -- preserved, but for the one that was given to be resized, so that no validator fails, and creates
  -- one partition at most.
  pub get_add_part_plan-IsMade :
      (new : NewPart) (resize : Option Partition) (pgs : List PartOrGap)
      → IsMade 1 (get_add_part_plan d info new resize pgs)
  unfolding get_add_part_plan
  get_add_part_plan-IsMade new resize pgs =
      from_gap new resize (first_gap_with_size new.size (some false) pgs)
