-- ===== src/Gaps/Example.antt =====
-- The gap theorems on small MBR disks.
use subiquity.Base.{
  ◌+◌, ◌*◌, ◌<◌, ◌≡◌, refl, arith, inl, inr, true, none, some, List, [], ◌∷◌, All, In,
}
use subiquity.Align.{mib}
use subiquity.Storage.{extended, logical, other_flag, Partition, Device, is_logical}
use subiquity.Storage.Sort.{sorted}
use subiquity.Gaps.{
  Gap, PartOrGap, part, gap, usable, plain_gap, ad, find_disk_gaps_v2, partitions_by_offset,
  remaining_primary_partitions,
}
use subiquity.Gaps.Walk.{IsLaidOut}
use subiquity.Gaps.Layout.{Apart, IsLayout, find_disk_gaps_v2-IsLaidOut, find_disk_gaps_v2-Apart}
use subiquity.Gaps.Complete.{Covered, find_disk_gaps_v2-covers}
use subiquity.Gaps.Shape.{GapIs, only_parts, find_disk_gaps_v2-shape}
use subiquity.Gaps.Find.{largest_of, size_of, find_gap_after_removal, includes}
use subiquity.Gaps.Search.{IsFound, WantedAtMost, largest_of-max, find_gap_after_removal-touches}
use subiquity.Gaps.Unaligned.{a_part, a_disk, msdos_data}

-- A primary partition, and an extended one with one logical partition.
abbrev primary_part : Partition
primary_part = a_part 1 (9 * mib) mib 1 other_flag

abbrev extended_part : Partition
extended_part = a_part 2 (30 * mib) (20 * mib) 2 extended

abbrev logical_part : Partition
logical_part = a_part 3 (5 * mib) (25 * mib) 5 logical

abbrev mixed_disk : Device
mixed_disk = a_disk (100 * mib) (primary_part ∷ logical_part ∷ extended_part ∷ [])

mixed_disk-IsLayout : IsLayout mixed_disk msdos_data
unfolding sorted is_logical ad
mixed_disk-IsLayout =
    (omega arith, tt, (omega arith, tt, (omega arith, (omega arith, omega arith), tt)))

abbrev first_free : Gap
first_free = plain_gap (10 * mib) (10 * mib)

abbrev inner_free : Gap
inner_free = record { offset = 21 * mib; size = 3 * mib; in_extended = true; usable = usable }

abbrev inner_rest : Gap
inner_rest = record { offset = 31 * mib; size = 19 * mib; in_extended = true; usable = usable }

abbrev mixed_items : List PartOrGap
mixed_items =
    part primary_part
    ∷ gap first_free
    ∷ part extended_part
    ∷ gap inner_free
    ∷ part logical_part
    ∷ gap inner_rest
    ∷ gap (plain_gap (50 * mib) (50 * mib))
    ∷ []

find_disk_gaps_v2_test : find_disk_gaps_v2 mixed_disk msdos_data ≡ mixed_items
unfolding find_disk_gaps_v2 sorted is_logical
find_disk_gaps_v2_test = refl

find_disk_gaps_v2-IsLaidOut_example :
    IsLaidOut mib mixed_disk.ptable none mib (find_disk_gaps_v2 mixed_disk msdos_data)
find_disk_gaps_v2-IsLaidOut_example =
    find_disk_gaps_v2-IsLaidOut mixed_disk msdos_data (omega arith) mixed_disk-IsLayout

find_disk_gaps_v2-Apart_example : Apart inner_free logical_part
unfolding find_disk_gaps_v2 sorted is_logical
find_disk_gaps_v2-Apart_example =
    find_disk_gaps_v2-Apart mixed_disk msdos_data inner_free logical_part (omega arith)
      mixed_disk-IsLayout (inr (inr (inr (inl refl)))) (inr (inr (inr (inr (inl refl))))) refl

find_disk_gaps_v2-shape_example :
    All
      (GapIs msdos_data (remaining_primary_partitions mixed_disk msdos_data))
      (find_disk_gaps_v2 mixed_disk msdos_data)
    × (only_parts (find_disk_gaps_v2 mixed_disk msdos_data) ≡ partitions_by_offset mixed_disk)
find_disk_gaps_v2-shape_example =
    find_disk_gaps_v2-shape mixed_disk msdos_data (omega arith) (omega arith)

abbrev plain_disk : Device
plain_disk = a_disk (100 * mib) (primary_part ∷ a_part 2 (10 * mib) (40 * mib) 2 other_flag ∷ [])

find_disk_gaps_v2-covers_example :
    Covered (12 * mib) (30 * mib) (find_disk_gaps_v2 plain_disk msdos_data)
unfolding is_logical
find_disk_gaps_v2-covers_example =
    find_disk_gaps_v2-covers plain_disk msdos_data (12 * mib) (30 * mib) (omega arith)
      ((refl, refl), ((refl, refl), tt)) (inr (omega arith), (inl (omega arith), tt)) refl refl
      (omega arith) (omega arith) (omega arith)

largest_of-max_example :
    IsFound (some true) mixed_items (largest_of (some true) mixed_items)
    × All (WantedAtMost (some true) (size_of (largest_of (some true) mixed_items))) mixed_items
largest_of-max_example = largest_of-max (some true) mixed_items

find_gap_after_removal-touches_example :
    In (gap first_free) mixed_items
    × (10 * mib < 11 * mib + 4 * mib)
    × (11 * mib < 10 * mib + 10 * mib)
unfolding find_gap_after_removal includes
find_gap_after_removal-touches_example =
    find_gap_after_removal-touches (a_part 9 (4 * mib) (11 * mib) 3 other_flag) mixed_items
      first_free (omega arith) (omega arith) refl
