-- ===== src/Gaps.antt =====
-- subiquity/common/filesystem/gaps.py: the free space of a device. Offsets and sizes are naturals;
-- the end of a gap is a difference that may be negative, an integer.
pub mod Find
pub mod Walk
pub mod Order
pub mod Layout
pub mod Complete
pub mod Shape
pub mod Search
pub mod Unaligned
pub mod Example
use subiquity.Base.{
  ℕ, zero, suc, ◌+◌, ◌-◌, ◌*◌, ◌/◌, ◌%◌, ◌≤◌, min, Bool, true, false, not, ◌&&◌, ◌||◌, Option, none,
  some, List, [], ◌∷◌, ◌++◌, ltb, leb, ◌==◌, if◌then◌else◌, filter, length, is_some,
}
use subiquity.Base.Ints.{ℤ, pos, negsuc, sub_ℕ, leb_ℤ}
use subiquity.Align.{align_up, align_down_signed, mib}
use subiquity.Storage.{
  Flag, extended, flag_eq, PTable, unsupported, has_ptable, PartitionAlignmentData, Partition,
  Device, disk, raid, volgroup, is_logical, alignment_data, has_preexisting_partition,
}
use subiquity.Storage.Sort.{sorted}

pub data GapUsable : Type 0 where
  usable too_many_primary_parts : GapUsable

abbrev pub usable_eq : GapUsable → GapUsable → Bool
usable_eq usable usable = true
usable_eq too_many_primary_parts too_many_primary_parts = true
usable_eq _ _ = false

-- The device of a gap is the one that it was computed for.
pub record Gap : Type 0 where
  pub offset : ℕ
  pub size : ℕ
  pub in_extended : Bool
  pub usable : GapUsable

abbrev pub is_usable : Gap → Bool
is_usable g = usable_eq g.usable usable

abbrev pub plain_gap : ℕ → ℕ → Gap
plain_gap start size = record { offset = start; size = size; in_extended = false; usable = usable }

pub data PartOrGap : Type 0 where
  part : Partition → PartOrGap
  gap : Gap → PartOrGap

-- The second gap of a split: a gap but for its size, which is negative where the EBR does not fit.
pub record RestGap : Type 0 where
  pub offset : ℕ
  pub size : ℤ
  pub in_extended : Bool
  pub usable : GapUsable

-- `Gap.split`: `none` is the ValueError for a size above that of the gap. In an extended partition
-- the rest leaves room for one more EBR.
unfoldable pub split : PartitionAlignmentData → Gap → ℕ → Option (Gap × Option RestGap)
split info g size =
    if ltb g.size size
    then none
    else if size == g.size
    then some (g, none)
    else let taken = if g.in_extended then size + info.ebr_space else size in
      some (
        record g { size = size },
        some (record {
          offset = g.offset + taken;
          size = sub_ℕ g.size taken;
          in_extended = g.in_extended;
          usable = g.usable;
        }),
      )

-- `info.primary_part_limit - len(primaries)`
unfoldable pub remaining_primary_partitions : Device → PartitionAlignmentData → ℤ
remaining_primary_partitions d info =
    sub_ℕ info.primary_part_limit (length (filter (λ p. not (is_logical d.ptable p)) d.partitions))

-- The loop of `find_disk_gaps_v1`: where the last partition ends once all are laid out in a row.
unfoldable pub used_v1 : ℕ → List Partition → ℕ
used_v1 used [] = used
used_v1 used (p ∷ ps) = used_v1 (align_up (used + p.size) mib) ps

abbrev pub parts_of : List Partition → List PartOrGap
parts_of [] = []
parts_of (p ∷ ps) = part p ∷ parts_of ps

unfoldable pub find_disk_gaps_v1 : Device → PartitionAlignmentData → List PartOrGap
unfolding used_v1 remaining_primary_partitions has_preexisting_partition
find_disk_gaps_v1 d info =
    let r = parts_of d.partitions in
    let used = used_v1 info.min_start_offset d.partitions in
    if has_preexisting_partition d
    then r
    else if not (leb_ℤ (pos 1) (remaining_primary_partitions d info))
    then r
    else elim (align_down_signed (sub_ℕ d.size info.min_end_offset) mib) [
      | pos end ↦ if leb (used + mib) end then r ++ gap (plain_gap used (end - used)) ∷ [] else r
      | negsuc _ ↦ r
    ]

-- `au` and `ad`: round up and down to the alignment of partitions.
unfoldable pub au : ℕ → ℕ → ℕ
au a v = let r = v % a in if r == 0 then v else v + a - r

unfoldable pub ad : ℕ → ℕ → ℕ
ad a v = v - v % a

-- `ad(v - w)`: Python's remainder has the sign of the divisor, so a negative difference is rounded
-- away from zero.
unfoldable pub ad_difference : ℕ → ℕ → ℕ → ℤ
unfolding ad
ad_difference a v w = if leb w v then pos (ad a (v - w)) else negsuc ((w - v + a - 1) / a * a - 1)

-- What the loop of `find_disk_gaps_v2` carries from one partition to the next.
pub record Cursor : Type 0 where
  pub prev_end : ℕ
  pub extended_end : Option ℕ

-- `gap_start`
unfoldable pub start_of : PartitionAlignmentData → Cursor → ℕ
unfolding au
start_of info c =
    let start = au info.part_align c.prev_end in
    elim c.extended_end [
      | none ↦ start
      | some end ↦ min end (au info.part_align (start + info.ebr_space))
    ]

-- `gap_end` in front of a partition
unfoldable pub gap_end_at : PartitionAlignmentData → Option PTable → Partition → ℤ
unfolding ad_difference
gap_end_at info ptable p =
    if is_logical ptable p
    then ad_difference info.part_align p.offset info.ebr_space
    else ad_difference info.part_align p.offset 0

-- `gap_end >= extended_end`
abbrev pub reaches : ℤ → ℕ → Bool
reaches gap_end end = leb_ℤ (pos end) gap_end

-- The last lines of the loop's body.
unfoldable pub cursor_after : Partition → Option ℕ → Cursor
cursor_after p ext =
    if flag_eq p.flag extended
    then record { prev_end = p.offset; extended_end = some (p.offset + p.size) }
    else record { prev_end = p.offset + p.size; extended_end = ext }

module _ (info : PartitionAlignmentData) (remaining : ℤ) where
  unfoldable pub maybe_add_gap : ℕ → ℤ → Bool → List PartOrGap
  maybe_add_gap start (negsuc _) in_extended = []
  maybe_add_gap start (pos end) in_extended =
      if leb (start + info.min_gap_size) end
      then gap (record {
        offset = start;
        size = end - start;
        in_extended = in_extended;
        usable = if in_extended || leb_ℤ (pos 1) remaining then usable else too_many_primary_parts;
      })
        ∷ []
      else []

  -- The gaps that are added in front of a partition, or of the end of the disk, and what
  -- `extended_end` is then.
  unfoldable pub gaps_before : Cursor → ℤ → List PartOrGap × Option ℕ
  gaps_before c gap_end = elim c.extended_end [
    | none ↦ (maybe_add_gap (start_of info c) gap_end false, none)
    | some end ↦
        if reaches gap_end end
        then (
          maybe_add_gap (start_of info c) (pos (ad info.part_align end)) true
              ++ maybe_add_gap (au info.part_align end) gap_end false,
          none,
        )
        else (maybe_add_gap (start_of info c) gap_end true, some end)
  ]

  module _ (ptable : Option PTable) (device_size : ℕ) where
    unfoldable pub walk : Cursor → List Partition → List PartOrGap
    unfolding gaps_before cursor_after gap_end_at maybe_add_gap start_of ad
    walk c [] = (gaps_before c (ad_difference info.part_align device_size info.min_end_offset)).0
    walk c (p ∷ ps) =
        let (found, ext) = gaps_before c (gap_end_at info ptable p) in
        found ++ part p ∷ walk (cursor_after p ext) ps

abbrev pub partitions_by_offset : Device → List Partition
partitions_by_offset d = sorted (λ (p : Partition). p.offset) d.partitions

abbrev pub start_cursor : PartitionAlignmentData → Cursor
start_cursor info = record { prev_end = info.min_start_offset; extended_end = none }

unfoldable pub find_disk_gaps_v2 : Device → PartitionAlignmentData → List PartOrGap
unfolding walk remaining_primary_partitions
find_disk_gaps_v2 d info =
    walk info (remaining_primary_partitions d info) d.ptable d.size (start_cursor info)
      (partitions_by_offset d)

abbrev pub lvm_chunk_size : ℕ
lvm_chunk_size = 4 * mib

unfoldable pub total_size : List Partition → ℕ
total_size [] = 0
total_size (p ∷ ps) = p.size + total_size ps

-- `_parts_and_gaps_vg`: the free space of a volume group is one gap, at no particular offset.
unfoldable pub parts_and_gaps_vg : Device → List PartOrGap
unfolding total_size
parts_and_gaps_vg d =
    if d.preserve
    then parts_of d.partitions
    else elim (align_down_signed (sub_ℕ d.size (total_size d.partitions)) lvm_chunk_size) [
      | pos remaining ↦
          if leb lvm_chunk_size remaining
          then parts_of d.partitions ++ gap (plain_gap 0 remaining) ∷ []
          else parts_of d.partitions
      | negsuc _ ↦ parts_of d.partitions
    ]

-- `parts_and_gaps_disk`; `none` is the KeyError of a table without alignment data.
unfoldable pub parts_and_gaps_disk : Device → Bool → Option (List PartOrGap)
unfolding find_disk_gaps_v1 find_disk_gaps_v2 alignment_data
parts_and_gaps_disk d ignore_disk_fs =
    if is_some d.fs && not ignore_disk_fs
    then some []
    else if has_ptable d.ptable unsupported
    then some (parts_of d.partitions)
    else elim (alignment_data d) [
      | none ↦ none
      | some info ↦
          some
            (if d.storage_version == 1 then find_disk_gaps_v1 d info else find_disk_gaps_v2 d info)
    ]

-- The dispatch on the class of the device.
unfoldable pub parts_and_gaps : Device → Bool → Option (List PartOrGap)
unfolding parts_and_gaps_disk parts_and_gaps_vg
parts_and_gaps d ignore_disk_fs = elim d.kind [
  | volgroup ↦ some (parts_and_gaps_vg d)
  | _ ↦ parts_and_gaps_disk d ignore_disk_fs
]
