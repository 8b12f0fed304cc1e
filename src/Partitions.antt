-- ===== src/Partitions.antt =====
-- The number and the offset that a partition gets: Partition.__post_init__ and
-- FilesystemModel.assign_omitted_offsets of subiquity/models/filesystem.py.
pub mod Number
pub mod Offset
pub mod Renumber
pub mod Example
use subiquity.Base.{
  ℕ, zero, suc, ◌+◌, ◌-◌, Bool, true, false, not, ◌==◌, Option, none, some, List, [], ◌∷◌,
  if◌then◌else◌, any, filter, find, map,
}
use subiquity.Storage.{
  Flag, extended, logical, flag_eq, PTable, PartitionAlignmentData, Partition, is_logical,
}
use subiquity.Gaps.{au}

abbrev pub same_bool : Bool → Bool → Bool
same_bool true b = b
same_bool false b = not b

-- `used_nums` for a new partition that is logical or not; the new one has no number yet.
unfoldable pub used_nums : Option PTable → Bool → List Partition → List ℕ
used_nums ptable new_logical ps =
    map (λ (p : Partition). p.number) (filter (λ p. same_bool (is_logical ptable p) new_logical) ps)

-- The `for` loop over `count` numbers from `num` on.
unfoldable pub first_unused : List ℕ → (num count : ℕ) → Option ℕ
first_unused used num zero = none
first_unused used num (suc count) =
    let later = first_unused used (suc num) count in
    if any (λ k. k == num) used then later else some num

-- `possible_nums`: its first number and its length.
abbrev pub possible_nums : PartitionAlignmentData → Bool → ℕ × ℕ
possible_nums info true = (info.primary_part_limit + 1, 128 - info.primary_part_limit)
possible_nums info false = (1, info.primary_part_limit)

-- `none` is the exception "Exceeded number of available partitions". A partition without a number
-- is logical by its flag alone.
unfoldable pub choose_number :
    PartitionAlignmentData → Option PTable → Flag → List Partition → Option ℕ
unfolding used_nums first_unused
choose_number info ptable flag ps =
    let new_logical = flag_eq flag logical in
    let (lowest, count) = possible_nums info new_logical in
    first_unused (used_nums ptable new_logical ps) lowest count

-- A partition of the configuration, where the offset may be left out.
pub record Request : Type 0 where
  pub size : ℕ
  pub flag : Flag
  pub offset : Option ℕ

abbrev pub offset_or : Option ℕ → ℕ → ℕ
offset_or none default = default
offset_or (some o) default = o

-- The two `for` loops over partitions, with `room` 0 for primary ones and the EBR for logical ones.
unfoldable pub place : (align room prev_end : ℕ) → List Request → List Request
unfolding au
place align room prev_end [] = []
place align room prev_end (p ∷ ps) =
    let offset = offset_or p.offset (au align (prev_end + room)) in
    record p { offset = some offset } ∷ place align room (offset + p.size) ps

-- A disk with its partitions divided into primary and logical ones, where an extended one counts as
-- primary.
pub record RequestedDisk : Type 0 where
  pub info : PartitionAlignmentData
  pub primary : List Request
  pub logical : List Request

abbrev pub is_extended : Request → Bool
is_extended p = flag_eq p.flag extended

abbrev pub placed_primary : RequestedDisk → List Request
placed_primary d = place d.info.part_align 0 d.info.min_start_offset d.primary

-- The offset of the extended partition; `none` is the StopIteration where there is none.
unfoldable pub extended_offset : List Request → Option ℕ
extended_offset ps = elim (find is_extended ps) [ none ↦ none | some p ↦ p.offset ]

-- The `for` loop over the disks: it returns at the first one without a logical partition.
unfoldable pub assign_disks : List RequestedDisk → Option (List RequestedDisk)
unfolding place extended_offset
assign_disks [] = some []
assign_disks (d ∷ ds) =
    let rest = assign_disks ds in
    elim d.logical [
      | [] ↦ some (record d { primary = placed_primary d } ∷ ds)
      | _ ∷ _ ↦ elim (extended_offset (placed_primary d)) [
        | none ↦ none
        | some start ↦ elim rest [
          | none ↦ none
          | some placed ↦ some (
              record d {
                primary = placed_primary d;
                logical = place d.info.part_align d.info.ebr_space start d.logical;
              }
              ∷ placed)
        ]
      ]
    ]

unfoldable pub assign_omitted_offsets : ℕ → List RequestedDisk → Option (List RequestedDisk)
unfolding assign_disks
assign_omitted_offsets storage_version disks =
    let assigned = assign_disks disks in if storage_version == 2 then assigned else some disks
