-- ===== src/Raid.antt =====
-- The size of a RAID and of an LVM volume group: calculate_data_offset_bytes, raid_device_sort,
-- get_raid_size and get_lvm_size of subiquity/models/filesystem.py. The ids that the members are
-- sorted by are numbers here.
pub mod Offset
pub mod Size
pub mod Fits
pub mod Example
use subiquity.Base.{
  ℕ, zero, suc, ◌+◌, ◌-◌, ◌*◌, ◌/◌, Bool, true, false, ◌&&◌, Option, none, some, List, [], ◌∷◌, ltb,
  leb, if◌then◌else◌, length, map,
}
use subiquity.Base.Ints.{ℤ, pos, negsuc, pos_part, sub_ℕ, leb_ℤ, sum_ℤ, ◌+ℤ◌}
use subiquity.Align.{align_up, align_down, align_down_signed, mib}
use subiquity.Storage.Sort.{sorted}

pub data Level : Type 0 where
  raid0 raid1 raid5 raid6 raid10 container unknown_level : Level

pub record RaidLevel : Type 0 where
  pub value : Level
  pub min_devices : ℕ
  pub supports_spares : Bool

abbrev pub raid_level : Level → ℕ → Bool → RaidLevel
raid_level value min_devices supports_spares = record {
  value = value;
  min_devices = min_devices;
  supports_spares = supports_spares;
}

abbrev pub raidlevels : List RaidLevel
raidlevels =
    raid_level raid0 2 false
    ∷ raid_level raid1 2 true
    ∷ raid_level raid5 3 true
    ∷ raid_level raid6 4 true
    ∷ raid_level raid10 4 true
    ∷ raid_level container 2 true
    ∷ []

-- What is read of a device that a RAID or a volume group is made of.
pub record Member : Type 0 where
  pub id : ℕ
  pub size : ℕ

-- DEFAULT_CHUNK
abbrev pub default_chunk : ℕ
default_chunk = 512

-- `bmspace`, of a size in sectors
unfoldable pub bitmap_space : ℕ → ℕ
bitmap_space devsize =
    if ltb devsize (64 * 2)
    then 0
    else if leb (200 * 1024 * 1024 * 2) (devsize - 64 * 2)
    then 128 * 2
    else if ltb (8 * 1024 * 1024 * 2) (devsize - 4 * 2)
    then 64 * 2
    else 4 * 2

-- `(headroom << 10) > devsize and headroom / 2 >= DEFAULT_CHUNK * 2 * 2`, where the quotient is exact
abbrev pub too_large : ℕ → ℕ → Bool
too_large devsize headroom =
    ltb devsize (headroom * 1024) && leb (2 * (default_chunk * 2 * 2)) headroom

-- The `while` loop.
unfoldable pub shrink_headroom : (fuel devsize headroom : ℕ) → ℕ
shrink_headroom zero devsize headroom = headroom
shrink_headroom (suc fuel) devsize headroom =
    let rest = shrink_headroom fuel devsize (headroom / 2) in
    if too_large devsize headroom then rest else headroom

-- `devsize` in sectors, rounded down to a chunk
abbrev pub sectors : ℕ → ℕ
sectors devsize = align_down (devsize / 512) default_chunk

unfoldable pub calculate_data_offset_bytes : ℕ → ℕ
unfolding bitmap_space shrink_headroom
calculate_data_offset_bytes devsize =
    let headroom = shrink_headroom 8 (sectors devsize) (128 * 1024 * 2) in
    align_up (12 * 2 + bitmap_space (sectors devsize) + headroom) (2 * 1024) * 512

abbrev pub raid_device_sort : List Member → List Member
raid_device_sort devices = sorted (λ (d : Member). d.id) devices

unfoldable pub usable_sizes : ℕ → List Member → List ℤ
usable_sizes data_offset [] = []
usable_sizes data_offset (d ∷ ds) =
    align_down_signed (sub_ℕ d.size data_offset) mib ∷ usable_sizes data_offset ds

-- `min` of a list with a first element
unfoldable pub smallest : ℤ → List ℤ → ℤ
smallest x [] = x
smallest x (y ∷ ys) = smallest (if leb_ℤ x y then x else y) ys

-- The branches on the level; `none` is the ValueError.
unfoldable pub level_size : Level → (count min_size total : ℕ) → Option ℕ
level_size raid0 count min_size total = some total
level_size container count min_size total = some total
level_size raid1 count min_size total = some min_size
level_size raid5 count min_size total = some (min_size * (count - 1))
level_size raid6 count min_size total = some (min_size * (count - 2))
level_size raid10 count min_size total = some (min_size * (count / 2))
level_size unknown_level count min_size total = none

-- The body behind the sort.
unfoldable pub sorted_raid_size : Level → List Member → Option ℕ
unfolding usable_sizes smallest level_size calculate_data_offset_bytes
sorted_raid_size level [] = some 0
sorted_raid_size level (d ∷ ds) =
    let data_offset = calculate_data_offset_bytes d.size in
    let first = align_down_signed (sub_ℕ d.size data_offset) mib in
    let rest = usable_sizes data_offset ds in
    elim (smallest first rest) [
      | pos (suc m) ↦ level_size level (suc (length ds)) (suc m) (pos_part (first +ℤ sum_ℤ rest))
      | _ ↦ some 0
    ]

unfoldable pub get_raid_size : Level → List Member → Option ℕ
unfolding sorted_raid_size
get_raid_size level devices = sorted_raid_size level (raid_device_sort devices)

-- LVM_OVERHEAD
abbrev pub lvm_overhead : ℕ
lvm_overhead = mib

-- `size_overrides.get(d, d.size)` is the argument `size_of`.
unfoldable pub get_lvm_size : (Member → ℕ) → List Member → ℤ
get_lvm_size size_of [] = pos 0
get_lvm_size size_of (d ∷ ds) =
    align_down_signed (sub_ℕ (size_of d) lvm_overhead) (4 * mib) +ℤ get_lvm_size size_of ds
