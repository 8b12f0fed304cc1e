-- ===== src/Storage.antt =====
-- The storage objects of subiquity/models/filesystem.py that partitioning works on: a disk, RAID or
-- volume group with its partitions, and what is on a partition. An object is a record; where Python
-- compares identities the model compares the field `id`. References to other objects stand as the
-- values that the partitioning code reads of them.
pub mod Sort
use Prim.Native.String.{String}
use subiquity.Base.{
  ℕ, suc, ◌+◌, ◌-◌, ◌*◌, ◌≤◌, ◌≡◌, Bool, true, false, not, ◌&&◌, ◌||◌, Option, none, some, List, [],
  ◌∷◌, ltb, leb, ◌==◌, if◌then◌else◌, any, filter, length, is_some,
}
use subiquity.Base.Ints.{ℤ, pos, negsuc}
use subiquity.Align.{mib}

-- The partition flags that the code tests for; `other_flag` is any other text, None and "" included.
pub data Flag : Type 0 where
  boot bios_grub prep swap extended logical other_flag : Flag

abbrev pub flag_eq : Flag → Flag → Bool
flag_eq boot boot = true
flag_eq bios_grub bios_grub = true
flag_eq prep prep = true
flag_eq swap swap = true
flag_eq extended extended = true
flag_eq logical logical = true
flag_eq other_flag other_flag = true
flag_eq _ _ = false

pub data PTable : Type 0 where
  gpt msdos vtoc unsupported : PTable

abbrev pub ptable_eq : PTable → PTable → Bool
ptable_eq gpt gpt = true
ptable_eq msdos msdos = true
ptable_eq vtoc vtoc = true
ptable_eq unsupported unsupported = true
ptable_eq _ _ = false

abbrev pub has_ptable : Option PTable → PTable → Bool
has_ptable none t = false
has_ptable (some s) t = ptable_eq s t

pub record PartitionAlignmentData : Type 0 where
  pub part_align : ℕ
  pub min_gap_size : ℕ
  pub min_start_offset : ℕ
  pub min_end_offset : ℕ
  pub primary_part_limit : ℕ
  pub ebr_space : ℕ

-- `_partition_alignment_data`; `none` is the KeyError for a table that it does not list.
unfoldable pub partition_alignment_data : PTable → Option PartitionAlignmentData
partition_alignment_data gpt = some (record {
  part_align = mib;
  min_gap_size = mib;
  min_start_offset = mib;
  min_end_offset = mib;
  primary_part_limit = 128;
  ebr_space = 0;
})
partition_alignment_data msdos = some (record {
  part_align = mib;
  min_gap_size = mib;
  min_start_offset = mib;
  min_end_offset = 0;
  primary_part_limit = 4;
  ebr_space = mib;
})
partition_alignment_data vtoc = some (record {
  part_align = mib;
  min_gap_size = mib;
  min_start_offset = mib;
  min_end_offset = 0;
  primary_part_limit = 3;
  ebr_space = mib;
})
partition_alignment_data unsupported = none

-- Filesystem, with the path of its mount.
pub record Filesystem : Type 0 where
  pub fstype : String
  pub preserve : Bool
  pub mount : Option String

pub record Partition : Type 0 where
  pub id : ℕ
  pub size : ℕ
  pub offset : ℕ
  pub flag : Flag
  pub number : ℕ
  pub preserve : Bool
  pub grub_device : Bool
  pub resize : Bool
  pub is_in_use : Bool
  pub fs : Option Filesystem
  pub constructed_device : Bool
  pub estimated_min_size : ℤ

-- `p.is_logical` for a partition of a device with the table `ptable`
unfoldable pub is_logical : Option PTable → Partition → Bool
is_logical ptable p = flag_eq p.flag logical || (has_ptable ptable msdos && ltb 4 p.number)

pub data DeviceKind : Type 0 where
  disk raid volgroup : DeviceKind

-- Disk, Raid and LVM_VolGroup; `dasd_fba` is the type in the probe data of a DASD, and whether it
-- is FBA; `storage_version` is the model's.
pub record Device : Type 0 where
  pub id : ℕ
  pub kind : DeviceKind
  pub size : ℕ
  pub ptable : Option PTable
  pub partitions : List Partition
  pub fs : Option Filesystem
  pub constructed_device : Bool
  pub is_in_use : Bool
  pub preserve : Bool
  pub grub_device : Bool
  pub dasd_fba : Option Bool
  pub storage_version : ℕ

-- A Disk without a table takes DASD probe data into account; the other devices do not.
unfoldable pub ptable_for_new_partition : Device → PTable
ptable_for_new_partition d = elim d.ptable [
  | some t ↦ t
  | none ↦ elim d.kind [
    | disk ↦ elim d.dasd_fba [ none ↦ gpt | some fba ↦ if fba then msdos else vtoc ]
    | _ ↦ gpt
  ]
]

unfoldable pub alignment_data : Device → Option PartitionAlignmentData
unfolding ptable_for_new_partition partition_alignment_data
alignment_data d = partition_alignment_data (ptable_for_new_partition d)

unfoldable pub has_preexisting_partition : Device → Bool
has_preexisting_partition d = any (λ (p : Partition). p.preserve) d.partitions

unfoldable pub is_entirely_used : Device → Bool
is_entirely_used d = is_some d.fs || d.constructed_device

-- Extended partitions are not counted: what they hold is.
unfoldable pub sum_sizes : List Partition → ℕ
sum_sizes [] = 0
sum_sizes (p ∷ ps) = (if flag_eq p.flag extended then 0 else p.size) + sum_sizes ps

unfoldable pub used : Device → ℕ
unfolding is_entirely_used sum_sizes
used d = if is_entirely_used d then d.size else sum_sizes d.partitions
