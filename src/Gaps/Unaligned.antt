-- ===== src/Gaps/Unaligned.antt =====
-- An extended partition that ends at no aligned offset, with a primary one right behind it: the loop
-- of find_disk_gaps_v2 does not see that the extended partition is over, and later adds a gap from
-- its end, over the primary partition.
use subiquity.Base.{ℕ, ◌+◌, ◌*◌, ◌≡◌, refl, true, false, none, some, List, [], ◌∷◌}
use subiquity.Base.Ints.{negsuc}
use subiquity.Align.{mib}
use subiquity.Storage.{
  Flag, extended, other_flag, msdos, Partition, Device, disk, PartitionAlignmentData,
}
use subiquity.Storage.{is_logical}
use subiquity.Storage.Sort.{sorted}
use subiquity.Gaps.{part, gap, usable, find_disk_gaps_v2}

abbrev pub a_part : (id size offset number : ℕ) → Flag → Partition
a_part id size offset number flag = record {
  id = id;
  size = size;
  offset = offset;
  flag = flag;
  number = number;
  preserve = true;
  grub_device = false;
  resize = false;
  is_in_use = false;
  fs = none;
  constructed_device = false;
  estimated_min_size = negsuc 0;
}

abbrev pub a_disk : ℕ → List Partition → Device
a_disk size partitions = record {
  id = 0;
  kind = disk;
  size = size;
  ptable = some msdos;
  partitions = partitions;
  fs = none;
  constructed_device = false;
  is_in_use = false;
  preserve = true;
  grub_device = false;
  dasd_fba = none;
  storage_version = 2;
}

abbrev pub msdos_data : PartitionAlignmentData
msdos_data = record {
  part_align = mib;
  min_gap_size = mib;
  min_start_offset = mib;
  min_end_offset = 0;
  primary_part_limit = 4;
  ebr_space = mib;
}

abbrev first_part : Partition
first_part = a_part 1 (9 * mib + 512) mib 1 extended

abbrev second_part : Partition
second_part = a_part 2 (20 * mib) (10 * mib + 512) 2 other_flag

-- The last gap runs from 11 to 100 MiB, and the second partition up to 30 MiB.
overlap :
    find_disk_gaps_v2 (a_disk (100 * mib) (first_part ∷ second_part ∷ [])) msdos_data
    ≡ part first_part
      ∷ gap (record { offset = 2 * mib; size = 8 * mib; in_extended = true; usable = usable })
      ∷ part second_part
      ∷ gap (record { offset = 11 * mib; size = 89 * mib; in_extended = false; usable = usable })
      ∷ []
unfolding find_disk_gaps_v2 sorted is_logical
overlap = refl
