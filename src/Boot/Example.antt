-- ===== src/Boot/Example.antt =====
-- Boot plans on a disk that holds one large new partition.
use subiquity.Base.{◌*◌, ◌≡◌, refl, true, false, none, some, List, [], ◌∷◌}
use subiquity.Align.{mib}
use subiquity.Storage.{other_flag, prep, gpt, Partition, Device}
use subiquity.Gaps.{PartOrGap, part}
use subiquity.Gaps.Unaligned.{a_part, a_disk, msdos_data}
use subiquity.Boot.{
  NewPart, resize_part, slide, set_attr, device_grub, multi_step, steps, create_bios_part,
  prep_grub_size_bytes, get_boot_device_plan_bios, get_add_part_plan,
}
use subiquity.Boot.Valid.{IsMade, get_boot_device_plan_bios-IsMade, get_add_part_plan-IsMade}

abbrev new_part : Partition
new_part = record (a_part 1 (98 * mib) mib 1 other_flag) { preserve = false }

abbrev gpt_disk : Device
gpt_disk = record (a_disk (100 * mib) (new_part ∷ [])) { ptable = some gpt }

abbrev items : List PartOrGap
items = part new_part ∷ []

-- The only partition is made smaller and moved behind a new one.
bios_run :
    get_boot_device_plan_bios gpt_disk msdos_data items
    ≡ some (
        multi_step (
          steps (
            resize_part new_part mib false
            ∷ slide (new_part ∷ []) mib
            ∷ create_bios_part msdos_data
            ∷ set_attr (device_grub gpt_disk)
            ∷ [])))
unfolding get_boot_device_plan_bios
bios_run = refl

get_boot_device_plan_bios-IsMade_example :
    IsMade 1 (get_boot_device_plan_bios gpt_disk msdos_data items)
get_boot_device_plan_bios-IsMade_example =
    get_boot_device_plan_bios-IsMade gpt_disk msdos_data items

abbrev prep_part : NewPart
prep_part = record {
  size = prep_grub_size_bytes;
  flag = prep;
  grub_device = true;
  wipe_zero = true;
}

get_add_part_plan-IsMade_example :
    IsMade 1 (get_add_part_plan gpt_disk msdos_data prep_part none items)
get_add_part_plan-IsMade_example = get_add_part_plan-IsMade gpt_disk msdos_data prep_part none items
