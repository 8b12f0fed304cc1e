-- ===== src/Actions.antt =====
-- subiquity/common/filesystem/actions.py: which actions the user interface offers on an object, and
-- the checkers that allow or refuse them. The objects are those of Store.
pub mod Rules
pub mod Delete
pub mod Example
use Prim.Native.String.{String}
use text.Mathlib.Text.{◌==◌ as str_eq}
use subiquity.Base.{
  ℕ, zero, suc, ◌+◌, Bool, true, false, not, ◌&&◌, ◌||◌, Option, none, some, List, [], ◌∷◌, ◌++◌,
  ◌==◌, if◌then◌else◌, any, filter, length, ltb, is_some,
}
use subiquity.Render.{Kind, disk, raid, partition, lvm_volgroup, lvm_partition, zpool}
use subiquity.Render.Ids.{mem}
use subiquity.Storage.{Flag, bios_grub, prep, flag_eq}
use subiquity.Raid.{
  Level, container, raid0, raid1, raid5, raid6, raid10, unknown_level, RaidLevel, raidlevels,
}
use subiquity.Gaps.{GapUsable, usable, too_many_primary_parts}
use subiquity.Store.{
  Bootloader, no_bootloader, bios, uefi, prep_boot, Slot, fs, constructed_device, mounted,
  partitions, subvolumes, Object, Store, is_empty,
}
use subiquity.Manipulator.{first, targets, device_of, get_constructed_device}

pub data DeviceAction : Type 0 where
  info edit reformat partition_action format remove delete toggle_boot : DeviceAction

abbrev pub action_eq : DeviceAction → DeviceAction → Bool
action_eq info info = true
action_eq edit edit = true
action_eq reformat reformat = true
action_eq partition_action partition_action = true
action_eq format format = true
action_eq remove remove = true
action_eq delete delete = true
action_eq toggle_boot toggle_boot = true
action_eq _ _ = false

-- The texts that say why an action is refused, with what they name.
pub data Reason : Type 0 where
  part_of : (cd : ℕ) → Reason
  preexisting_raid has_partitions preexisting_volgroup has_logical_volumes : Reason
  preexisting_parent : (cd : ℕ) → Reason
  too_few_devices : (min_devices : ℕ) → Reason
  no_devices single_partition required_bootloader single_logical_volume : Reason
  part_in_use : (part cd : ℕ) → Reason
  mounted_parts : ℕ → Reason
  primary_limit : Reason

-- The exceptions of a checker on an object of a kind that it does not expect.
pub data Exc : Type 0 where
  not_implemented_error attribute_error : Exc

-- What a checker comes to: True, False, a text, or an exception.
pub data Answer : Type 0 where
  yes no : Answer
  because : Reason → Answer
  raised : Exc → Answer

-- What `can` comes to: the answer, its AssertionError for an action that is not offered, or the
-- NotImplementedError of a checker.
pub data Checked : Type 0 where
  answer : Answer → Checked
  not_offered not_implemented : Checked

abbrev pub has_bootloader : Bootloader → Bool
has_bootloader no_bootloader = false
has_bootloader _ = true

abbrev pub is_uefi : Bootloader → Bool
is_uefi uefi = true
is_uefi _ = false

abbrev pub is_container : Level → Bool
is_container container = true
is_container _ = false

-- `raid.container`, and its `metadata == "imsm"`
abbrev pub in_imsm : ℕ → Store → Bool
in_imsm r s = elim (first (targets subvolumes (s.object r).links)) [
  | none ↦ false
  | some c ↦ (s.object c).is_imsm
]

abbrev pub has_supported_ptable : Option String → Bool
has_supported_ptable none = true
has_supported_ptable (some ptable) = not (str_eq ptable "unsupported")

-- `_supported_actions`; `none` is its NotImplementedError.
unfoldable pub supported_actions : Kind → ℕ → Store → Option (List DeviceAction)
unfolding targets
supported_actions kind o s = elim kind [
  | disk ↦ some (
      info ∷ reformat ∷ format ∷ remove ∷ []
      ++ (if has_bootloader s.bootloader then toggle_boot ∷ [] else []))
  | partition ↦ some (edit ∷ remove ∷ delete ∷ [])
  | raid ↦
      if is_container (s.object o).raidlevel
      then some (edit ∷ delete ∷ [])
      else some (
          edit ∷ format ∷ remove ∷ delete ∷ reformat ∷ []
          ++ (if is_uefi s.bootloader && in_imsm o s then toggle_boot ∷ [] else []))
  | lvm_volgroup ↦ some (edit ∷ delete ∷ [])
  | lvm_partition ↦ some (edit ∷ delete ∷ [])
  | _ ↦ none
]

abbrev pub from_bool : Bool → Answer
from_bool b = if b then yes else no

-- The kinds that `label` of subiquity/common/filesystem/labels.py is registered for; for another one it
-- raises a NotImplementedError.
abbrev pub has_label : Kind → Bool
has_label disk = true
has_label raid = true
has_label partition = true
has_label lvm_volgroup = true
has_label lvm_partition = true
has_label _ = false

-- The text that names the device which is built on another.
abbrev pub naming : ℕ → Reason → Store → Answer
naming cd reason s =
    if has_label (s.object cd).kind then because reason else raised not_implemented_error

-- `_can_edit_generic` and `_can_delete_generic`
unfoldable pub unless_part : ℕ → Store → Answer
unfolding get_constructed_device
unless_part o s = elim (get_constructed_device o s) [
  | none ↦ yes
  | some cd ↦ naming cd (part_of cd) s
]

-- `on_supported_ptable`
abbrev pub on_supported_ptable : ℕ → Store → Bool
on_supported_ptable p s = elim (device_of p s) [
  | none ↦ false
  | some device ↦ has_supported_ptable (s.object device).ptable
]

unfoldable pub can_edit_partition : ℕ → Store → Answer
unfolding unless_part targets
can_edit_partition p s =
    if (s.object p).in_use
    then no
    else if not (on_supported_ptable p s)
    then no
    else unless_part p s

unfoldable pub can_edit_raid : ℕ → Store → Answer
unfolding unless_part
can_edit_raid r s =
    if (s.object r).preserve
    then because preexisting_raid
    else if not (is_empty (s.back partitions r))
    then because has_partitions
    else unless_part r s

unfoldable pub can_edit_vg : ℕ → Store → Answer
unfolding unless_part
can_edit_vg vg s =
    if (s.object vg).preserve
    then because preexisting_volgroup
    else if not (is_empty (s.back partitions vg))
    then because has_logical_volumes
    else unless_part vg s

unfoldable pub can_reformat_device : ℕ → Store → Answer
can_reformat_device d s =
    if (s.object d).has_in_use_partition
    then no
    else if is_empty (s.back partitions d)
    then no
    else if any (λ p. not (is_empty (s.back constructed_device p))) (s.back partitions d)
    then no
    else yes

unfoldable pub can_format_device : ℕ → Store → Answer
can_format_device d s =
    from_bool (is_empty (s.back partitions d) && is_empty (s.back constructed_device d))

abbrev pub level_eq : Level → Level → Bool
level_eq raid0 raid0 = true
level_eq raid1 raid1 = true
level_eq raid5 raid5 = true
level_eq raid6 raid6 = true
level_eq raid10 raid10 = true
level_eq container container = true
level_eq _ _ = false

-- `raidlevels_by_value[cd.raidlevel].min_devices`
unfoldable pub least_devices : Level → List RaidLevel → Option ℕ
least_devices level [] = none
least_devices level (l ∷ ls) =
    let rest = least_devices level ls in if level_eq level l.value then some l.min_devices else rest

abbrev pub has_exactly : ℕ → Option ℕ → Bool
has_exactly n none = false
has_exactly n (some m) = n == m

abbrev pub is_raid : Kind → Bool
is_raid raid = true
is_raid _ = false

abbrev pub is_volgroup : Kind → Bool
is_volgroup lvm_volgroup = true
is_volgroup _ = false

-- The kinds of what may be built on a device that have a field `preserve`: not a ZPool.
abbrev pub has_preserve : Kind → Bool
has_preserve zpool = false
has_preserve _ = true

-- What `_can_remove_device` says of a device that is part of `cd`.
unfoldable pub can_remove_from : (cd d : ℕ) → Store → Answer
unfolding mem least_devices
can_remove_from cd d s =
    let parent = s.object cd in
    if not (has_preserve parent.kind)
    then raised attribute_error
    else if parent.preserve
    then because (preexisting_parent cd)
    else if is_raid parent.kind
    then if mem d parent.spare_devices
      then yes
      else if has_exactly (length parent.devices) (least_devices parent.raidlevel raidlevels)
      then because (too_few_devices (length parent.devices))
      else yes
    else if is_volgroup parent.kind && length parent.devices == 1
    then because no_devices
    else yes

unfoldable pub can_remove_device : ℕ → Store → Answer
unfolding get_constructed_device can_remove_from
can_remove_device d s = elim (get_constructed_device d s) [
  | none ↦ no
  | some cd ↦ can_remove_from cd d s
]

-- `is_bootloader_partition` of subiquity/common/filesystem/boot.py
unfoldable pub is_bootloader_partition : ℕ → Store → Bool
is_bootloader_partition p s = elim s.bootloader [
  | bios ↦ flag_eq (s.object p).flag bios_grub
  | uefi ↦ (s.object p).is_esp
  | prep_boot ↦ flag_eq (s.object p).flag prep
  | no_bootloader ↦ false
]

abbrev pub any_preexisting : Option ℕ → Store → Bool
any_preexisting none s = false
any_preexisting (some d) s = any (λ p. (s.object p).preserve) (s.back partitions d)

unfoldable pub can_delete_partition : ℕ → Store → Answer
unfolding unless_part is_bootloader_partition targets
can_delete_partition p s =
    if (s.object p).in_use
    then no
    else if not (on_supported_ptable p s)
    then no
    else if any_preexisting (device_of p s) s
    then because single_partition
    else if is_bootloader_partition p s
    then because required_bootloader
    else unless_part p s

-- What the loop of `_can_delete_raid_vg` finds of a partition.
pub data PartState : Type 0 where
  has_mount not_used : PartState
  built : (cd : ℕ) → PartState

abbrev pub is_mounted : ℕ → Store → Bool
is_mounted p s = elim (first (s.back fs p)) [
  | none ↦ false
  | some f ↦ not (is_empty (s.back mounted f))
]

unfoldable pub part_state : ℕ → Store → PartState
unfolding get_constructed_device
part_state p s =
    if is_mounted p s
    then has_mount
    else elim (get_constructed_device p s) [ none ↦ not_used | some cd ↦ built cd ]

-- The text that names a partition in use: a logical volume has no `number`.
unfoldable pub naming_part : (p cd : ℕ) → Store → Answer
naming_part p cd s = elim (s.object p).kind [
  | lvm_partition ↦ raised attribute_error
  | _ ↦ naming cd (part_in_use p cd) s
]

-- The loop, with the mounted partitions so far: their number, or how it ends the call.
pub data Scan : Type 0 where
  blocked : Answer → Scan
  counted : ℕ → Scan

unfoldable pub scan_parts : ℕ → List ℕ → Store → Scan
unfolding part_state naming_part
scan_parts n [] s = counted n
scan_parts n (p ∷ ps) s = elim (part_state p s) [
  | has_mount ↦ scan_parts (suc n) ps s
  | built cd ↦ blocked (naming_part p cd s)
  | not_used ↦ scan_parts n ps s
]

abbrev pub after_scan : Scan → Answer → Answer
after_scan (blocked ending) rest = ending
after_scan (counted zero) rest = rest
after_scan (counted (suc n)) rest = because (mounted_parts (suc n))

unfoldable pub can_delete_raid_vg : ℕ → Store → Answer
unfolding scan_parts unless_part
can_delete_raid_vg d s = after_scan (scan_parts 0 (s.back partitions d) s) (unless_part d s)

unfoldable pub can_delete_lv : ℕ → Store → Answer
unfolding targets
can_delete_lv lv s =
    if any_preexisting (device_of lv s) s then because single_logical_volume else yes

-- `is_boot_device` of subiquity/common/filesystem/boot.py
unfoldable pub is_boot_device : ℕ → Store → Bool
unfolding targets
is_boot_device d s = elim (s.object d).kind [
  | disk ↦ elim s.bootloader [
    | no_bootloader ↦ false
    | bios ↦ (s.object d).grub_device
    | _ ↦ any (λ p. (s.object p).grub_device) (s.back partitions d)
  ]
  | raid ↦
      is_uefi s.bootloader
      && in_imsm d s
      && any (λ p. (s.object p).grub_device) (s.back partitions d)
  | _ ↦ false
]

-- `all_boot_devices`; its order is of no account here.
unfoldable pub all_boot_devices : Store → List ℕ
unfolding is_boot_device
all_boot_devices s = filter (λ d. is_boot_device d s) s.actions

unfoldable pub can_toggle_boot_disk : ℕ → Store → Answer
unfolding is_boot_device all_boot_devices
can_toggle_boot_disk d s =
    if is_boot_device d s
    then from_bool (any (λ other. not (other == d)) (all_boot_devices s))
    else if not (is_empty (s.back fs d) && is_empty (s.back constructed_device d))
    then no
    else from_bool (s.object d).can_be_boot

-- The checker of `PARTITION`, on a gap.
abbrev pub can_partition_gap : GapUsable → Answer
can_partition_gap usable = yes
can_partition_gap too_many_primary_parts = because primary_limit

-- The registered checkers; `none` is the NotImplementedError.
abbrev pub checker : DeviceAction → Kind → Option (ℕ → Store → Answer)
checker info disk = some (λ o s. yes)
checker edit partition = some can_edit_partition
checker edit lvm_partition = some unless_part
checker edit raid = some can_edit_raid
checker edit lvm_volgroup = some can_edit_vg
checker reformat disk = some can_reformat_device
checker reformat raid = some can_reformat_device
checker format disk = some can_format_device
checker format raid = some can_format_device
checker remove disk = some can_remove_device
checker remove partition = some can_remove_device
checker remove raid = some can_remove_device
checker delete partition = some can_delete_partition
checker delete raid = some can_delete_raid_vg
checker delete lvm_volgroup = some can_delete_raid_vg
checker delete lvm_partition = some can_delete_lv
checker toggle_boot disk = some can_toggle_boot_disk
checker toggle_boot raid = some can_toggle_boot_disk
checker _ _ = none

abbrev pub run_checker : Option (ℕ → Store → Answer) → ℕ → Store → Checked
run_checker none o s = not_implemented
run_checker (some check) o s = answer (check o s)

abbrev pub can_of : DeviceAction → Kind → ℕ → Store → Option (List DeviceAction) → Checked
can_of action kind o s none = not_implemented
can_of action kind o s (some actions) =
    if any (action_eq action) actions then run_checker (checker action kind) o s else not_offered

-- `DeviceAction.can`
unfoldable pub can : DeviceAction → ℕ → Store → Checked
unfolding supported_actions
can action o s = let kind = (s.object o).kind in can_of action kind o s (supported_actions kind o s)
