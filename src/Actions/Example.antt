-- ===== src/Actions/Example.antt =====
-- The actions on a volume group, a RAID of three disks, and a disk in a ZPool.
use subiquity.Base.{ℕ, length, ◌≡◌, ◌≤◌, ◌↔◌, refl, true, false, none, [], ◌∷◌, arith}
use subiquity.Render.{disk}
use subiquity.Render.Ids.{mem}
use subiquity.Raid.{raid1}
use subiquity.Store.{
  partitions, new_object, Store, ◌>>◌, link_one, link_all, remove_id, add_object, add_filesystem,
  add_mount, add_raid, add_zpool, add_volgroup, add_logical_volume,
}
use subiquity.Store.Example.{empty_store, with_mount, then_store}
use subiquity.Manipulator.{get_constructed_device}
use subiquity.Actions.{
  delete, yes, because, raised, attribute_error, not_implemented_error, mounted_parts, answer,
  supported_actions, is_mounted, part_state, scan_parts, least_devices, unless_part,
  can_remove_from, can_remove_device, can_delete_raid_vg, can,
}
use subiquity.Actions.Rules.{can_remove_device-keeps}
use subiquity.Actions.Delete.{can_delete_raid_vg-yes}

can_delete_raid_vg-yes_example : (can_delete_raid_vg 2 with_mount ≡ yes) ↔ (
    ((p : ℕ)
      → mem p (with_mount.back partitions 2) ≡ true
      → (is_mounted p with_mount ≡ false) × (get_constructed_device p with_mount ≡ none))
    × (get_constructed_device 2 with_mount ≡ none))
can_delete_raid_vg-yes_example = can_delete_raid_vg-yes 2 with_mount

-- Its logical volume is mounted.
volgroup_stays : can delete 2 with_mount ≡ answer (because (mounted_parts 1))
unfolding can supported_actions can_delete_raid_vg scan_parts part_state unless_part
    get_constructed_device add_object link_all link_one add_volgroup add_logical_volume
    add_filesystem add_mount ◌>>◌
volgroup_stays = refl

abbrev with_disks : Store
with_disks =
    let s0 = then_store (add_object (new_object disk []) empty_store) empty_store in
    let s1 = then_store (add_object (new_object disk []) s0) s0 in
    then_store (add_object (new_object disk []) s1) s1

abbrev with_raid : Store
with_raid = then_store (add_raid raid1 (0 ∷ 1 ∷ 2 ∷ []) [] with_disks) with_disks

can_remove_device-keeps_example :
    ((with_raid.object 3).preserve ≡ false)
    × (2 ≤ length (remove_id 0 (with_raid.object 3).devices))
unfolding add_object link_all link_one add_raid get_constructed_device can_remove_device
    can_remove_from least_devices mem
can_remove_device-keeps_example =
    can_remove_device-keeps 3 0 2 with_raid refl refl refl refl (omega arith) refl

-- A disk that is part of a ZPool, which has neither a label nor `preserve`.
abbrev with_zpool : Store
with_zpool = then_store (add_zpool 0 with_disks) with_disks

zpool_has_no_preserve : can_remove_device 0 with_zpool ≡ raised attribute_error
unfolding add_object link_all link_one add_zpool get_constructed_device can_remove_device
    can_remove_from
zpool_has_no_preserve = refl

zpool_has_no_label : unless_part 0 with_zpool ≡ raised not_implemented_error
unfolding add_object link_all link_one add_zpool get_constructed_device unless_part
zpool_has_no_label = refl
