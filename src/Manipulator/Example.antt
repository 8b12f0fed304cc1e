-- ===== src/Manipulator/Example.antt =====
-- Deleting, reformatting and building on the store of a disk with a physical volume.
use subiquity.Base.{false, not, ◌&&◌, ◌==◌, ℕ, ◌≡◌, refl, true, none, some, [], ◌∷◌, arith}
use subiquity.Render.{lvm_partition, disk, raid, partition}
use subiquity.Raid.{raid1, container}
use subiquity.Render.Ids.{mem}
use subiquity.Store.{
  ok, mounted, fs, subvolumes, new_object, add_raid, remove_raid, constructed_device, partitions,
  Store, ◌>>◌, link_one, link_all, remove_id, add_object, remove_object, remove_action, unlink_one,
  unlink_all, add_filesystem, remove_filesystem, add_mount, remove_mount, add_volgroup,
  remove_volgroup, add_logical_volume, remove_logical_volume,
}
use subiquity.Store.Linked.{Linked}
use subiquity.Store.Ensures.{Ensures}
use subiquity.Store.Shrinks.{Removes}
use subiquity.Store.Reach.{reachable-Linked}
use subiquity.Store.Example.{
  empty_store, with_mount, with_mount_steps, with_mount-AreProper, then_store,
}
use subiquity.Manipulator.{
  item_at, delete_subvolumes, delete_raid, for_each, targets, get_constructed_device,
  remove_partition, delete_mount, delete_filesystem, clear, delete_partition, delete_logical_volume,
  release_device, delete_volgroup, delete_method, reformat, create_raid,
}
use subiquity.Manipulator.Succeed.{delete_filesystem-returns}
use subiquity.Manipulator.Plain.{delete_method-returns}
use subiquity.Manipulator.Delete.{delete_method-Removes}
use subiquity.Manipulator.Reformat.{reformat-IsBare}
use subiquity.Manipulator.Create.{create_raid-IsBuilt}

delete_method-Removes_example :
    Ensures (λ x s'. Removes with_mount 1 s') (delete_method 6 partition 1 with_mount)
unfolding add_object link_all link_one add_volgroup add_logical_volume add_filesystem add_mount ◌>>◌
delete_method-Removes_example =
    delete_method-Removes 6 partition 1 with_mount
      (reachable-Linked with_mount with_mount_steps with_mount-AreProper) (omega arith)
      (omega arith)

-- Deleting the partition deletes the mount, the filesystem, the logical volume and the group first.
all_deleted : (then_store (delete_method 6 partition 1 with_mount) with_mount).actions ≡ 0 ∷ []
unfolding add_object link_all link_one add_volgroup add_logical_volume add_filesystem add_mount ◌>>◌
    delete_method delete_partition clear get_constructed_device targets remove_partition
    delete_volgroup for_each delete_logical_volume delete_filesystem delete_mount remove_mount
    remove_filesystem remove_logical_volume remove_volgroup release_device remove_object
    remove_action unlink_all unlink_one remove_id mem
all_deleted = refl

reformat-IsBare_example :
    Ensures
      (λ x s'. Linked s' × (s'.back partitions 0 ≡ []) × (s'.back fs 0 ≡ []))
      (reformat (delete_method 6) 0 (some "gpt") none with_mount)
unfolding add_object link_all link_one add_volgroup add_logical_volume add_filesystem add_mount ◌>>◌
reformat-IsBare_example =
    reformat-IsBare 6 0 (some "gpt") none with_mount
      (reachable-Linked with_mount with_mount_steps with_mount-AreProper) (omega arith)

create_raid-IsBuilt_example :
    Ensures
      (λ r s'.
        Linked s' × ((d : ℕ) → mem d (1 ∷ []) ≡ true → s'.back constructed_device d ≡ r ∷ []))
      (create_raid (delete_method 6) raid1 (1 ∷ []) [] with_mount)
unfolding add_object link_all link_one add_volgroup add_logical_volume add_filesystem add_mount ◌>>◌
    mem
create_raid-IsBuilt_example =
    create_raid-IsBuilt 6 raid1 (1 ∷ []) [] with_mount
      (reachable-Linked with_mount with_mount_steps with_mount-AreProper) (omega arith) (refl, tt)
      (λ d m.
        let e : d ≡ 1 = ground arith in
        rw e (omega arith, λ q k. let e : q ≡ 2 = ground arith in rw e refl))

-- A container with two subvolumes.
abbrev with_container : Store
with_container =
    let s0 = then_store (add_object (new_object disk []) empty_store) empty_store in
    let s1 = then_store (add_raid container (0 ∷ []) [] s0) s0 in
    let s2 = then_store (add_object (new_object raid ((subvolumes, 1) ∷ [])) s1) s1 in
    then_store (add_object (new_object raid ((subvolumes, 1) ∷ [])) s2) s2

-- The container is deleted, but the second subvolume is not.
subvolume_stays :
    (then_store (delete_method 4 raid 1 with_container) with_container).actions ≡ 0 ∷ 3 ∷ []
unfolding add_object link_all link_one add_raid ◌>>◌ delete_method delete_raid delete_subvolumes
    item_at clear get_constructed_device targets for_each remove_raid remove_object remove_action
    unlink_all unlink_one remove_id mem
subvolume_stays = refl

delete_filesystem-returns_example :
    (s' : Store) × (delete_filesystem (some 4) with_mount ≡ ok tt s')
    × Linked s'
    × ((q : ℕ)
        → mem q s'.actions
          ≡ (mem q with_mount.actions && not (q == 4) && not (mem q (with_mount.back mounted 4))))
unfolding add_object link_all link_one add_volgroup add_logical_volume add_filesystem add_mount ◌>>◌
    mem
delete_filesystem-returns_example =
    delete_filesystem-returns 4 with_mount
      (reachable-Linked with_mount with_mount_steps with_mount-AreProper) refl

delete_method-returns_example :
    (s' : Store) × (delete_method 2 lvm_partition 3 with_mount ≡ ok tt s')
    × Linked s'
    × (mem 3 s'.actions ≡ false)
    × ((f : ℕ) → mem f (with_mount.back fs 3) ≡ true → mem f s'.actions ≡ false)
unfolding add_object link_all link_one add_volgroup add_logical_volume add_filesystem add_mount ◌>>◌
    mem
delete_method-returns_example =
    delete_method-returns 0 3 with_mount
      (reachable-Linked with_mount with_mount_steps with_mount-AreProper) refl refl
      (λ f on. let e : f ≡ 4 = ground arith in rw e refl)
