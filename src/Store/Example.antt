-- ===== src/Store/Example.antt =====
-- A store that the operations build, and the theorems on it.
use subiquity.Base.{◌≡◌, refl, false, none, [], ◌∷◌, arith}
use subiquity.Render.{disk, partition}
use subiquity.Render.Ids.{mem}
use subiquity.Store.{
  uefi, partitions, new_object, Store, Outcome, ok, raised, out_of_fuel, ◌>>◌, has_link, link_one,
  link_all, add_object, remove_object, add_filesystem, remove_filesystem, add_mount, add_volgroup,
  add_logical_volume,
}
use subiquity.Store.Linked.{Linked}
use subiquity.Store.Graph.{view, drops_volgroup, meaning, outcome, is_referred}
use subiquity.Store.Refine.{outcome-meaning}
use subiquity.Store.Reach.{
  Reachable, start, after, loaded, formatted, has_mount, has_volgroup, has_volume, AreProper,
  reachable-Linked,
}

abbrev pub then_store : {A : Type 0} → Outcome A → Store → Store
then_store (ok a s') s = s'
then_store raised s = s
then_store out_of_fuel s = s

abbrev pub empty_store : Store
empty_store = record {
  object = λ o. new_object disk [];
  actions = [];
  back = λ slot t. [];
  next = 0;
  storage_version = 1;
  bootloader = uefi;
}

-- A disk with a partition that is a physical volume, and a logical volume mounted at `/srv`.
abbrev pub with_disk : Store
with_disk = then_store (add_object (new_object disk []) empty_store) empty_store

abbrev pub with_partition : Store
with_partition =
    then_store (add_object (new_object partition ((partitions, 0) ∷ [])) with_disk) with_disk

abbrev pub with_volgroup : Store
with_volgroup = then_store (add_volgroup (1 ∷ []) with_partition) with_partition

abbrev pub with_volume : Store
with_volume = then_store (add_logical_volume 2 with_volgroup) with_volgroup

abbrev pub with_filesystem : Store
with_filesystem = then_store (add_filesystem 3 "ext4" false with_volume) with_volume

abbrev pub with_mount : Store
with_mount = then_store (add_mount 4 "/srv" with_filesystem) with_filesystem

abbrev pub with_mount_steps : Reachable with_mount
unfolding add_object link_all link_one add_volgroup add_logical_volume add_filesystem add_mount ◌>>◌
with_mount_steps =
    after with_filesystem with_mount
      (after with_volume with_filesystem
        (after with_volgroup with_volume
          (after with_partition with_volgroup
            (after with_disk with_partition
              (after empty_store with_disk (start 1 uefi) (loaded (new_object disk []) 0 refl))
              (loaded (new_object partition ((partitions, 0) ∷ [])) 1 refl))
            (has_volgroup (1 ∷ []) 2 refl))
          (has_volume 2 3 refl))
        (formatted 3 "ext4" false 4 refl))
      (has_mount 4 "/srv" 5 refl)

pub with_mount-AreProper : AreProper with_mount with_mount_steps
unfolding add_object link_all link_one add_volgroup add_logical_volume add_filesystem add_mount ◌>>◌
    has_link mem
with_mount-AreProper = (
  (
    (
      (
        (
          (tt, record { once = tt; free = λ slot t h one. cc; seen = λ slot t h. cc }),
          record {
            once = (refl, tt);
            free = λ slot t h one. refl;
            seen = λ slot t h. let e : t ≡ 0 = ground arith in rw e (omega arith);
          },
        ),
        record { distinct = (refl, tt); there = λ t m. ground arith; unused = λ t m. refl },
      ),
      omega arith,
    ),
    omega arith,
  ),
  omega arith,
)

reachable-Linked_example : Linked with_mount
reachable-Linked_example = reachable-Linked with_mount with_mount_steps with_mount-AreProper

-- What is mounted cannot be removed.
mounted_stays : remove_filesystem 4 with_mount ≡ raised
unfolding remove_filesystem remove_object ◌>>◌ add_object link_all link_one add_volgroup
    add_logical_volume add_filesystem add_mount
mounted_stays = refl

-- Neither the model nor the graph lets the volume group go, to which the logical volume refers.
outcome-meaning_example :
    outcome (drops_volgroup 2) with_mount ≡ meaning (drops_volgroup 2) (view with_mount)
outcome-meaning_example =
    outcome-meaning with_mount (drops_volgroup 2)
      (reachable-Linked with_mount with_mount_steps with_mount-AreProper)

volgroup_is_kept : meaning (drops_volgroup 2) (view with_mount) ≡ none
unfolding meaning is_referred has_link add_object link_all link_one add_volgroup add_logical_volume
    add_filesystem add_mount ◌>>◌
volgroup_is_kept = refl
