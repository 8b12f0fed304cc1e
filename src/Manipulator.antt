-- ===== src/Manipulator.antt =====
-- FilesystemManipulator of subiquity/common/filesystem/manipulator.py, on the object store: the
-- methods that delete objects with all that is built on them, and those that build a RAID or volume
-- group. An object of the store has no offset, size or number; what the methods do to those of the
-- partitions that stay is not in the model.
pub mod Loops
pub mod Built
pub mod Clear
pub mod Delete
pub mod Succeed
pub mod Plain
pub mod Reformat
pub mod Create
pub mod Example
use Prim.Native.String.{String}
use subiquity.Base.{
  ℕ, zero, suc, Bool, true, false, not, ◌&&◌, Option, none, some, List, [], ◌∷◌, ◌++◌,
  if◌then◌else◌, ltb, length,
}
use subiquity.Render.{
  Kind, disk, raid, partition, lvm_volgroup, lvm_partition, dm_crypt, format, mount, zpool, zfs,
}
use subiquity.Raid.{Level}
use subiquity.Store.{
  Slot, fs, constructed_device, mounted, partitions, subvolumes, slot_eq, Link, Object, Store,
  Outcome, ok, raised, out_of_fuel, M, pure, raise, ◌>>=◌, ◌>>◌, guard, set_object, has_no,
  remove_object, remove_filesystem, remove_mount, remove_raid, remove_volgroup,
  remove_logical_volume, remove_dm_crypt, add_raid, add_volgroup, add_dm_crypt,
}

abbrev pub Method : Type 0
Method = Kind → ℕ → M (Unit {0})

-- An assignment to attributes of an object.
abbrev pub assign : ℕ → (Object → Object) → M (Unit {0})
assign o f s = ok tt (set_object s o (f (s.object o)))

abbrev pub set_wipe : Option String → ℕ → M (Unit {0})
set_wipe wipe o = assign o (λ obj. record obj { wipe = wipe })

abbrev pub first : List ℕ → Option ℕ
first [] = none
first (x ∷ xs) = some x

unfoldable pub item_at : ℕ → List ℕ → Option ℕ
item_at i [] = none
item_at zero (x ∷ xs) = some x
item_at (suc i) (x ∷ xs) = item_at i xs

unfoldable pub for_each : (ℕ → M (Unit {0})) → List ℕ → M (Unit {0})
for_each f [] s = ok tt s
for_each f (x ∷ xs) s = (f x >> for_each f xs) s

-- The objects that a field of links holds.
unfoldable pub targets : Slot → List Link → List ℕ
targets slot [] = []
targets slot ((sl, t) ∷ ls) =
    let rest = targets slot ls in if slot_eq slot sl then t ∷ rest else rest

abbrev pub is_dm_crypt : Kind → Bool
is_dm_crypt dm_crypt = true
is_dm_crypt _ = false

abbrev pub is_disk : Kind → Bool
is_disk disk = true
is_disk _ = false

-- `constructed_device()`: that of an encrypted device itself skips nothing.
unfoldable pub get_constructed_device : ℕ → Store → Option ℕ
get_constructed_device o s = elim (first (s.back constructed_device o)) [
  | none ↦ none
  | some cd ↦
      if is_dm_crypt (s.object cd).kind && not (is_dm_crypt (s.object o).kind)
      then first (s.back constructed_device cd)
      else some cd
]

-- `part.device`
abbrev pub device_of : ℕ → Store → Option ℕ
device_of p s = first (targets partitions (s.object p).links)

-- `remove_partition` of the model
unfoldable pub remove_partition : ℕ → M (Unit {0})
unfolding remove_object targets
remove_partition p s = elim (device_of p s) [
  | none ↦ raised
  | some device ↦
      (guard (λ s. has_no fs p s && has_no constructed_device p s) >> remove_object p >> λ s.
      if has_no partitions device s
      then assign device (λ obj. record obj { ptable = none }) s
      else ok tt s)
        s
]

unfoldable pub delete_mount : Option ℕ → M (Unit {0})
unfolding remove_mount
delete_mount none = pure tt
delete_mount (some m) = remove_mount m

unfoldable pub delete_filesystem : Option ℕ → M (Unit {0})
unfolding delete_mount remove_filesystem
delete_filesystem none = pure tt
delete_filesystem (some f) = (λ s. delete_mount (first (s.back mounted f)) s) >> remove_filesystem f

-- The round of `delete_volgroup` for one device.
unfoldable pub release_device : ℕ → M (Unit {0})
unfolding remove_dm_crypt
release_device d = set_wipe (some "superblock") d >> λ s.
    if is_dm_crypt (s.object d).kind then remove_dm_crypt d s else ok tt s

-- The methods that delete call one another through `getattr(self, "delete_" + obj.type)`.
module _ (delete_method : Method) where
  abbrev pub delete : Option ℕ → M (Unit {0})
  delete none s = ok tt s
  delete (some o) s = delete_method (s.object o).kind o s

  unfoldable pub clear : Option String → ℕ → M (Unit {0})
  unfolding get_constructed_device
  clear wipe o =
      (λ s.
        if is_disk (s.object o).kind
        then assign o (λ obj. record obj { preserve = false }) s
        else ok tt s)
      >> set_wipe (elim wipe [ none ↦ some "superblock" | some w ↦ some w ]) o
      >> λ s. (delete (first (s.back fs o)) >> delete (get_constructed_device o s)) s

  unfoldable pub delete_partition : (override_preserve : Bool) → ℕ → M (Unit {0})
  unfolding clear remove_partition targets
  delete_partition override_preserve p s = elim (device_of p s) [
    | none ↦ raised
    | some device ↦
        if not override_preserve && (s.object device).preserve && ltb s.storage_version 2
        then raised
        else (clear none p >> remove_partition p) s
  ]

  unfoldable pub delete_logical_volume : ℕ → M (Unit {0})
  unfolding clear remove_logical_volume
  delete_logical_volume lv = clear none lv >> remove_logical_volume lv

  -- `for v in raid._subvolumes` reads the list by index while it changes. `n` bounds the rounds.
  unfoldable pub delete_subvolumes : (n : ℕ) → ℕ → ℕ → M (Unit {0})
  unfolding item_at
  delete_subvolumes zero r i s = out_of_fuel
  delete_subvolumes (suc n) r i s = elim (item_at i (s.back subvolumes r)) [
    | none ↦ ok tt s
    | some v ↦ (delete_method raid v >> delete_subvolumes n r (suc i)) s
  ]

  unfoldable pub delete_raid : ℕ → M (Unit {0})
  unfolding clear delete_subvolumes for_each delete_partition targets remove_raid
  delete_raid r =
      clear none r
      >> (λ s. delete_subvolumes (suc (length (s.back subvolumes r))) r 0 s)
      >> (λ s. for_each (delete_partition true) (s.back partitions r) s)
      >> (λ s.
          for_each (set_wipe (some "superblock")) (targets constructed_device (s.object r).links) s)
      >> remove_raid r

  unfoldable pub delete_volgroup : ℕ → M (Unit {0})
  unfolding for_each delete_logical_volume targets release_device remove_volgroup
  delete_volgroup vg =
      (λ s. for_each delete_logical_volume (s.back partitions vg) s)
      >> (λ s. for_each release_device (targets constructed_device (s.object vg).links) s)
      >> remove_volgroup vg

  unfoldable pub reformat : ℕ → (ptable wipe : Option String) → M (Unit {0})
  unfolding clear delete_partition for_each
  reformat device ptable wipe =
      assign device (λ obj. record obj { grub_device = false })
      >> (λ s. for_each (delete_partition true) (s.back partitions device) s)
      >> assign device (λ obj. record obj { ptable = ptable })
      >> clear wipe device

  unfoldable pub create_raid : Level → (devices spare_devices : List ℕ) → M ℕ
  unfolding for_each clear add_raid
  create_raid level devices spares =
      for_each (clear none) (devices ++ spares) >> add_raid level devices spares

-- The method of each kind; there is none for a disk, an encrypted device, a pool or a dataset, which
-- is an AttributeError. `n` bounds how deep the methods call one another.
unfoldable pub delete_method : (n : ℕ) → Method
unfolding delete_partition delete_raid delete_volgroup delete_logical_volume delete_filesystem
    delete_mount
delete_method zero kind o s = out_of_fuel
delete_method (suc n) kind o s = elim kind [
  | partition ↦ delete_partition (delete_method n) false o s
  | raid ↦ delete_raid (delete_method n) o s
  | lvm_volgroup ↦ delete_volgroup (delete_method n) o s
  | lvm_partition ↦ delete_logical_volume (delete_method n) o s
  | format ↦ delete_filesystem (some o) s
  | mount ↦ delete_mount (some o) s
  | _ ↦ raised
]
