-- ===== src/Store.antt =====
-- The object store of FilesystemModel in subiquity/models/filesystem.py: objects that refer to one
-- another, the backlinks that `_set_backlinks` and `_remove_backlinks` maintain, and the operations
-- that add and remove objects. An object is a number; its attributes stand in `objects`.
pub mod Links
pub mod Linked
pub mod Ensures
pub mod Shrinks
pub mod Reach
pub mod Graph
pub mod Refine
pub mod Example
use Prim.Native.String.{String}
use subiquity.Base.{
  ℕ, zero, suc, ◌+◌, ◌%◌, Bool, true, false, not, ◌&&◌, ◌||◌, Option, none, some, List, [], ◌∷◌,
  ◌++◌, ◌==◌, if◌then◌else◌, map,
}
use subiquity.Storage.{Flag}
use subiquity.Render.{
  Kind, disk, raid, partition, lvm_volgroup, lvm_partition, dm_crypt, format, mount, zpool, zfs,
}
use subiquity.Render.Ids.{mem}
use subiquity.Raid.{Level, unknown_level}

pub data Bootloader : Type 0 where
  no_bootloader bios uefi prep_boot : Bootloader

-- The backlink fields. `_fs`, `_constructed_device` and `_mount` hold one object or None, the others
-- a list.
pub data Slot : Type 0 where
  fs constructed_device mounted partitions subvolumes zfses : Slot

abbrev pub slot_eq : Slot → Slot → Bool
slot_eq fs fs = true
slot_eq constructed_device constructed_device = true
slot_eq mounted mounted = true
slot_eq partitions partitions = true
slot_eq subvolumes subvolumes = true
slot_eq zfses zfses = true
slot_eq _ _ = false

abbrev pub is_single : Slot → Bool
is_single fs = true
is_single constructed_device = true
is_single mounted = true
is_single _ = false

-- The fields that are declared with a backlink, in order: the backlink, and the object referred to.
abbrev pub Link : Type 0
Link = Slot × ℕ

pub record Object : Type 0 where
  pub kind : Kind
  pub preserve : Bool
  pub wipe : Option String
  pub flag : Flag
  pub grub_device : Bool
  -- of a disk or RAID
  pub ptable : Option String
  -- of a format
  pub fstype : String
  -- of a mount
  pub path : String
  pub links : List Link
  -- of a RAID; `devices` of a volume group too
  pub devices : List ℕ
  pub spare_devices : List ℕ
  pub raidlevel : Level
  -- `metadata == "imsm"`
  pub is_imsm : Bool
  -- `_is_in_use`, `_has_in_use_partition`
  pub in_use : Bool
  pub has_in_use_partition : Bool
  -- what `is_esp` and `can_be_boot_device` of subiquity/common/filesystem/boot.py answer
  pub is_esp : Bool
  pub can_be_boot : Bool

pub record Store : Type 0 where
  pub object : ℕ → Object
  pub actions : List ℕ
  pub back : Slot → ℕ → List ℕ
  -- the number of the next object
  pub next : ℕ
  pub storage_version : ℕ
  pub bootloader : Bootloader

-- What a method returns: a value and the model, or an exception.
pub data Outcome (A : Type 0) : Type 0 where
  ok : A → Store → Outcome A
  raised : Outcome A
  out_of_fuel : Outcome A

abbrev pub M : Type 0 → Type 0
M A = Store → Outcome A

abbrev pub pure : {A : Type 0} → A → M A
pure a s = ok a s

abbrev pub raise : {A : Type 0} → M A
raise s = raised

infixl 5 ◌>>=◌ ◌>>◌
abbrev pub ◌>>=◌ : {A B : Type 0} → M A → (A → M B) → M B
◌>>=◌ m f s = elim (m s) [ ok a s' ↦ f a s' | raised ↦ raised | out_of_fuel ↦ out_of_fuel ]

-- It is shut, so that a proof finds the two methods of a sequence in its goal.
unfoldable pub ◌>>◌ : {B : Type 0} → M (Unit {0}) → M B → M B
m >> k = m >>= λ _. k

abbrev pub guard : (Store → Bool) → M (Unit {0})
guard test s = if test s then ok tt s else raised

abbrev pub is_empty : List ℕ → Bool
is_empty [] = true
is_empty (x ∷ xs) = false

abbrev pub link_eq : Slot → ℕ → Link → Bool
link_eq slot target (sl, t) = slot_eq slot sl && target == t

unfoldable pub has_link : Slot → ℕ → List Link → Bool
has_link slot target [] = false
has_link slot target (l ∷ ls) = link_eq slot target l || has_link slot target ls

abbrev pub set_back : Store → Slot → ℕ → List ℕ → Store
set_back s slot target xs = record s {
  back = λ sl t. if slot_eq sl slot && t == target then xs else s.back sl t;
}

abbrev pub set_object : Store → ℕ → Object → Store
set_object s o obj = record s { object = λ x. if x == o then obj else s.object x }

-- The body of the loop of `_set_backlinks`: a single field is overwritten, a list is appended to.
unfoldable pub link_one : ℕ → Slot → ℕ → Store → Store
link_one o slot target s =
    set_back s slot target (if is_single slot then o ∷ [] else s.back slot target ++ o ∷ [])

-- `_set_backlinks`
unfoldable pub link_all : ℕ → List Link → Store → Store
unfolding link_one
link_all o [] s = s
link_all o ((slot, target) ∷ ls) s = link_all o ls (link_one o slot target s)

-- `list.remove` and `set.remove`
unfoldable pub remove_id : ℕ → List ℕ → List ℕ
remove_id o [] = []
remove_id o (x ∷ xs) = let rest = remove_id o xs in if o == x then xs else x ∷ rest

-- The body of the loop of `_remove_backlinks`: a single field becomes None; `none` is the ValueError
-- of `list.remove`.
unfoldable pub unlink_one : ℕ → Slot → ℕ → Store → Option Store
unfolding mem remove_id
unlink_one o slot target s =
    let b = s.back slot target in
    if is_single slot
    then some (set_back s slot target [])
    else if mem o b
    then some (set_back s slot target (remove_id o b))
    else none

-- `_remove_backlinks`
unfoldable pub unlink_all : ℕ → List Link → Store → Option Store
unfolding unlink_one
unlink_all o [] s = some s
unlink_all o ((slot, target) ∷ ls) s = elim (unlink_one o slot target s) [
  | none ↦ none
  | some s' ↦ unlink_all o ls s'
]

-- A new object: its constructor sets the backlinks, and then it is appended to `_actions`.
unfoldable pub add_object : Object → M ℕ
unfolding link_all
add_object obj s =
    let o = s.next in
    let linked = link_all o obj.links (set_object s o obj) in
    ok o (record linked { actions = linked.actions ++ o ∷ []; next = suc o })

-- `self._actions.remove(obj)`; an object that is not in `_actions` is a ValueError.
unfoldable pub remove_action : ℕ → Option Store → Outcome (Unit {0})
unfolding mem remove_id
remove_action o none = raised
remove_action o (some s) =
    if mem o s.actions then ok tt (record s { actions = remove_id o s.actions }) else raised

-- `_remove`
unfoldable pub remove_object : ℕ → M (Unit {0})
unfolding unlink_all remove_action
remove_object o s = remove_action o (unlink_all o (s.object o).links s)

abbrev pub has_no : Slot → ℕ → Store → Bool
has_no slot o s = is_empty (s.back slot o)

abbrev pub new_object : Kind → List Link → Object
new_object kind links = record {
  kind = kind;
  preserve = false;
  wipe = none;
  flag = Flag.other_flag;
  grub_device = false;
  ptable = none;
  fstype = "";
  path = "";
  links = links;
  devices = [];
  spare_devices = [];
  raidlevel = unknown_level;
  is_imsm = false;
  in_use = false;
  has_in_use_partition = false;
  is_esp = false;
  can_be_boot = false;
}

abbrev pub links_to : Slot → List ℕ → List Link
links_to slot [] = []
links_to slot (t ∷ ts) = (slot, t) ∷ links_to slot ts

-- The guard is the test `volume._fs is not None`. The one before it, `not volume.available`, is on
-- the method itself, and never holds.
unfoldable pub add_filesystem : (volume : ℕ) → String → Bool → M ℕ
unfolding add_object
add_filesystem volume fstype preserve =
    guard (has_no fs volume)
    >> add_object
        (record (new_object format ((fs, volume) ∷ [])) { fstype = fstype; preserve = preserve })

unfoldable pub remove_filesystem : ℕ → M (Unit {0})
unfolding remove_object
remove_filesystem f = guard (has_no mounted f) >> remove_object f

unfoldable pub add_mount : (filesystem : ℕ) → String → M ℕ
unfolding add_object
add_mount f path =
    guard (has_no mounted f)
    >> add_object (record (new_object mount ((mounted, f) ∷ [])) { path = path })

unfoldable pub remove_mount : ℕ → M (Unit {0})
unfolding remove_object
remove_mount m = remove_object m

unfoldable pub add_raid : Level → (devices spare_devices : List ℕ) → M ℕ
unfolding add_object
add_raid level devices spares =
    add_object (record (new_object raid (links_to constructed_device (devices ++ spares))) {
      devices = devices;
      spare_devices = spares;
      raidlevel = level;
    })

unfoldable pub remove_raid : ℕ → M (Unit {0})
unfolding remove_object
remove_raid r =
    guard (λ s. has_no fs r s && has_no constructed_device r s && has_no partitions r s)
    >> remove_object r

unfoldable pub add_volgroup : (devices : List ℕ) → M ℕ
unfolding add_object
add_volgroup devices =
    add_object
      (record (new_object lvm_volgroup (links_to constructed_device devices)) { devices = devices })

unfoldable pub remove_volgroup : ℕ → M (Unit {0})
unfolding remove_object
remove_volgroup vg = guard (has_no partitions vg) >> remove_object vg

unfoldable pub add_logical_volume : (vg : ℕ) → M ℕ
unfolding add_object
add_logical_volume vg = add_object (new_object lvm_partition ((partitions, vg) ∷ []))

unfoldable pub remove_logical_volume : ℕ → M (Unit {0})
unfolding remove_object
remove_logical_volume lv = guard (has_no fs lv) >> remove_object lv

-- The test `not volume.available` is on the method itself here too.
unfoldable pub add_dm_crypt : (volume : ℕ) → M ℕ
unfolding add_object
add_dm_crypt volume = add_object (new_object dm_crypt ((constructed_device, volume) ∷ []))

unfoldable pub remove_dm_crypt : ℕ → M (Unit {0})
unfolding remove_object
remove_dm_crypt d = remove_object d

unfoldable pub add_zpool : (device : ℕ) → M ℕ
unfolding add_object
add_zpool device = add_object (new_object zpool ((constructed_device, device) ∷ []))

unfoldable pub create_zfs : (pool : ℕ) → M ℕ
unfolding add_object
create_zfs pool = add_object (new_object zfs ((zfses, pool) ∷ []))
