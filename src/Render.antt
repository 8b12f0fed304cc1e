-- ===== src/Render.antt =====
-- FilesystemModel._render_actions of subiquity/models/filesystem.py: the order in which the storage
-- actions are written out for curtin. An object stands for its id; `Objects` gives the attributes
-- that the loop reads. A mount path is the text that the object holds, not normalised.
pub mod Ids
pub mod Emit
pub mod Pass
pub mod Order
pub mod Finish
pub mod Blocked
pub mod Complete
pub mod Example
use Prim.Native.String.{String}
use text.Mathlib.Text.{◌==◌ as str_eq}
use subiquity.Base.{
  ℕ, zero, suc, ◌+◌, ◌*◌, Bool, true, false, not, ◌&&◌, ◌||◌, Option, none, some, List, [], ◌∷◌,
  ◌++◌, ltb, ◌==◌, if◌then◌else◌, any, all, filter, length,
}
use subiquity.Render.Ids.{mem, same_ids}

pub data Kind : Type 0 where
  disk raid partition lvm_volgroup lvm_partition dm_crypt : Kind
  format mount zpool zfs dasd nvme_controller device : Kind

abbrev pub MountPath : Type 0
MountPath = String

pub record Object : Type 0 where
  pub kind : Kind
  pub preserve : Bool
  -- `dasd()` of a disk, and the fields marked `ref` or `reflist`, in order
  pub dasd : Option ℕ
  pub refs : List ℕ
  -- of a partition
  pub device : ℕ
  pub number : ℕ
  -- of a disk, RAID or volume group
  pub partitions : List ℕ
  -- of a mount, pool or ZFS dataset; `none` where it is not mounted
  pub path : Option MountPath

pub record Objects : Type 0 where
  pub object : ℕ → Object
  -- `_actions`
  pub actions : List ℕ

abbrev pub is_partition : Kind → Bool
is_partition partition = true
is_partition _ = false

abbrev pub is_disk : Kind → Bool
is_disk disk = true
is_disk _ = false

-- `dep.type in ["disk", "raid"]`
abbrev pub is_disk_or_raid : Kind → Bool
is_disk_or_raid disk = true
is_disk_or_raid raid = true
is_disk_or_raid _ = false

-- `MountlikeNames`
abbrev pub is_mountlike : Kind → Bool
is_mountlike mount = true
is_mountlike zpool = true
is_mountlike zfs = true
is_mountlike _ = false

abbrev pub is_format_or_mount : Kind → Bool
is_format_or_mount format = true
is_format_or_mount mount = true
is_format_or_mount _ = false

abbrev pub joined : String → String → String
joined String.[] t = t
joined (String.◌∷◌ c s) t = String.◌∷◌ c (joined s t)

abbrev pub onto_first : String → List String → List String
onto_first c [] = c ∷ []
onto_first c (p ∷ ps) = joined c p ∷ ps

-- The text between the slashes.
unfoldable pub pieces : String → List String
pieces String.[] = "" ∷ []
pieces (String.◌∷◌ c s) =
    let rest = pieces s in
    let one = String.◌∷◌ c String.[] in if str_eq one "/" then "" ∷ rest else onto_first one rest

-- The parts of a `pathlib.Path`: no empty ones, and no ".".
abbrev pub parts : String → List String
parts path = filter (λ p. not (str_eq p "") && not (str_eq p ".")) (pieces path)

abbrev pub leading_slashes : List String → ℕ
leading_slashes [] = 0
leading_slashes (p ∷ []) = 0
leading_slashes (p ∷ q ∷ qs) = if str_eq p "" then suc (leading_slashes (q ∷ qs)) else 0

-- The root of a path: two leading slashes, and no more, are kept.
abbrev pub root_of : String → String
root_of path =
    let n = leading_slashes (pieces path) in if n == 0 then "" else if n == 2 then "//" else "/"

abbrev pub cons_all : String → List (List String) → List (List String)
cons_all a [] = []
cons_all a (p ∷ ps) = (a ∷ p) ∷ cons_all a ps

-- The proper prefixes, the longest first.
abbrev pub prefixes : List String → List (List String)
prefixes [] = []
prefixes (a ∷ p) = cons_all a (prefixes p) ++ [] ∷ []

abbrev pub with_slashes : List String → String
with_slashes [] = ""
with_slashes (p ∷ []) = p
with_slashes (p ∷ q ∷ qs) = joined p (joined "/" (with_slashes (q ∷ qs)))

-- `str` of the path with a root and parts
abbrev pub path_text : String → List String → String
path_text root [] = if str_eq root "" then "." else root
path_text root (p ∷ ps) = joined root (with_slashes (p ∷ ps))

abbrev pub texts : String → List (List String) → List String
texts root [] = []
texts root (p ∷ ps) = path_text root p ∷ texts root ps

-- `[str(parent) for parent in pathlib.Path(path).parents]`
unfoldable pub parents : MountPath → List MountPath
unfolding pieces
parents path = texts (root_of path) (prefixes (parts path))

module _ (m : Objects) where
  abbrev pub kind_of : ℕ → Kind
  kind_of x = (m.object x).kind

  unfoldable pub dependencies : ℕ → List ℕ
  dependencies x =
      let refs = (m.object x).refs in
      if is_disk (kind_of x)
      then elim (m.object x).dasd [ none ↦ refs | some d ↦ d ∷ refs ]
      else refs

  -- `all_mountlikes`: the mounts, then the pools, then the datasets.
  unfoldable pub all_mountlikes : List ℕ
  all_mountlikes =
      filter (λ x. elim (kind_of x) [ mount ↦ true | _ ↦ false ]) m.actions
      ++ filter (λ x. elim (kind_of x) [ zpool ↦ true | _ ↦ false ]) m.actions
      ++ filter (λ x. elim (kind_of x) [ zfs ↦ true | _ ↦ false ]) m.actions

  abbrev pub has_path : Option MountPath → MountPath → Bool
  has_path none q = false
  has_path (some p) q = str_eq p q

  -- `mountpoints.get(path)`, where a later entry of the dict replaces an earlier one.
  unfoldable pub last_mount : MountPath → List ℕ → Option ℕ
  last_mount path [] = none
  last_mount path (x ∷ xs) = elim (last_mount path xs) [
    | some y ↦ some y
    | none ↦ if has_path (m.object x).path path then some x else none
  ]

  -- The ids of the mounts that a path stands below, among all mountpoints.
  unfoldable pub mounts_at : List MountPath → List ℕ
  unfolding last_mount all_mountlikes
  mounts_at [] = []
  mounts_at (p ∷ ps) = elim (last_mount p all_mountlikes) [
    | none ↦ mounts_at ps
    | some x ↦ x ∷ mounts_at ps
  ]

  unfoldable pub parent_mounts : ℕ → List ℕ
  unfolding mounts_at parents
  parent_mounts x =
      if is_mountlike (kind_of x)
      then elim (m.object x).path [ none ↦ [] | some path ↦ mounts_at (parents path) ]
      else []

  abbrev pub partitions_of : ℕ → List ℕ
  partitions_of dev = (m.object dev).partitions

  -- The partitions of the same device that have a lower number.
  unfoldable pub lower_partitions : ℕ → List ℕ
  lower_partitions x =
      if is_partition (kind_of x)
      then filter (λ p. ltb (m.object p).number (m.object x).number)
          (partitions_of (m.object x).device)
      else []

  -- Inside one round: `emitted` is the ids of `r`, `work` what the round goes through.
  module _ (emitted work : List ℕ) where
    -- `ensure_partitions`, with `next_work` in and out
    unfoldable pub ensure_all : List ℕ → List ℕ → List ℕ
    ensure_all next [] = next
    ensure_all next (p ∷ ps) =
        ensure_all
          (if not (mem p emitted) && not (mem p work) && not (mem p next)
            then next ++ p ∷ []
            else next)
          ps

    -- The first dependency that is not emitted, if any.
    unfoldable pub missing : List ℕ → Option ℕ
    missing [] = none
    missing (d ∷ ds) = let later = missing ds in if mem d emitted then later else some d

    -- What `can_emit` adds to `next_work` for a missing dependency.
    unfoldable pub add_missing : List ℕ → Option ℕ → List ℕ
    unfolding ensure_all
    add_missing next none = next
    add_missing next (some d) =
        if not (mem d work) && not (mem d next)
        then if is_disk_or_raid (kind_of d)
          then ensure_all (next ++ d ∷ []) (partitions_of d)
          else next ++ d ∷ []
        else next

    unfoldable pub add_partitions : ℕ → List ℕ → List ℕ
    unfolding ensure_all
    add_partitions x next =
        if is_partition (kind_of x)
        then ensure_all next (partitions_of (m.object x).device)
        else next

    -- `can_emit(obj)`: its answer, and `next_work` behind it.
    unfoldable pub can_emit : ℕ → List ℕ → Bool × List ℕ
    unfolding add_missing add_partitions missing lower_partitions parent_mounts dependencies
    can_emit x next =
        let next' = add_partitions x next in
        if not (all (λ p. mem p emitted) (lower_partitions x))
        then (false, next')
        else elim (missing (dependencies x)) [
          | some d ↦ (false, add_missing next' (some d))
          | none ↦ (all (λ p. mem p emitted) (parent_mounts x), next')
        ]

  -- The `for` loop: `r` and `next_work` behind the objects of the list.
  unfoldable pub run_round : List ℕ → List ℕ → List ℕ → List ℕ → List ℕ × List ℕ
  unfolding can_emit
  run_round work r next [] = (r, next)
  run_round work r next (x ∷ rest) =
      let (ready, next') = can_emit r work x next in
      if ready
      then run_round work (r ++ x ∷ []) next' rest
      else run_round work r (next' ++ x ∷ []) rest

pub data Rendered : Type 0 where
  done : List ℕ → Rendered
  -- the exception "rendering block devices made no progress", with `work`
  no_progress : List ℕ → Rendered
  out_of_fuel : Rendered

-- The `while` loop.
unfoldable pub run_rounds : Objects → ℕ → List ℕ → List ℕ → Rendered
run_rounds m fuel r [] = done r
run_rounds m zero r (x ∷ xs) = out_of_fuel
run_rounds m (suc fuel) r (x ∷ xs) =
    let work = x ∷ xs in
    let (r', next) = run_round m work r [] work in
    let later = run_rounds m fuel r' next in if same_ids next work then no_progress work else later

-- The modes that matter here, ActionRenderMode.
pub data Mode : Type 0 where
  default for_api for_api_client devices format_mount : Mode

unfoldable pub initial_work : Objects → Mode → List ℕ
initial_work m for_api = m.actions
initial_work m _ = filter (λ x. not (m.object x).preserve) m.actions

unfoldable pub keep_for : Objects → Mode → List ℕ → List ℕ
keep_for m devices r = filter (λ x. not (is_format_or_mount (kind_of m x))) r
keep_for m format_mount r = filter (λ x. is_format_or_mount (kind_of m x)) r
keep_for m _ r = r

abbrev pub keep_rendered : Objects → Mode → Rendered → Rendered
keep_rendered m mode (done r) = done (keep_for m mode r)
keep_rendered m mode (no_progress w) = no_progress w
keep_rendered m mode out_of_fuel = out_of_fuel

unfoldable pub render_actions : Objects → Mode → ℕ → Rendered
unfolding initial_work keep_for
render_actions m mode fuel = keep_rendered m mode (run_rounds m fuel [] (initial_work m mode))
