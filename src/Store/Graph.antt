-- ===== src/Store/Graph.antt =====
-- The model as a graph: the objects of `_actions` with their references, and no backlinks. Its
-- operations search all objects where the model looks at a backlink.
use Prim.Native.String.{String}
use subiquity.Base.{
  ℕ, suc, Bool, false, ◌||◌, Option, none, some, List, [], ◌∷◌, ◌++◌, ◌==◌, if◌then◌else◌, map,
}
use subiquity.Raid.{Level}
use subiquity.Store.{
  Slot, fs, constructed_device, mounted, partitions, zfses, Link, Object, Store, Outcome, ok,
  raised, out_of_fuel, has_link, links_to, add_object, remove_object, add_filesystem,
  remove_filesystem, add_mount, remove_mount, add_raid, remove_raid, add_volgroup, remove_volgroup,
  add_logical_volume, remove_logical_volume, add_dm_crypt, remove_dm_crypt, add_zpool, create_zfs,
}

-- An object: its number and its references.
abbrev pub Node : Type 0
Node = ℕ × List Link

pub record Graph : Type 0 where
  pub nodes : List Node
  -- the number of the next object
  pub fresh : ℕ

abbrev pub node : Store → ℕ → Node
node s o = (o, (s.object o).links)

abbrev pub view : Store → Graph
view s = record { nodes = map (node s) s.actions; fresh = s.next }

-- Whether an object refers to `t` through a field.
unfoldable pub is_referred : Slot → ℕ → List Node → Bool
is_referred slot t [] = false
is_referred slot t (n ∷ ns) = has_link slot t n.1 || is_referred slot t ns

unfoldable pub is_node : ℕ → List Node → Bool
is_node o [] = false
is_node o (n ∷ ns) = o == n.0 || is_node o ns

unfoldable pub without_node : ℕ → List Node → List Node
without_node o [] = []
without_node o (n ∷ ns) = let rest = without_node o ns in if o == n.0 then ns else n ∷ rest

-- What an operation gives: the number of a new object, if it makes one, and the graph; or `none`,
-- where it is refused.
abbrev pub Effect : Type 0
Effect = Option (Option ℕ × Graph)

abbrev pub create : List Link → Graph → Effect
create ls g =
    some (some g.fresh, record { nodes = g.nodes ++ (g.fresh, ls) ∷ []; fresh = suc g.fresh })

abbrev pub drop : ℕ → Graph → Effect
drop o g =
    if is_node o g.nodes
    then some (none, record { nodes = without_node o g.nodes; fresh = g.fresh })
    else none

abbrev pub unless : Bool → Effect → Effect
unless b a = if b then none else a

-- The operations of the model, and what each of them means for the graph.
pub data Operation : Type 0 where
  loads : Object → Operation
  formats : (volume : ℕ) → String → Bool → Operation
  unformats : ℕ → Operation
  mounts : (filesystem : ℕ) → String → Operation
  unmounts : ℕ → Operation
  builds_raid : Level → (devices spares : List ℕ) → Operation
  drops_raid : ℕ → Operation
  builds_volgroup : (devices : List ℕ) → Operation
  drops_volgroup : ℕ → Operation
  builds_volume : (vg : ℕ) → Operation
  drops_volume : ℕ → Operation
  encrypts : (volume : ℕ) → Operation
  decrypts : ℕ → Operation
  builds_pool : (device : ℕ) → Operation
  builds_zfs : (pool : ℕ) → Operation

unfoldable pub meaning : Operation → Graph → Effect
unfolding is_referred is_node without_node
meaning (loads obj) g = create obj.links g
meaning (formats v fstype preserve) g = unless (is_referred fs v g.nodes) (create ((fs, v) ∷ []) g)
meaning (unformats f) g = unless (is_referred mounted f g.nodes) (drop f g)
meaning (mounts f path) g = unless (is_referred mounted f g.nodes) (create ((mounted, f) ∷ []) g)
meaning (unmounts m) g = drop m g
meaning (builds_raid level devices spares) g =
    create (links_to constructed_device (devices ++ spares)) g
meaning (drops_raid r) g =
    unless
      (is_referred fs r g.nodes
        || is_referred constructed_device r g.nodes
        || is_referred partitions r g.nodes)
      (drop r g)
meaning (builds_volgroup devices) g = create (links_to constructed_device devices) g
meaning (drops_volgroup vg) g = unless (is_referred partitions vg g.nodes) (drop vg g)
meaning (builds_volume vg) g = create ((partitions, vg) ∷ []) g
meaning (drops_volume lv) g = unless (is_referred fs lv g.nodes) (drop lv g)
meaning (encrypts v) g = create ((constructed_device, v) ∷ []) g
meaning (decrypts d) g = drop d g
meaning (builds_pool d) g = create ((constructed_device, d) ∷ []) g
meaning (builds_zfs pool) g = create ((zfses, pool) ∷ []) g

-- What is seen of an outcome.
abbrev pub seen : {A : Type 0} → (A → Option ℕ) → Outcome A → Effect
seen number (ok a s) = some (number a, view s)
seen number raised = none
seen number out_of_fuel = none

abbrev pub nothing : Unit {0} → Option ℕ
nothing x = none

-- The operations of the model itself.
unfoldable pub outcome : Operation → Store → Effect
unfolding add_object remove_object
outcome (loads obj) s = seen some (add_object obj s)
outcome (formats v fstype preserve) s = seen some (add_filesystem v fstype preserve s)
outcome (unformats f) s = seen nothing (remove_filesystem f s)
outcome (mounts f path) s = seen some (add_mount f path s)
outcome (unmounts m) s = seen nothing (remove_mount m s)
outcome (builds_raid level devices spares) s = seen some (add_raid level devices spares s)
outcome (drops_raid r) s = seen nothing (remove_raid r s)
outcome (builds_volgroup devices) s = seen some (add_volgroup devices s)
outcome (drops_volgroup vg) s = seen nothing (remove_volgroup vg s)
outcome (builds_volume vg) s = seen some (add_logical_volume vg s)
outcome (drops_volume lv) s = seen nothing (remove_logical_volume lv s)
outcome (encrypts v) s = seen some (add_dm_crypt v s)
outcome (decrypts d) s = seen nothing (remove_dm_crypt d s)
outcome (builds_pool d) s = seen some (add_zpool d s)
outcome (builds_zfs pool) s = seen some (create_zfs pool s)
