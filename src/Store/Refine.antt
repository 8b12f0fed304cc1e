-- ===== src/Store/Refine.antt =====
-- The operations of the model do to the graph of its objects what they mean.
use subiquity.Base.{
  ℕ, suc, ◌<◌, ◌≡◌, refl, ap, sym, ◌∙◌, inl, inr, Bool, true, false, not, ◌&&◌, ◌||◌, Option, some,
  List, [], ◌∷◌, ◌++◌, ◌==◌, if◌then◌else◌, arith, map, ==_iff, ==-refl, Bool-cases,
}
use subiquity.Render.Ids.{mem}
use subiquity.Store.{
  Slot, fs, constructed_device, mounted, partitions, Object, Store, Outcome, ok, raised,
  out_of_fuel, has_link, is_empty, has_no, guard, ◌>>◌, add_object, remove_id, remove_action,
  unlink_all, remove_object, set_object, link_all, add_filesystem, remove_filesystem, add_mount,
  remove_mount, add_raid, remove_raid, add_volgroup, remove_volgroup, add_logical_volume,
  remove_logical_volume, add_dm_crypt, remove_dm_crypt, add_zpool, create_zfs,
}
use subiquity.Store.Links.{unlink_all-Unlinks, link_all-actions, link_all-object}
use subiquity.Store.Linked.{Linked, known_back}
use subiquity.Store.Shrinks.{absent_raises, unlink_all-SameActions}
use subiquity.Store.Graph.{
  Node, node, view, is_referred, is_node, without_node, Effect, create, drop, unless, Operation,
  loads, formats, unformats, mounts, unmounts, builds_raid, drops_raid, builds_volgroup,
  drops_volgroup, builds_volume, drops_volume, encrypts, decrypts, builds_pool, builds_zfs, meaning,
  seen, nothing, outcome,
}

referred_by :
    (s : Store) (slot : Slot) (t o : ℕ) (xs : List ℕ)
    → mem o xs ≡ true
    → has_link slot t (s.object o).links ≡ true
    → is_referred slot t (map (node s) xs) ≡ true
unfolding mem is_referred
referred_by s slot t o [] m h = cc
referred_by s slot t o (x ∷ xs) m h = elim (Bool-cases (o == x)) [
  | inl here ↦
      let e : o ≡ x = (==_iff o x).0 here in
      let first : has_link slot t (s.object x).links ≡ true = rw (← e) h in rw first refl
  | inr later ↦
      let rest : is_referred slot t (map (node s) xs) ≡ true =
        referred_by s slot t o xs (ground arith) h in
      ground arith
]

not_referred :
    (s : Store) (slot : Slot) (t : ℕ) (xs : List ℕ)
    → ((o : ℕ) → mem o xs ≡ true → has_link slot t (s.object o).links ≡ false)
    → is_referred slot t (map (node s) xs) ≡ false
unfolding mem is_referred
not_referred s slot t [] h = refl
not_referred s slot t (x ∷ xs) h =
    let first : has_link slot t (s.object x).links ≡ false = h x (rw (==-refl x) refl) in
    let rest : is_referred slot t (map (node s) xs) ≡ false =
      not_referred s slot t xs (λ o m. h o (ground arith)) in
    rw (first, rest) refl

-- A backlink is empty where no object refers.
empty_back :
    (s : Store) (slot : Slot) (t : ℕ) (b : List ℕ)
    → ((o : ℕ) → mem o b ≡ (mem o s.actions && has_link slot t (s.object o).links))
    → is_empty b ≡ not (is_referred slot t (map (node s) s.actions))
unfolding mem
empty_back s slot t [] h = rw (not_referred s slot t s.actions (λ o m. ground (arith, h o))) refl
empty_back s slot t (o ∷ os) h =
    let both : (mem o s.actions && has_link slot t (s.object o).links) ≡ true =
      sym (h o) ∙ rw (==-refl o) refl in
    rw (referred_by s slot t o s.actions (ground arith) (ground arith)) refl

node_of : (s : Store) (o : ℕ) (xs : List ℕ) → is_node o (map (node s) xs) ≡ mem o xs
unfolding mem is_node
node_of s o [] = refl
node_of s o (x ∷ xs) = ground (arith, node_of s o xs)

without_node-map :
    (s : Store) (o : ℕ) (xs : List ℕ)
    → without_node o (map (node s) xs) ≡ map (node s) (remove_id o xs)
unfolding remove_id without_node
without_node-map s o [] = refl
without_node-map s o (x ∷ xs) = elim (Bool-cases (o == x)) [
  | inl here ↦ rw here refl
  | inr later ↦ rw (later, without_node-map s o xs) refl
]

-- The nodes of the objects that were there before a new one.
old_nodes :
    (s : Store) (obj : Object) (xs : List ℕ)
    → ((o : ℕ) → mem o xs ≡ true → o < s.next)
    → map (node (set_object s s.next obj)) xs ≡ map (node s) xs
unfolding mem
old_nodes s obj [] h = refl
old_nodes s obj (x ∷ xs) h =
    let old : (x == s.next) ≡ false = ground (arith, h x (rw (==-refl x) refl)) in
    rw (old, old_nodes s obj xs (λ o m. h o (ground arith))) refl

map-snoc :
    {A B : Type 0} (f : A → B) (xs : List A) (x : A) → map f (xs ++ x ∷ []) ≡ map f xs ++ f x ∷ []
map-snoc f [] x = refl
map-snoc f (y ∷ ys) x = ap (λ rest. f y ∷ rest) (map-snoc f ys x)

-- A guard that looks at a backlink is one that searches the objects.
passed :
    {B : Type 0} (number : B → Option ℕ) (passes b : Bool) (k : Store → Outcome B) (s : Store)
    (a : Effect)
    → passes ≡ not b
    → seen number (k s) ≡ a
    → seen number (elim (if◌then◌else◌ {A = Outcome (Unit {0})} passes (ok tt s) raised) [
      | ok x s' ↦ k s'
      | raised ↦ raised
      | out_of_fuel ↦ out_of_fuel
    ])
      ≡ unless b a
passed number true false k s a e h = h
passed number false true k s a e h = refl
passed number true true k s a e h = cc
passed number false false k s a e h = cc

guarded :
    {B : Type 0} (number : B → Option ℕ) (test : Store → Bool) (b : Bool) (k : Store → Outcome B)
    (s : Store) (a : Effect)
    → test s ≡ not b
    → seen number (k s) ≡ a
    → seen number ((guard test >> k) s) ≡ unless b a
unfolding ◌>>◌
guarded number test b k s a e h = passed number (test s) b k s a e h

-- The commuting squares of one new object and of one that goes.
module _ (s : Store) (h : Linked s) where
  created : (obj : Object) → seen some (add_object obj s) ≡ create obj.links (view s)
  unfolding add_object
  created obj =
      let o = s.next in
      let s2 : Store = set_object s o obj in
      let linked : Store = link_all o obj.links s2 in
      let new : map (node s2) (s.actions ++ o ∷ [])
          ≡ map (node s) s.actions ++ (o, obj.links) ∷ [] =
        map-snoc (node s2) s.actions o ∙ rw (old_nodes s obj s.actions h.known, ==-refl o) refl in
      let nodes : map (node linked) (linked.actions ++ o ∷ [])
          ≡ map (node s) s.actions ++ (o, obj.links) ∷ [] =
        ap (λ (f : ℕ → Object). map (λ q. (q, (f q).links)) (linked.actions ++ o ∷ []))
          (link_all-object o obj.links s2)
        ∙ ap (λ (xs : List ℕ). map (node s2) (xs ++ o ∷ [])) (link_all-actions o obj.links s2)
        ∙ new in
      ap (λ (ns : List Node). some (some o, record { nodes = ns; fresh = suc o })) nodes

  dropped : (o : ℕ) → seen nothing (remove_object o s) ≡ drop o (view s)
  unfolding remove_object remove_action
  dropped o = elim (Bool-cases (mem o s.actions)) [
    | inl listed ↦
        let (s', e, u) =
          unlink_all-Unlinks o (s.object o).links s (h.once o) (known_back s h o listed) in
        let there : mem o s'.actions ≡ true = rw u.same_actions listed in
        rw
          (
            e,
            there,
            node_of s o s.actions,
            listed,
            without_node-map s o s.actions,
            u.same_actions,
            u.same_objects,
            u.same_next,
          )
          refl
    | inr absent ↦
        rw
          (
            absent_raises o s (unlink_all o (s.object o).links s) absent
                (unlink_all-SameActions o (s.object o).links s),
            node_of s o s.actions,
            absent,
          )
          refl
  ]

  no_one : (slot : Slot) (t : ℕ) → has_no slot t s ≡ not (is_referred slot t (view s).nodes)
  no_one slot t = empty_back s slot t (s.back slot t) (h.back_of slot t)

  created_if :
      (obj : Object) (slot : Slot) (t : ℕ)
      → seen some ((guard (has_no slot t) >> add_object obj) s)
        ≡ unless (is_referred slot t (view s).nodes) (create obj.links (view s))
  created_if obj slot t =
      guarded some (has_no slot t) _ (add_object obj) s _ (no_one slot t) (created obj)

  dropped_if :
      (slot : Slot) (t o : ℕ)
      → seen nothing ((guard (has_no slot t) >> remove_object o) s)
        ≡ unless (is_referred slot t (view s).nodes) (drop o (view s))
  dropped_if slot t o =
      guarded nothing (has_no slot t) _ (remove_object o) s _ (no_one slot t) (dropped o)

  raid_free :
      (r : ℕ)
      → (has_no fs r s && has_no constructed_device r s && has_no partitions r s)
        ≡ not (
            is_referred fs r (view s).nodes
            || is_referred constructed_device r (view s).nodes
            || is_referred partitions r (view s).nodes)
  raid_free r = rw (no_one fs r, no_one constructed_device r, no_one partitions r) (ground arith)

-- In every store whose backlinks mirror the references of the objects in `_actions`, each operation does
-- to the objects and their references what it means for the graph: it is refused in the same cases, gives
-- a new object the same number, and leads to the same graph.
pub outcome-meaning : (s : Store) (op : Operation) → Linked s → outcome op s ≡ meaning op (view s)
unfolding outcome meaning add_filesystem remove_filesystem add_mount remove_mount add_raid
    remove_raid add_volgroup remove_volgroup add_logical_volume remove_logical_volume add_dm_crypt
    remove_dm_crypt add_zpool create_zfs
outcome-meaning s (loads obj) r = created s r obj
outcome-meaning s (formats v fstype preserve) r = created_if s r _ fs v
outcome-meaning s (unformats f) r = dropped_if s r mounted f f
outcome-meaning s (mounts f path) r = created_if s r _ mounted f
outcome-meaning s (unmounts m) r = dropped s r m
outcome-meaning s (builds_raid level devices spares) r = created s r _
outcome-meaning s (drops_raid d) r =
    guarded nothing
      (λ s'. has_no fs d s' && has_no constructed_device d s' && has_no partitions d s') _
      (remove_object d) s _ (raid_free s r d) (dropped s r d)
outcome-meaning s (builds_volgroup devices) r = created s r _
outcome-meaning s (drops_volgroup vg) r = dropped_if s r partitions vg vg
outcome-meaning s (builds_volume vg) r = created s r _
outcome-meaning s (drops_volume lv) r = dropped_if s r fs lv lv
outcome-meaning s (encrypts v) r = created s r _
outcome-meaning s (decrypts d) r = dropped s r d
outcome-meaning s (builds_pool d) r = created s r _
outcome-meaning s (builds_zfs pool) r = created s r _
