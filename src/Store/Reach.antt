-- ===== src/Store/Reach.antt =====
-- The stores that the operations of the model lead to, and that their backlinks are right.
use Prim.Native.String.{String}
use subiquity.Base.{ℕ, ◌<◌, ◌≡◌, refl, ◌∙◌, Bool, true, ◌&&◌, List, [], ◌∷◌, ◌++◌, arith}
use subiquity.Render.Ids.{mem, IsNodup}
use subiquity.Raid.{Level}
use subiquity.Render.{disk}
use subiquity.Store.{
  Bootloader, Slot, is_single, fs, constructed_device, mounted, partitions, zfses, slot_eq, Link,
  Object, Store, new_object, Outcome, ok, has_link, is_empty, has_no, guard, ◌>>◌, links_to,
  add_object, remove_object, add_filesystem, remove_filesystem, add_mount, remove_mount, add_raid,
  remove_raid, add_volgroup, remove_volgroup, add_logical_volume, remove_logical_volume,
  add_dm_crypt, remove_dm_crypt, add_zpool, create_zfs,
}
use subiquity.Store.Links.{AreOnce, AreFree, slot_eq-eq}
use subiquity.Store.Linked.{Linked, AreKnown, added-Linked}
use subiquity.Store.Ensures.{Ensures, Ensures-guard, Ensures-ok, Ensures-weaken}
use subiquity.Store.Shrinks.{Removes, remove_object-Removes}

-- The devices of a RAID, volume group, encrypted volume or pool: they are there, nothing is built
-- on them yet, and none is listed twice.
pub record AreUnused (devices : List ℕ) (s : Store) : Type 0 where
  pub distinct : IsNodup devices
  pub there : (t : ℕ) → mem t devices ≡ true → t < s.next
  pub unused : (t : ℕ) → mem t devices ≡ true → s.back constructed_device t ≡ []

-- The references of an object that is about to be created.
pub record AreNew (ls : List Link) (s : Store) : Type 0 where
  pub once : AreOnce ls
  pub free : AreFree ls s
  pub seen : AreKnown ls s

-- One operation of the model that returns.
pub data Step (s s' : Store) : Type 0 where
  loaded : (obj : Object) (o : ℕ) → add_object obj s ≡ ok o s' → Step s s'
  formatted :
      (volume : ℕ) (fstype : String) (preserve : Bool) (o : ℕ)
      → add_filesystem volume fstype preserve s ≡ ok o s'
      → Step s s'
  unformatted : (f : ℕ) → remove_filesystem f s ≡ ok tt s' → Step s s'
  has_mount : (f : ℕ) (path : String) (o : ℕ) → add_mount f path s ≡ ok o s' → Step s s'
  unmounted : (m : ℕ) → remove_mount m s ≡ ok tt s' → Step s s'
  has_raid :
      (level : Level) (devices spares : List ℕ) (o : ℕ)
      → add_raid level devices spares s ≡ ok o s'
      → Step s s'
  no_raid : (r : ℕ) → remove_raid r s ≡ ok tt s' → Step s s'
  has_volgroup : (devices : List ℕ) (o : ℕ) → add_volgroup devices s ≡ ok o s' → Step s s'
  no_volgroup : (vg : ℕ) → remove_volgroup vg s ≡ ok tt s' → Step s s'
  has_volume : (vg o : ℕ) → add_logical_volume vg s ≡ ok o s' → Step s s'
  no_volume : (lv : ℕ) → remove_logical_volume lv s ≡ ok tt s' → Step s s'
  encrypted : (volume o : ℕ) → add_dm_crypt volume s ≡ ok o s' → Step s s'
  decrypted : (d : ℕ) → remove_dm_crypt d s ≡ ok tt s' → Step s s'
  pooled : (d o : ℕ) → add_zpool d s ≡ ok o s' → Step s s'
  dataset : (pool o : ℕ) → create_zfs pool s ≡ ok o s' → Step s s'

-- What the model does not test itself: a new object refers to objects that are there, once through each
-- field, and to none through a single field that is set; so the devices of a RAID, volume group,
-- encrypted volume or pool are distinct and nothing is built on them.
abbrev pub IsProper : (s s' : Store) → Step s s' → Type 0
IsProper s s' (loaded obj o e) = AreNew obj.links s
IsProper s s' (formatted volume fstype preserve o e) = volume < s.next
IsProper s s' (has_mount f path o e) = f < s.next
IsProper s s' (has_raid level devices spares o e) = AreUnused (devices ++ spares) s
IsProper s s' (has_volgroup devices o e) = AreUnused devices s
IsProper s s' (has_volume vg o e) = vg < s.next
IsProper s s' (encrypted volume o e) = AreUnused (volume ∷ []) s
IsProper s s' (pooled d o e) = AreUnused (d ∷ []) s
IsProper s s' (dataset pool o e) = pool < s.next
IsProper s s' _ = Unit

pub data Reachable : Store → Type 0 where
  start :
      (version : ℕ) (firmware : Bootloader)
      → Reachable (record {
        object = λ o. new_object disk [];
        actions = [];
        back = λ slot t. [];
        next = 0;
        storage_version = version;
        bootloader = firmware;
      })
  after : (s s' : Store) → Reachable s → Step s s' → Reachable s'

abbrev pub AreProper : (s : Store) → Reachable s → Type 0
AreProper s (start version firmware) = Unit
AreProper s' (after s _ r step) = AreProper s r × IsProper s s' step

-- A reference through each of `ts`.
pub has_link-links_to :
    (sl slot : Slot) (t : ℕ) (ts : List ℕ)
    → has_link sl t (links_to slot ts) ≡ (slot_eq sl slot && mem t ts)
unfolding has_link mem
has_link-links_to sl slot t [] = ground arith
has_link-links_to sl slot t (u ∷ ts) = ground (arith, has_link-links_to sl slot t ts)

links_to-AreOnce : (slot : Slot) (ts : List ℕ) → IsNodup ts → AreOnce (links_to slot ts)
unfolding has_link mem
links_to-AreOnce slot [] h = tt
links_to-AreOnce slot (t ∷ ts) h =
    (has_link-links_to slot slot t ts ∙ rw h.0 (ground arith), links_to-AreOnce slot ts h.1)

pub links_to-AreNew :
    (devices : List ℕ) (s : Store)
    → AreUnused devices s
    → AreNew (links_to constructed_device devices) s
links_to-AreNew devices s u = record {
  once = links_to-AreOnce constructed_device devices u.distinct;
  free = λ slot t h one.
      let both = has_link-links_to slot constructed_device t devices in
      let e : slot ≡ constructed_device =
        slot_eq-eq slot constructed_device (ground (arith, both)) in
      rw e (u.unused t (ground (arith, both)));
  seen =
      λ slot t h. u.there t (ground (arith, has_link-links_to slot constructed_device t devices));
}

-- One reference: where its field is a single one, it is None.
one-AreNew :
    (slot : Slot) (t : ℕ) (s : Store)
    → t < s.next
    → (is_single slot ≡ true → s.back slot t ≡ [])
    → AreNew ((slot, t) ∷ []) s
unfolding has_link
one-AreNew slot t s there empty = record {
  once = (refl, tt);
  free = λ sl u h one.
      let e : sl ≡ slot = slot_eq-eq sl slot (ground arith) in
      let k : u ≡ t = ground arith in rw (e, k) (empty (rw (← e) one));
  seen = λ sl u h. let k : u ≡ t = ground arith in rw k there;
}

is_empty_lem : (xs : List ℕ) → is_empty xs ≡ true → xs ≡ []
is_empty_lem [] h = refl
is_empty_lem (x ∷ xs) h = cc

abbrev KeepsLinked : {A : Type 0} → A → Store → Type 0
KeepsLinked a s = Linked s

-- What creates or removes one object, behind a guard or not, and what has returned.
module _ (s : Store) (h : Linked s) where
  created : (obj : Object) → AreNew obj.links s → Ensures KeepsLinked (add_object obj s)
  unfolding add_object
  created obj new = added-Linked s h obj new.once new.free new.seen

  created_if :
      (obj : Object) (slot : Slot) (t : ℕ)
      → (has_no slot t s ≡ true → AreNew obj.links s)
      → Ensures KeepsLinked ((guard (has_no slot t) >> add_object obj) s)
  created_if obj slot t new =
      Ensures-guard KeepsLinked (has_no slot t) (add_object obj) s
        (λ empty. created obj (new empty))

  dropped : (o : ℕ) → Ensures KeepsLinked (remove_object o s)
  dropped o =
      Ensures-weaken (λ x. Removes s o) KeepsLinked (remove_object o s)
        (remove_object-Removes o s h) (λ x s' r. r.0.linked)

  dropped_if :
      (test : Store → Bool) (o : ℕ) → Ensures KeepsLinked ((guard test >> remove_object o) s)
  dropped_if test o = Ensures-guard KeepsLinked test (remove_object o) s (λ passes. dropped o)

  returned :
      {A : Type 0} (m : Outcome A) (a : A) (s' : Store)
      → Ensures KeepsLinked m
      → m ≡ ok a s'
      → Linked s'
  returned m a s' k e = Ensures-ok KeepsLinked m a s' k e

  -- A single field that is None, for one new reference.
  one_if : (slot : Slot) (t : ℕ) → t < s.next → has_no slot t s ≡ true → AreNew ((slot, t) ∷ []) s
  one_if slot t there empty = one-AreNew slot t s there (λ one. is_empty_lem (s.back slot t) empty)

pub Step-Linked : (s s' : Store) → Linked s → (step : Step s s') → IsProper s s' step → Linked s'
unfolding add_filesystem remove_filesystem add_mount remove_mount add_raid remove_raid add_volgroup
    remove_volgroup add_logical_volume remove_logical_volume add_dm_crypt remove_dm_crypt add_zpool
    create_zfs
Step-Linked s s' h (loaded obj o e) new =
    returned s h (add_object obj s) o s' (created s h obj new) e
Step-Linked s s' h (formatted volume fstype preserve o e) there =
    returned s h (add_filesystem volume fstype preserve s) o s'
      (created_if s h _ fs volume (one_if s h fs volume there)) e
Step-Linked s s' h (unformatted f e) p =
    returned s h (remove_filesystem f s) tt s' (dropped_if s h (has_no mounted f) f) e
Step-Linked s s' h (has_mount f path o e) there =
    returned s h (add_mount f path s) o s' (created_if s h _ mounted f (one_if s h mounted f there))
      e
Step-Linked s s' h (unmounted m e) p = returned s h (remove_mount m s) tt s' (dropped s h m) e
Step-Linked s s' h (has_raid level devices spares o e) unused =
    returned s h (add_raid level devices spares s) o s'
      (created s h _ (links_to-AreNew (devices ++ spares) s unused)) e
Step-Linked s s' h (no_raid r e) p =
    returned s h (remove_raid r s) tt s'
      (dropped_if s h (λ s. has_no fs r s && has_no constructed_device r s && has_no partitions r s)
        r)
      e
Step-Linked s s' h (has_volgroup devices o e) unused =
    returned s h (add_volgroup devices s) o s' (created s h _ (links_to-AreNew devices s unused)) e
Step-Linked s s' h (no_volgroup vg e) p =
    returned s h (remove_volgroup vg s) tt s' (dropped_if s h (has_no partitions vg) vg) e
Step-Linked s s' h (has_volume vg o e) there =
    returned s h (add_logical_volume vg s) o s'
      (created s h _ (one-AreNew partitions vg s there (λ one. cc))) e
Step-Linked s s' h (no_volume lv e) p =
    returned s h (remove_logical_volume lv s) tt s' (dropped_if s h (has_no fs lv) lv) e
Step-Linked s s' h (encrypted volume o e) unused =
    returned s h (add_dm_crypt volume s) o s'
      (created s h _ (links_to-AreNew (volume ∷ []) s unused)) e
Step-Linked s s' h (decrypted d e) p = returned s h (remove_dm_crypt d s) tt s' (dropped s h d) e
Step-Linked s s' h (pooled d o e) unused =
    returned s h (add_zpool d s) o s' (created s h _ (links_to-AreNew (d ∷ []) s unused)) e
Step-Linked s s' h (dataset pool o e) there =
    returned s h (create_zfs pool s) o s'
      (created s h _ (one-AreNew zfses pool s there (λ one. cc))) e

-- In every store that the operations lead to from an empty one, where each new object refers only to
-- objects that are there, once through each field, and uses only devices that are distinct and on which
-- nothing is built (which the model does not test): the backlinks mirror the references. A field of an
-- object lists exactly the objects of `_actions` that refer to it through that field, each once; a
-- single field holds at most one; and every reference is to an older object.
pub reachable-Linked : (s : Store) (r : Reachable s) → AreProper s r → Linked s
unfolding mem
reachable-Linked s (start version firmware) p = record {
  back_of = λ slot t o. refl;
  back_nodup = λ slot t. tt;
  at_most_one = λ slot t one. omega arith;
  actions_nodup = tt;
  once = λ o. tt;
  known = λ o m. cc;
  older = λ o slot t m. cc;
}
reachable-Linked s' (after s _ r step) p = Step-Linked s s' (reachable-Linked s r p.0) step p.1
