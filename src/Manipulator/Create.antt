-- ===== src/Manipulator/Create.antt =====
-- `create_raid`: what the devices carried is deleted, and the new RAID is built on each of them.
use subiquity.Base.{
  ℕ, suc, ◌≤◌, ◌<◌, ◌≡◌, refl, ◌∙◌, true, none, List, [], ◌∷◌, ◌++◌, arith, length, length_zero,
}
use subiquity.Render.{raid}
use subiquity.Render.Ids.{mem, IsNodup}
use subiquity.Raid.{Level}
use subiquity.Store.{constructed_device, links_to, new_object, Store, ◌>>◌, add_object, add_raid}
use subiquity.Store.Linked.{Linked, added-Linked, added-back}
use subiquity.Store.Ensures.{Ensures, Ensures-bind, Ensures-weaken}
use subiquity.Store.Shrinks.{Shrinks}
use subiquity.Store.Reach.{AreUnused, links_to-AreNew, has_link-links_to}
use subiquity.Manipulator.{for_each, clear, delete_method, create_raid}
use subiquity.Manipulator.Loops.{Reduces, IsStable, Each, for_each-Reduces}
use subiquity.Manipulator.Built.{IsCleared, IsPlain, IsPlain-IsStable}
use subiquity.Manipulator.Clear.{clear-Frees}
use subiquity.Manipulator.Delete.{delete_method-Deletes}

abbrev IsUnused : ℕ → Store → Type 0
IsUnused d s = s.back constructed_device d ≡ []

IsUnused-IsStable : (d : ℕ) → IsStable (IsUnused d)
IsUnused-IsStable d s s' r unused =
    let short : length (s'.back constructed_device d) ≤ length (s.back constructed_device d) =
      r.shorter constructed_device d in
    let zero_length : length (s'.back constructed_device d) ≤ 0 = rw unused at short in
    length_zero (s'.back constructed_device d) zero_length

clear-Each :
    (n : ℕ) (devices : List ℕ) (s : Store)
    → Linked s
    → s.next ≤ suc n
    → ((d : ℕ) → mem d devices ≡ true → IsPlain d s)
    → Reduces (Each IsUnused devices) s (for_each (clear (delete_method n) none) devices s)
clear-Each n devices s h enough plain =
    for_each-Reduces IsUnused (clear (delete_method n) none) devices s h IsUnused-IsStable
      (λ q s1 m r.
        Ensures-weaken (λ x s'. Shrinks s1 s' × IsCleared q s1 s')
          (λ x s'. Shrinks s1 s' × IsUnused q s') (clear (delete_method n) none q s1)
          (clear-Frees n (delete_method n) (delete_method-Deletes n) none q s1 r.linked
            (omega (arith, r.same_next)))
          (λ x s2 c. (c.0, c.1.1 (IsPlain-IsStable q s s1 h r (plain q m)))))

-- What is ensured of the new RAID.
abbrev IsBuilt : List ℕ → ℕ → Store → Type 0
IsBuilt devices r s =
    Linked s × ((d : ℕ) → mem d devices ≡ true → s.back constructed_device d ≡ r ∷ [])

add_raid-IsBuilt :
    (level : Level) (devices spares : List ℕ) (s : Store)
    → Linked s
    → AreUnused (devices ++ spares) s
    → Ensures (IsBuilt (devices ++ spares)) (add_raid level devices spares s)
unfolding add_raid add_object
add_raid-IsBuilt level devices spares s h unused =
    let new = links_to-AreNew (devices ++ spares) s unused in
    let obj = record (new_object raid (links_to constructed_device (devices ++ spares))) {
      devices = devices;
      spare_devices = spares;
      raidlevel = level;
    } in
    (
      added-Linked s h obj new.once new.free new.seen,
      λ d m.
          added-back s h obj new.once new.free new.seen constructed_device d
          ∙ rw
              (
                has_link-links_to constructed_device constructed_device d (devices ++ spares),
                m,
                unused.unused d m,
              )
              refl,
    )

-- Where the backlinks are right, the devices are distinct and carry nothing encrypted, and calls may
-- go as deep as there are objects, `create_raid` comes to an end: it raises, or the new RAID is the
-- one thing built on each of its devices and spares, and the backlinks are right.
pub create_raid-IsBuilt :
    (n : ℕ) (level : Level) (devices spares : List ℕ) (s : Store)
    → Linked s
    → s.next ≤ suc n
    → IsNodup (devices ++ spares)
    → ((d : ℕ) → mem d (devices ++ spares) ≡ true → (d < s.next) × IsPlain d s)
    → Ensures
        (λ r s'.
          Linked s'
          × ((d : ℕ) → mem d (devices ++ spares) ≡ true → s'.back constructed_device d ≡ r ∷ []))
        (create_raid (delete_method n) level devices spares s)
unfolding create_raid ◌>>◌
create_raid-IsBuilt n level devices spares s h enough distinct fits =
    Ensures-bind (λ x s'. Shrinks s s' × Each IsUnused (devices ++ spares) s')
      (IsBuilt (devices ++ spares)) (for_each (clear (delete_method n) none) (devices ++ spares) s)
      (λ x. add_raid level devices spares)
      (clear-Each n (devices ++ spares) s h enough (λ d m. (fits d m).1))
      (λ x s1 r. add_raid-IsBuilt level devices spares s1 r.0.linked (record {
        distinct = distinct;
        there = λ t m. omega (arith, r.0.same_next, (fits t m).0);
        unused = r.1;
      }))
