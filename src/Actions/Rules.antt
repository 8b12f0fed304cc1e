-- ===== src/Actions/Rules.antt =====
-- What the checkers allow.
use subiquity.Base.{
  ℕ, suc, ◌≤◌, ◌<◌, ◌≡◌, refl, ap, sym, ◌∙◌, Bool, true, false, Option, none, some, List, [], ◌∷◌,
  ◌==◌, if◌then◌else◌, length, arith,
}
use subiquity.Render.{Kind, raid}
use subiquity.Render.Ids.{mem}
use subiquity.Raid.{raidlevels}
use subiquity.Store.{Store, remove_id}
use subiquity.Manipulator.{get_constructed_device}
use subiquity.Actions.{
  yes, no, because, Reason, preexisting_parent, too_few_devices, least_devices, is_raid,
  has_preserve, can_remove_from, can_remove_device,
}

length-remove_id-ge : (o : ℕ) (xs : List ℕ) → length xs ≤ suc (length (remove_id o xs))
unfolding remove_id
length-remove_id-ge o [] = omega arith
length-remove_id-ge o (x ∷ xs) = ground (arith, length-remove_id-ge o xs)

only_yes :
    (p q : Bool) (a b : Reason)
    → (if p then because a else if q then because b else yes) ≡ yes
    → (p ≡ false) × (q ≡ false)
only_yes true q a b h = cc
only_yes false true a b h = cc
only_yes false false a b h = (refl, refl)

raid-has_preserve : (kind : Kind) → is_raid kind ≡ true → has_preserve kind ≡ true
raid-has_preserve raid h = refl
raid-has_preserve _ h = cc

remove_from-keeps :
    (cd d m : ℕ) (s : Store)
    → is_raid (s.object cd).kind ≡ true
    → mem d (s.object cd).spare_devices ≡ false
    → least_devices (s.object cd).raidlevel raidlevels ≡ some m
    → m ≤ length (s.object cd).devices
    → can_remove_from cd d s ≡ yes
    → ((s.object cd).preserve ≡ false) × (m < length (s.object cd).devices)
unfolding can_remove_from
remove_from-keeps cd d m s of_raid active least enough allowed =
    let count = length (s.object cd).devices in
    let known = raid-has_preserve (s.object cd).kind of_raid in
    let form : can_remove_from cd d s ≡ (
        if (s.object cd).preserve
        then because (preexisting_parent cd)
        else if count == m
        then because (too_few_devices count)
        else yes) =
      rw (known, of_raid, active, least) refl in
    let both =
      only_yes (s.object cd).preserve (count == m) (preexisting_parent cd) (too_few_devices count)
        (sym form ∙ allowed) in
    (both.0, ground (arith, both.1))

-- Where a device that is no spare may be removed from a RAID that has enough devices, the RAID was
-- not there before, and it keeps the devices that its level needs at least.
pub can_remove_device-keeps :
    (cd d m : ℕ) (s : Store)
    → get_constructed_device d s ≡ some cd
    → is_raid (s.object cd).kind ≡ true
    → mem d (s.object cd).spare_devices ≡ false
    → least_devices (s.object cd).raidlevel raidlevels ≡ some m
    → m ≤ length (s.object cd).devices
    → can_remove_device d s ≡ yes
    → ((s.object cd).preserve ≡ false) × (m ≤ length (remove_id d (s.object cd).devices))
unfolding can_remove_device
can_remove_device-keeps cd d m s part of_raid active least enough allowed =
    let from : can_remove_from cd d s ≡ yes =
      sym (ap (λ (c : Option ℕ). elim c [ none ↦ no | some cd ↦ can_remove_from cd d s ]) part)
      ∙ allowed in
    let kept = remove_from-keeps cd d m s of_raid active least enough from in
    (kept.0, omega (arith, kept.1, length-remove_id-ge d (s.object cd).devices))
