-- ===== src/Actions/Delete.antt =====
-- When a RAID or volume group may be deleted.
use subiquity.Base.{
  ℕ, zero, suc, ◌≤◌, ◌≡◌, ◌↔◌, refl, ap, sym, subst, ◌∙◌, inl, inr, Bool, true, false, Option, none,
  some, List, [], ◌∷◌, ◌==◌, if◌then◌else◌, arith, ==_iff, ==-refl, Bool-cases,
}
use subiquity.Render.{Kind, lvm_partition}
use subiquity.Render.Ids.{mem}
use subiquity.Store.{partitions, Store}
use subiquity.Manipulator.{get_constructed_device}
use subiquity.Actions.{
  Answer, yes, no, because, raised, not_implemented_error, attribute_error, Reason, has_label,
  naming, naming_part, part_of, part_in_use, unless_part, PartState, has_mount, not_used, built,
  is_mounted, part_state, Scan, blocked, counted, scan_parts, after_scan, can_delete_raid_vg,
}

-- The rest of the loop behind a partition in each state.
abbrev after_part : ℕ → ℕ → List ℕ → Store → PartState → Scan
after_part n p ps s st = elim st [
  | has_mount ↦ scan_parts (suc n) ps s
  | built cd ↦ blocked (naming_part p cd s)
  | not_used ↦ scan_parts n ps s
]

-- The count never falls.
counted_from :
    (n m p : ℕ) (ps : List ℕ) (s : Store) (st : PartState)
    → ((k : ℕ) → scan_parts k ps s ≡ counted m → k ≤ m)
    → after_part n p ps s st ≡ counted m
    → n ≤ m
counted_from n m p ps s has_mount rest h = omega (arith, rest (suc n) h)
counted_from n m p ps s (built cd) rest h = cc
counted_from n m p ps s not_used rest h = rest n h

scan_parts-le : (n m : ℕ) (ps : List ℕ) (s : Store) → scan_parts n ps s ≡ counted m → n ≤ m
unfolding scan_parts
scan_parts-le n m [] s h = let e : n ≡ m = cc in omega arith
scan_parts-le n m (p ∷ ps) s h =
    counted_from n m p ps s (part_state p s) (λ k. scan_parts-le k m ps s) h

not_counted :
    (n p : ℕ) (ps : List ℕ) (s : Store) (st : PartState)
    → after_part n p ps s st ≡ counted n
    → (st ≡ not_used) × (scan_parts n ps s ≡ counted n)
not_counted n p ps s has_mount h = absurd (omega (arith, scan_parts-le (suc n) n ps s h))
not_counted n p ps s (built cd) h = cc
not_counted n p ps s not_used h = (refl, h)

abbrev AreUnused : List ℕ → Store → Type 0
AreUnused ps s = (p : ℕ) → mem p ps ≡ true → part_state p s ≡ not_used

scan_parts-AreUnused :
    (n : ℕ) (ps : List ℕ) (s : Store) → scan_parts n ps s ≡ counted n → AreUnused ps s
unfolding scan_parts mem
scan_parts-AreUnused n [] s h p m = cc
scan_parts-AreUnused n (q ∷ ps) s h p m =
    let head = not_counted n q ps s (part_state q s) h in
    elim (Bool-cases (p == q)) [
      | inl same ↦
          let e : p ≡ q = (==_iff p q).0 same in
          subst (λ x. part_state x s ≡ not_used) (sym e) head.0
      | inr other ↦ scan_parts-AreUnused n ps s head.1 p (ground arith)
    ]

unused_counted : (n : ℕ) (ps : List ℕ) (s : Store) → AreUnused ps s → scan_parts n ps s ≡ counted n
unfolding scan_parts mem
unused_counted n [] s h = refl
unused_counted n (p ∷ ps) s h =
    ap (after_part n p ps s) (h p (rw (==-refl p) refl))
    ∙ unused_counted n ps s (λ q m. h q (rw m (ground arith)))

state_cases :
    (b : Bool) (c : Option ℕ)
    → ((if b then has_mount else elim c [ none ↦ not_used | some cd ↦ built cd ]) ≡ not_used)
      ↔ ((b ≡ false) × (c ≡ none))
state_cases true c = (λ h. cc, λ h. cc)
state_cases false none = (λ h. (refl, refl), λ h. refl)
state_cases false (some cd) = (λ h. cc, λ h. cc)

naming-no : (cd : ℕ) (reason : Reason) (s : Store) → naming cd reason s ≡ yes → ⊥
naming-no cd reason s h = elim (Bool-cases (has_label (s.object cd).kind)) [
  | inl labelled ↦ let e : because reason ≡ yes = rw labelled at h in cc
  | inr other ↦ let e : raised not_implemented_error ≡ yes = rw other at h in cc
]

naming_part-no : (p cd : ℕ) (s : Store) → naming_part p cd s ≡ yes → ⊥
unfolding naming_part
naming_part-no p cd s h = go (s.object p).kind h
  where
    go :
        (kind : Kind)
        → (elim kind [
          | lvm_partition ↦ raised attribute_error
          | _ ↦ naming cd (part_in_use p cd) s
        ])
          ≡ yes
        → ⊥
    go lvm_partition k = cc
    go _ k = naming-no cd (part_in_use p cd) s k

part_cases :
    (c : Option ℕ) (s : Store)
    → (elim c [ none ↦ yes | some cd ↦ naming cd (part_of cd) s ] ≡ yes) ↔ (c ≡ none)
part_cases none s = (λ h. refl, λ h. refl)
part_cases (some cd) s = (λ h. absurd (naming-no cd (part_of cd) s h), λ h. cc)

part_state-not_used :
    (p : ℕ) (s : Store)
    → (part_state p s ≡ not_used) ↔ ((is_mounted p s ≡ false) × (get_constructed_device p s ≡ none))
unfolding part_state
part_state-not_used p s = state_cases (is_mounted p s) (get_constructed_device p s)

after_scan-yes :
    (scan : Scan) (rest : Answer)
    → (scan ≡ blocked yes → ⊥)
    → after_scan scan rest ≡ yes
    → (scan ≡ counted 0) × (rest ≡ yes)
after_scan-yes (blocked ending) rest going h = absurd (going (ap blocked h))
after_scan-yes (counted zero) rest going h = (refl, h)
after_scan-yes (counted (suc n)) rest going h = cc

abbrev blocked_by : Scan → Answer
blocked_by (blocked ending) = ending
blocked_by (counted n) = no

part-no :
    (n p : ℕ) (ps : List ℕ) (s : Store) (st : PartState)
    → ((k : ℕ) → scan_parts k ps s ≡ blocked yes → ⊥)
    → after_part n p ps s st ≡ blocked yes
    → ⊥
part-no n p ps s has_mount rest h = rest (suc n) h
part-no n p ps s (built cd) rest h = naming_part-no p cd s (ap blocked_by h)
part-no n p ps s not_used rest h = rest n h

scan_parts-no : (n : ℕ) (ps : List ℕ) (s : Store) → scan_parts n ps s ≡ blocked yes → ⊥
unfolding scan_parts
scan_parts-no n [] s h = cc
scan_parts-no n (p ∷ ps) s h = part-no n p ps s (part_state p s) (λ k. scan_parts-no k ps s) h

unless_part-yes :
    (o : ℕ) (s : Store) → (unless_part o s ≡ yes) ↔ (get_constructed_device o s ≡ none)
unfolding unless_part
unless_part-yes o s = part_cases (get_constructed_device o s) s

-- For a RAID or volume group, `_can_delete_raid_vg` returns True exactly where `constructed_device`, which
-- looks through an encryption, gives nothing for it, and each partition or logical volume of it has no
-- mounted filesystem, and `constructed_device` gives nothing for it either.
pub can_delete_raid_vg-yes :
    (d : ℕ) (s : Store)
    → (can_delete_raid_vg d s ≡ yes) ↔ (
        ((p : ℕ)
          → mem p (s.back partitions d) ≡ true
          → (is_mounted p s ≡ false) × (get_constructed_device p s ≡ none))
        × (get_constructed_device d s ≡ none))
unfolding can_delete_raid_vg
can_delete_raid_vg-yes d s = (
  λ h.
      let both =
        after_scan-yes (scan_parts 0 (s.back partitions d) s) (unless_part d s)
          (scan_parts-no 0 (s.back partitions d) s) h in
      (
        λ p m.
            (part_state-not_used p s).0 (scan_parts-AreUnused 0 (s.back partitions d) s both.0 p m),
        (unless_part-yes d s).0 both.1,
      ),
  λ h.
      rw (unused_counted 0 (s.back partitions d) s (λ p m. (part_state-not_used p s).1 (h.0 p m)))
        ((unless_part-yes d s).1 h.1),
)
