-- ===== src/Store/Links.antt =====
-- What link_all and unlink_all do to each backlink field.
use subiquity.Base.{
  ℕ, ◌≤◌, ◌≡◌, refl, ap, ◌∙◌, inl, inr, true, false, not, ◌&&◌, Option, none, some, List, [], ◌∷◌,
  ◌++◌, ◌==◌, if◌then◌else◌, arith, ==_iff, ==-refl, Bool-cases, length,
}
use subiquity.Render.Ids.{mem, IsNodup}
use subiquity.Store.{
  Slot, fs, constructed_device, mounted, partitions, subvolumes, zfses, slot_eq, is_single, Link,
  Store, has_link, set_back, link_one, link_all, remove_id, unlink_one, unlink_all,
}

pub slot_eq-eq : (a b : Slot) → slot_eq a b ≡ true → a ≡ b
slot_eq-eq fs fs h = refl
slot_eq-eq constructed_device constructed_device h = refl
slot_eq-eq mounted mounted h = refl
slot_eq-eq partitions partitions h = refl
slot_eq-eq subvolumes subvolumes h = refl
slot_eq-eq zfses zfses h = refl
slot_eq-eq _ _ h = cc

pub slot_eq_refl : (a : Slot) → slot_eq a a ≡ true
slot_eq_refl fs = refl
slot_eq_refl constructed_device = refl
slot_eq_refl mounted = refl
slot_eq_refl partitions = refl
slot_eq_refl subvolumes = refl
slot_eq_refl zfses = refl

-- No object refers to another one twice through one backlink.
abbrev pub AreOnce : List Link → Type 0
AreOnce [] = Unit
AreOnce ((slot, target) ∷ ls) = (has_link slot target ls ≡ false) × AreOnce ls

-- The single fields that are about to be set are None.
abbrev pub AreFree : List Link → Store → Type 0
AreFree ls s =
    (slot : Slot) (target : ℕ)
    → has_link slot target ls ≡ true
    → is_single slot ≡ true
    → s.back slot target ≡ []

-- Where the test is on the same field, the link is the same.
same_link :
    (sl slot : Slot) (t target : ℕ) (ls : List Link)
    → (slot_eq sl slot && t == target) ≡ true
    → has_link slot target ls ≡ false
    → has_link sl t ls ≡ false
same_link sl slot t target ls h once =
    let e : sl ≡ slot = slot_eq-eq sl slot (ground arith) in
    let k : t ≡ target = ground arith in rw (e, k) once

link_one-back :
    (o : ℕ) (slot : Slot) (target : ℕ) (s : Store) (sl : Slot) (t : ℕ)
    → (is_single slot ≡ true → s.back slot target ≡ [])
    → (link_one o slot target s).back sl t
      ≡ (if slot_eq sl slot && t == target then s.back slot target ++ o ∷ [] else s.back sl t)
unfolding link_one
link_one-back o slot target s sl t free = elim (Bool-cases (is_single slot)) [
  | inl one ↦ rw (one, free one) refl
  | inr many ↦ rw many refl
]

pub link_all-back :
    (o : ℕ) (ls : List Link) (s : Store) (sl : Slot) (t : ℕ)
    → AreOnce ls
    → AreFree ls s
    → (link_all o ls s).back sl t
      ≡ (if has_link sl t ls then s.back sl t ++ o ∷ [] else s.back sl t)
unfolding link_all has_link
link_all-back o [] s sl t once free = refl
link_all-back o ((slot, target) ∷ ls) s sl t once free =
    let s1 = link_one o slot target s in
    let head : is_single slot ≡ true → s.back slot target ≡ [] =
      free slot target (rw (slot_eq_refl slot, ==-refl target) refl) in
    let free1 : AreFree ls s1 = λ sl1 t1 h one.
      elim (Bool-cases (slot_eq sl1 slot && t1 == target)) [
        | inl here ↦ cc (same_link sl1 slot t1 target ls here once.0)
        | inr there ↦
            link_one-back o slot target s sl1 t1 head
            ∙ rw there (free sl1 t1 (rw (there, h) refl) one)
      ] in
    link_all-back o ls s1 sl t once.1 free1
    ∙ rw (link_one-back o slot target s sl t head)
        (elim (Bool-cases (slot_eq sl slot && t == target)) [
          | inl here ↦
              let e : sl ≡ slot = slot_eq-eq sl slot (ground arith) in
              let k : t ≡ target = ground arith in
              let same : s.back sl t ≡ s.back slot target = rw (e, k) refl in
              rw (here, same_link sl slot t target ls here once.0, same) refl
          | inr there ↦ rw there refl
        ])

pub link_all-actions : (o : ℕ) (ls : List Link) (s : Store) → (link_all o ls s).actions ≡ s.actions
unfolding link_all
link_all-actions o [] s = refl
link_all-actions o ((slot, target) ∷ ls) s = link_all-actions o ls (link_one o slot target s)

pub link_all-object : (o : ℕ) (ls : List Link) (s : Store) → (link_all o ls s).object ≡ s.object
unfolding link_all
link_all-object o [] s = refl
link_all-object o ((slot, target) ∷ ls) s = link_all-object o ls (link_one o slot target s)

pub mem-remove_id :
    (q o : ℕ) (xs : List ℕ) → IsNodup xs → mem q (remove_id o xs) ≡ (mem q xs && not (q == o))
unfolding mem remove_id
mem-remove_id q o [] h = refl
mem-remove_id q o (x ∷ xs) h = elim (Bool-cases (o == x)) [
  | inl here ↦
      let e : o ≡ x = (==_iff o x).0 here in
      rw (here) (elim (Bool-cases (q == o)) [
        | inl same ↦ let k : q ≡ o = (==_iff q o).0 same in rw (k, e) (rw (==-refl x) h.0)
        | inr other ↦ ground arith
      ])
  | inr later ↦ ground (arith, mem-remove_id q o xs)
]

pub remove_id-IsNodup : (o : ℕ) (xs : List ℕ) → IsNodup xs → IsNodup (remove_id o xs)
unfolding remove_id
remove_id-IsNodup o [] h = tt
remove_id-IsNodup o (x ∷ xs) h = elim (Bool-cases (o == x)) [
  | inl here ↦ rw here h.1
  | inr later ↦ rw later (rw (mem-remove_id x o xs h.1) (rw h.0 refl), remove_id-IsNodup o xs h.1)
]

pub length-remove_id-le : (o : ℕ) (xs : List ℕ) → length (remove_id o xs) ≤ length xs
unfolding remove_id
length-remove_id-le o [] = omega arith
length-remove_id-le o (x ∷ xs) = ground (arith, length-remove_id-le o xs)

-- The one object of a single field is the one that is removed.
pub single_removed : (o : ℕ) (xs : List ℕ) → length xs ≤ 1 → mem o xs ≡ true → remove_id o xs ≡ []
unfolding mem remove_id
single_removed o [] h m = refl
single_removed o (x ∷ []) h m = ground arith
single_removed o (x ∷ y ∷ xs) h m = absurd (omega arith)

abbrev pub AreSet : ℕ → List Link → Store → Type 0
AreSet o ls s =
    (slot : Slot) (target : ℕ)
    → has_link slot target ls ≡ true
    → (mem o (s.back slot target) ≡ true)
      × (is_single slot ≡ true → length (s.back slot target) ≤ 1)

-- `s'` is `s` without `o` in the fields of `ls`.
pub record Unlinks (o : ℕ) (ls : List Link) (s s' : Store) : Type 0 where
  pub fields :
      (sl : Slot) (t : ℕ)
      → s'.back sl t ≡ (if has_link sl t ls then remove_id o (s.back sl t) else s.back sl t)
  pub same_actions : s'.actions ≡ s.actions
  pub same_objects : s'.object ≡ s.object
  pub same_next : s'.next ≡ s.next

unlink_one-Unlinks :
    (o : ℕ) (slot : Slot) (target : ℕ) (s : Store)
    → mem o (s.back slot target) ≡ true
    → (is_single slot ≡ true → length (s.back slot target) ≤ 1)
    → (s' : Store) × (unlink_one o slot target s ≡ some s') × Unlinks o ((slot, target) ∷ []) s s'
unfolding unlink_one has_link
unlink_one-Unlinks o slot target s there short =
    let b = s.back slot target in
    let value : (if is_single slot
          then some (set_back s slot target [])
          else if mem o b
          then some (set_back s slot target (remove_id o b))
          else none)
        ≡ some (set_back s slot target (remove_id o b)) =
      elim (Bool-cases (is_single slot)) [
        | inl one ↦ rw (one, single_removed o b (short one) there) refl
        | inr many ↦ rw (many, there) refl
      ] in
    (
      set_back s slot target (remove_id o b),
      value,
      record {
        fields = λ sl t. elim (Bool-cases (slot_eq sl slot && t == target)) [
          | inl here ↦
              let e : sl ≡ slot = slot_eq-eq sl slot (ground arith) in
              let k : t ≡ target = ground arith in
              let same : s.back sl t ≡ s.back slot target = rw (e, k) refl in rw (here, same) refl
          | inr other ↦ rw other refl
        ];
        same_actions = refl;
        same_objects = refl;
        same_next = refl;
      },
    )

pub unlink_all-Unlinks :
    (o : ℕ) (ls : List Link) (s : Store)
    → AreOnce ls
    → AreSet o ls s
    → (s' : Store) × (unlink_all o ls s ≡ some s') × Unlinks o ls s s'
unfolding unlink_all has_link
unlink_all-Unlinks o [] s once set = (
  s,
  refl,
  record { fields = λ sl t. refl; same_actions = refl; same_objects = refl; same_next = refl },
)
unlink_all-Unlinks o ((slot, target) ∷ ls) s once set =
    let first = set slot target (rw (slot_eq_refl slot, ==-refl target) refl) in
    let (s1, e1, u1) = unlink_one-Unlinks o slot target s first.0 first.1 in
    let untouched : (sl : Slot) (t : ℕ) → has_link sl t ls ≡ true → s1.back sl t ≡ s.back sl t =
      λ sl t h. elim (Bool-cases (slot_eq sl slot && t == target)) [
        | inl here ↦ cc (same_link sl slot t target ls here once.0)
        | inr other ↦ u1.fields sl t ∙ rw other refl
      ] in
    let (s2, e2, u2) =
      unlink_all-Unlinks o ls s1 once.1
        (λ sl t h. rw (untouched sl t h) (set sl t (ground arith))) in
    (
      s2,
      ap (λ (m : Option Store). elim m [ none ↦ none | some s1 ↦ unlink_all o ls s1 ]) e1 ∙ e2,
      record {
        fields = λ sl t. u2.fields sl t ∙ elim (Bool-cases (slot_eq sl slot && t == target)) [
          | inl here ↦
              rw (here, same_link sl slot t target ls here once.0) (u1.fields sl t ∙ rw here refl)
          | inr other ↦ rw (other, u1.fields sl t) (rw other refl)
        ];
        same_actions = u2.same_actions ∙ u1.same_actions;
        same_objects = u2.same_objects ∙ u1.same_objects;
        same_next = u2.same_next ∙ u1.same_next;
      },
    )

pub link_all-next : (o : ℕ) (ls : List Link) (s : Store) → (link_all o ls s).next ≡ s.next
unfolding link_all
link_all-next o [] s = refl
link_all-next o ((slot, target) ∷ ls) s = link_all-next o ls (link_one o slot target s)
