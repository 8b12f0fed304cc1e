-- ===== src/Manipulator/Plain.antt =====
-- Deleting a logical volume that nothing but a filesystem is on.
use Prim.Native.String.{String}
use subiquity.Base.{
  ℕ, suc, ◌≡◌, refl, ap, sym, ◌∙◌, inl, inr, Bool, true, false, not, ◌&&◌, Option, none, some, List,
  [], ◌==◌, if◌then◌else◌, arith, ==-refl, Bool-cases,
}
use subiquity.Render.{format, lvm_partition}
use subiquity.Render.Ids.{mem}
use subiquity.Store.{
  has_link, fs, constructed_device, mounted, Object, Store, ok, ◌>>◌, set_object, has_no,
  remove_object, remove_logical_volume,
}
use subiquity.Store.Linked.{Linked}
use subiquity.Store.Shrinks.{Shrinks, Shrinks-refl, Shrinks-trans, set_object-Shrinks}
use subiquity.Manipulator.{
  assign, first, is_disk, is_dm_crypt, get_constructed_device, delete, clear, delete_logical_volume,
  delete_method,
}
use subiquity.Manipulator.Built.{built_later, emptied}
use subiquity.Manipulator.Succeed.{
  list_cases, one_only, then_ok, guard_ok, remove_object-ok, filesystem_ok,
}

no_constructed :
    (o : ℕ) (s : Store) → s.back constructed_device o ≡ [] → get_constructed_device o s ≡ none
unfolding get_constructed_device
no_constructed o s e =
    ap
      (λ (xs : List ℕ). elim (first xs) [
        | none ↦ none
        | some cd ↦
            if is_dm_crypt (s.object cd).kind && not (is_dm_crypt (s.object o).kind)
            then first (s.back constructed_device cd)
            else some cd
      ])
      e

-- `s'` differs from `s` in plain attributes alone.
record Sets (s s' : Store) : Type 0 where
  pub shrinks : Shrinks s s'
  pub same_actions : s'.actions ≡ s.actions
  pub same_back : s'.back ≡ s.back

assign_ok :
    (o : ℕ) (f : Object → Object) (s : Store)
    → Linked s
    → ((obj : Object) → ((f obj).links ≡ obj.links) × ((f obj).kind ≡ obj.kind))
    → Sets s (set_object s o (f (s.object o)))
assign_ok o f s h same = record {
  shrinks = set_object-Shrinks s o (f (s.object o)) (same (s.object o)).0 (same (s.object o)).1 h;
  same_actions = refl;
  same_back = refl;
}

-- What `clear` does before it deletes.
marked_ok :
    (test : Store → Bool) (o : ℕ) (f g : Object → Object) (s : Store)
    → Linked s
    → ((obj : Object) → ((f obj).links ≡ obj.links) × ((f obj).kind ≡ obj.kind))
    → ((obj : Object) → ((g obj).links ≡ obj.links) × ((g obj).kind ≡ obj.kind))
    → (s' : Store) × (((λ s. if test s then assign o f s else ok tt s) >> assign o g) s ≡ ok tt s')
      × Sets s s'
marked_ok test o f g s h same_f same_g = elim (Bool-cases (test s)) [
  | inr fails ↦ (
    set_object s o (g (s.object o)),
    then_ok (λ s. if test s then assign o f s else ok tt s) (assign o g) s s (rw fails refl),
    assign_ok o g s h same_g,
  )
  | inl passes ↦
      let s1 : Store = set_object s o (f (s.object o)) in
      let s2 : Store = set_object s1 o (g (s1.object o)) in
      let first_set = assign_ok o f s h same_f in
      let second_set = assign_ok o g s1 first_set.shrinks.linked same_g in
      (
        s2,
        then_ok (λ s. if test s then assign o f s else ok tt s) (assign o g) s s1 (rw passes refl),
        record {
          shrinks = Shrinks-trans s s1 s2 first_set.shrinks second_set.shrinks;
          same_actions = refl;
          same_back = refl;
        },
      )
]

-- The filesystem of `o`, if it has one, is deleted, and `o` stays.
abbrev Frees : ℕ → Store → Store → Type 0
Frees o s s' = Shrinks s s' × (s'.back fs o ≡ []) × (mem o s'.actions ≡ true)

delete_fs_ok :
    (n o : ℕ) (s : Store)
    → Linked s
    → mem o s.actions ≡ true
    → ((f : ℕ) → mem f (s.back fs o) ≡ true → (s.object f).kind ≡ format)
    → (s' : Store) × (delete (delete_method (suc n)) (first (s.back fs o)) s ≡ ok tt s')
      × Frees o s s'
unfolding delete_method
delete_fs_ok n o s h listed formats = elim (list_cases (s.back fs o)) [
  | inl empty ↦ (s, rw empty refl, (Shrinks-refl s h, empty, listed))
  | inr (f, rest, held) ↦
      let one = one_only f rest (s.back fs o) held (h.at_most_one fs o refl) in
      let on : mem f (s.back fs o) ≡ true = rw one (rw (==-refl f) refl) in
      let later = built_later s fs o f h on in
      let f_listed : mem f s.actions ≡ true = ground (arith, h.back_of fs o f) in
      let (s', e, r) = filesystem_ok f s h f_listed in
      let no_mount : mem o (s.back mounted f) ≡ false =
        elim (Bool-cases (mem o (s.back mounted f))) [
          | inl mounts ↦ absurd (omega (arith, later.0, (built_later s mounted f o h mounts).0))
          | inr apart ↦ apart
        ] in
      let other : (o == f) ≡ false = ground (arith, later.0) in
      (
        s',
        rw one (rw (formats f on) e),
        (
          r.0,
          emptied fs o s s' refl h r.0 (λ x k.
              let same : some f ≡ some x = rw one at k in
              let eq : f ≡ x = cc in rw (← eq) (r.1 f ∙ rw (==-refl f) (ground arith))),
          r.1 o ∙ rw (listed, other, no_mount) refl,
        ),
      )
]

clear_ok :
    (n : ℕ) (wipe : Option String) (o : ℕ) (s : Store)
    → Linked s
    → mem o s.actions ≡ true
    → s.back constructed_device o ≡ []
    → ((f : ℕ) → mem f (s.back fs o) ≡ true → (s.object f).kind ≡ format)
    → (s' : Store) × (clear (delete_method (suc n)) wipe o s ≡ ok tt s') × Frees o s s'
unfolding clear
clear_ok n wipe o s h listed plain formats =
    let (s1, e1, marks) =
      marked_ok (λ s. is_disk (s.object o).kind) o (λ obj. record obj { preserve = false })
        (λ obj. record obj { wipe = elim wipe [ none ↦ some "superblock" | some w ↦ some w ] }) s h
        (λ obj. (refl, refl)) (λ obj. (refl, refl)) in
    let (s2, e2, r) =
      delete_fs_ok n o s1 marks.shrinks.linked (rw marks.same_actions listed)
        (λ f on. marks.shrinks.same_kind f ∙ formats f (rw (sym marks.same_back) on)) in
    (
      s2,
      then_ok _ _ s s1 e1
          ∙ then_ok _ _ s1 s2 e2
          ∙ ap (λ (c : Option ℕ). delete (delete_method (suc n)) c s2)
              (no_constructed o s1 (rw marks.same_back plain)),
      (Shrinks-trans s s1 s2 marks.shrinks r.0, r.1, r.2),
    )

-- What refers to `o` through a field that is empty now is no longer in the model.
fs_gone :
    (f o : ℕ) (s s1 s2 : Store)
    → Linked s
    → Shrinks s s1
    → Shrinks s1 s2
    → s1.back fs o ≡ []
    → mem f (s.back fs o) ≡ true
    → mem f s2.actions ≡ false
unfolding mem
fs_gone f o s s1 s2 h r1 r2 empty on = elim (Bool-cases (mem f s2.actions)) [
  | inr absent ↦ absent
  | inl there ↦
      let before = h.back_of fs o f in
      let after = r1.linked.back_of fs o f in
      let nothing : mem f (s1.back fs o) ≡ false = rw empty refl in
      let kept = r2.fewer f there in
      let refers : has_link fs o (s1.object f).links ≡ true = rw (r1.same_links f) (ground arith) in
      cc
]

-- Where the backlinks are right, deleting a logical volume of the model that no RAID, volume group
-- or the like is built on, and that carries at most a filesystem, never raises; the volume and its
-- filesystem are gone.
pub delete_method-returns :
    (n lv : ℕ) (s : Store)
    → Linked s
    → mem lv s.actions ≡ true
    → s.back constructed_device lv ≡ []
    → ((f : ℕ) → mem f (s.back fs lv) ≡ true → (s.object f).kind ≡ format)
    → (s' : Store) × (delete_method (suc (suc n)) lvm_partition lv s ≡ ok tt s')
      × Linked s'
      × (mem lv s'.actions ≡ false)
      × ((f : ℕ) → mem f (s.back fs lv) ≡ true → mem f s'.actions ≡ false)
unfolding delete_method delete_logical_volume remove_logical_volume
delete_method-returns n lv s h listed plain formats =
    let (s1, e1, r1) = clear_ok n none lv s h listed plain formats in
    let (s2, e2, r2) = remove_object-ok lv s1 r1.0.linked r1.2 in
    let r = Shrinks-trans s s1 s2 r1.0 r2.0 in
    (
      s2,
      then_ok _ _ s s1 e1 ∙ guard_ok (has_no fs lv) (remove_object lv) s1 (rw r1.1 refl) ∙ e2,
      r.linked,
      r2.1 lv ∙ rw (==-refl lv) (ground arith),
      λ f on. fs_gone f lv s s1 s2 h r1.0 r2.0 r1.1 on,
    )
