-- ===== src/Manipulator/Succeed.antt =====
-- Deletions that do not raise, and exactly what they remove.
use subiquity.Base.{
  ℕ, ◌≤◌, ◌≡◌, refl, ap, ◌∙◌, ◌⊎◌, inl, inr, Bool, true, false, not, ◌&&◌, some, List, [], ◌∷◌,
  ◌==◌, arith, ==-refl, length,
}
use subiquity.Render.Ids.{mem}
use subiquity.Store.{
  mounted, Store, Outcome, ok, raised, out_of_fuel, M, ◌>>◌, guard, has_no, remove_id,
  remove_object, remove_action, remove_mount, remove_filesystem,
}
use subiquity.Store.Links.{unlink_all-Unlinks, mem-remove_id}
use subiquity.Store.Linked.{Linked, known_back}
use subiquity.Store.Ensures.{Ensures-ok}
use subiquity.Store.Shrinks.{Shrinks, Shrinks-trans, Removes, remove_object-Removes}
use subiquity.Manipulator.{first, delete_mount, delete_filesystem}
use subiquity.Manipulator.Built.{built_later, emptied}

pub then_ok :
    {B : Type 0} (m : M (Unit {0})) (k : M B) (s s' : Store) → m s ≡ ok tt s' → (m >> k) s ≡ k s'
unfolding ◌>>◌
then_ok m k s s' e =
    ap
      (λ (r : Outcome (Unit {0})). elim r [
        | ok a s1 ↦ k s1
        | raised ↦ raised
        | out_of_fuel ↦ out_of_fuel
      ])
      e

pub guard_ok :
    {B : Type 0} (test : Store → Bool) (k : M B) (s : Store)
    → test s ≡ true
    → (guard test >> k) s ≡ k s
guard_ok test k s passes = then_ok (guard test) k s s (rw passes refl)

-- An object of the model is removed, and it alone.
abbrev pub RemovesOnly : Store → ℕ → Store → Type 0
RemovesOnly s o s' = Shrinks s s' × ((q : ℕ) → mem q s'.actions ≡ (mem q s.actions && not (q == o)))

pub remove_object-ok :
    (o : ℕ) (s : Store)
    → Linked s
    → mem o s.actions ≡ true
    → (s' : Store) × (remove_object o s ≡ ok tt s') × RemovesOnly s o s'
unfolding remove_object remove_action
remove_object-ok o s h listed =
    let (s1, e, u) =
      unlink_all-Unlinks o (s.object o).links s (h.once o) (known_back s h o listed) in
    let there : mem o s1.actions ≡ true = rw u.same_actions listed in
    let s' : Store = record s1 { actions = remove_id o s1.actions } in
    let returns : remove_object o s ≡ ok tt s' = ap (remove_action o) e ∙ rw there refl in
    let r =
      Ensures-ok (λ x t. Removes s o t) (remove_object o s) tt s' (remove_object-Removes o s h)
        returns in
    (s', returns, (r.0, λ q. rw u.same_actions (mem-remove_id q o s.actions h.actions_nodup)))

pub list_cases : (xs : List ℕ) → (xs ≡ []) ⊎ ((x : ℕ) × (ys : List ℕ) × (xs ≡ x ∷ ys))
list_cases [] = inl refl
list_cases (x ∷ xs) = inr (x, xs, refl)

pub one_only : (x : ℕ) (ys xs : List ℕ) → xs ≡ x ∷ ys → length xs ≤ 1 → xs ≡ x ∷ []
one_only x [] xs e h = e
one_only x (y ∷ ys) xs e h = let k : length (x ∷ y ∷ ys) ≤ 1 = rw e at h in absurd (omega arith)

-- What is left behind the deletion of a filesystem.
abbrev pub LeavesOthers : Store → ℕ → Store → Type 0
LeavesOthers s f s' =
    Shrinks s s'
    × ((q : ℕ)
        → mem q s'.actions ≡ (mem q s.actions && not (q == f) && not (mem q (s.back mounted f))))

unmounted_ok :
    (f : ℕ) (s : Store)
    → Linked s
    → mem f s.actions ≡ true
    → s.back mounted f ≡ []
    → (s' : Store) × (delete_filesystem (some f) s ≡ ok tt s') × LeavesOthers s f s'
unfolding delete_filesystem delete_mount remove_filesystem mem
unmounted_ok f s h listed empty =
    let (s', e, r) = remove_object-ok f s h listed in
    let no_mount : delete_mount (first (s.back mounted f)) s ≡ ok tt s = rw empty refl in
    (
      s',
      then_ok (λ s. delete_mount (first (s.back mounted f)) s) (remove_filesystem f) s s no_mount
          ∙ guard_ok (has_no mounted f) (remove_object f) s (rw empty refl)
          ∙ e,
      (r.0, λ q. rw empty (r.1 q ∙ ground arith)),
    )

mounted_ok :
    (f m : ℕ) (s : Store)
    → Linked s
    → mem f s.actions ≡ true
    → s.back mounted f ≡ m ∷ []
    → (s' : Store) × (delete_filesystem (some f) s ≡ ok tt s') × LeavesOthers s f s'
unfolding delete_filesystem delete_mount remove_mount remove_filesystem mem
mounted_ok f m s h listed one =
    let on : mem m (s.back mounted f) ≡ true = rw (one, ==-refl m) refl in
    let later = built_later s mounted f m h on in
    let m_listed : mem m s.actions ≡ true = ground (arith, h.back_of mounted f m) in
    let (s1, e1, r1) = remove_object-ok m s h m_listed in
    let gone : mem m s1.actions ≡ false = r1.1 m ∙ rw (==-refl m) (ground arith) in
    let empty : s1.back mounted f ≡ [] =
      emptied mounted f s s1 refl h r1.0
        (λ x e. let held : some m ≡ some x = rw one at e in let k : m ≡ x = cc in rw (← k) gone) in
    let other : (f == m) ≡ false = ground (arith, later.0) in
    let f_listed : mem f s1.actions ≡ true = r1.1 f ∙ rw (listed, other) refl in
    let (s2, e2, r2) = remove_object-ok f s1 r1.0.linked f_listed in
    (
      s2,
      then_ok (λ s. delete_mount (first (s.back mounted f)) s) (remove_filesystem f) s s1
            (rw one e1)
          ∙ guard_ok (has_no mounted f) (remove_object f) s1 (rw empty refl)
          ∙ e2,
      (Shrinks-trans s s1 s2 r1.0 r2.0, λ q. r2.1 q ∙ rw (r1.1 q, one) (ground arith)),
    )

pub filesystem_ok :
    (f : ℕ) (s : Store)
    → Linked s
    → mem f s.actions ≡ true
    → (s' : Store) × (delete_filesystem (some f) s ≡ ok tt s') × LeavesOthers s f s'
filesystem_ok f s h listed = elim (list_cases (s.back mounted f)) [
  | inl empty ↦ unmounted_ok f s h listed empty
  | inr (m, ys, e) ↦
      mounted_ok f m s h listed (one_only m ys (s.back mounted f) e (h.at_most_one mounted f refl))
]

-- Where the backlinks are right, deleting a filesystem of the model never raises, and removes
-- exactly the filesystem and what mounts it.
pub delete_filesystem-returns :
    (f : ℕ) (s : Store)
    → Linked s
    → mem f s.actions ≡ true
    → (s' : Store) × (delete_filesystem (some f) s ≡ ok tt s')
      × Linked s'
      × ((q : ℕ)
          → mem q s'.actions ≡ (mem q s.actions && not (q == f) && not (mem q (s.back mounted f))))
delete_filesystem-returns f s h listed =
    let (s', e, r) = filesystem_ok f s h listed in (s', e, r.0.linked, r.1)
