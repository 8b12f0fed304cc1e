-- ===== src/Store/Shrinks.antt =====
-- Stores with fewer objects: what `_remove` and all that deletes through it lead to.
use subiquity.Base.{
  ℕ, ◌≤◌, length, ◌≡◌, refl, ap, subst, ◌∙◌, inl, inr, true, false, Option, none, some, List, [],
  ◌∷◌, ◌==◌, arith, ==_iff, ==-refl, Bool-cases,
}
use subiquity.Render.Ids.{mem}
use subiquity.Store.{
  Slot, Link, Object, Store, raised, unlink_one, unlink_all, remove_action, remove_object,
  set_object, is_single,
}
use subiquity.Store.Links.{Unlinks, unlink_all-Unlinks, mem-remove_id}
use subiquity.Store.Linked.{Linked, known_back, removed_field, removed-Linked}
use subiquity.Store.Ensures.{Ensures}

-- `s'` has the objects of `s`, as they were but for plain attributes, except some that are gone
-- from `_actions`, and its backlinks are right.
pub record Shrinks (s s' : Store) : Type 0 where
  pub linked : Linked s'
  pub same_next : s'.next ≡ s.next
  pub same_links : (q : ℕ) → (s'.object q).links ≡ (s.object q).links
  pub same_kind : (q : ℕ) → (s'.object q).kind ≡ (s.object q).kind
  pub fewer : (q : ℕ) → mem q s'.actions ≡ true → mem q s.actions ≡ true
  pub shorter : (slot : Slot) (t : ℕ) → length (s'.back slot t) ≤ length (s.back slot t)

pub Shrinks-refl : (s : Store) → Linked s → Shrinks s s
Shrinks-refl s h = record {
  linked = h;
  same_next = refl;
  same_links = λ q. refl;
  same_kind = λ q. refl;
  fewer = λ q m. m;
  shorter = λ slot t. omega arith;
}

pub Shrinks-trans : (r s t : Store) → Shrinks r s → Shrinks s t → Shrinks r t
Shrinks-trans r s t h k = record {
  linked = k.linked;
  same_next = k.same_next ∙ h.same_next;
  same_links = λ q. k.same_links q ∙ h.same_links q;
  same_kind = λ q. k.same_kind q ∙ h.same_kind q;
  fewer = λ q m. h.fewer q (k.fewer q m);
  shorter = λ slot t. omega (arith, h.shorter slot t, k.shorter slot t);
}

-- `s'` is `s` without `o`, and perhaps without others.
abbrev pub Removes : Store → ℕ → Store → Type 0
Removes s o s' = Shrinks s s' × (mem o s'.actions ≡ false)

abbrev pub SameActions : List ℕ → Option Store → Type 0
SameActions xs none = Unit
SameActions xs (some s) = s.actions ≡ xs

unlink_one-SameActions :
    (o : ℕ) (slot : Slot) (target : ℕ) (s : Store)
    → SameActions s.actions (unlink_one o slot target s)
unfolding unlink_one
unlink_one-SameActions o slot target s = elim (Bool-cases (is_single slot)) [
  | inl one ↦ rw one refl
  | inr many ↦ rw many (elim (Bool-cases (mem o (s.back slot target))) [
    | inl there ↦ rw there refl
    | inr absent ↦ rw absent tt
  ])
]

unlinked_rest :
    (f : Store → Option Store) (xs : List ℕ) (m : Option Store)
    → ((s : Store) → SameActions s.actions (f s))
    → SameActions xs m
    → SameActions xs (elim m [ none ↦ none | some s ↦ f s ])
unlinked_rest f xs none k h = tt
unlinked_rest f xs (some s) k h = subst (λ (ys : List ℕ). SameActions ys (f s)) h (k s)

pub unlink_all-SameActions :
    (o : ℕ) (ls : List Link) (s : Store) → SameActions s.actions (unlink_all o ls s)
unfolding unlink_all
unlink_all-SameActions o [] s = refl
unlink_all-SameActions o ((slot, target) ∷ ls) s =
    unlinked_rest (unlink_all o ls) s.actions (unlink_one o slot target s)
      (unlink_all-SameActions o ls) (unlink_one-SameActions o slot target s)

pub absent_raises :
    (o : ℕ) (s : Store) (m : Option Store)
    → mem o s.actions ≡ false
    → SameActions s.actions m
    → remove_action o m ≡ raised
unfolding remove_action
absent_raises o s none absent same = refl
absent_raises o s (some s') absent same =
    let gone : mem o s'.actions ≡ false = rw same absent in rw gone refl

removed :
    (o : ℕ) (s s' : Store)
    → Linked s
    → mem o s.actions ≡ true
    → Unlinks o (s.object o).links s s'
    → Ensures (λ (x : Unit). Removes s o) (remove_action o (some s'))
unfolding remove_action
removed o s s' h m u =
    let listed : mem o s'.actions ≡ true = rw u.same_actions m in
    rw listed (
      record {
        linked = removed-Linked s s' o h u;
        same_next = u.same_next;
        same_links = λ q. ap (λ (f : ℕ → Object). (f q).links) u.same_objects;
        same_kind = λ q. ap (λ (f : ℕ → Object). (f q).kind) u.same_objects;
        fewer =
            λ q. rw u.same_actions (ground (arith, mem-remove_id q o s.actions h.actions_nodup));
        shorter = λ slot t. (removed_field s s' o slot t h u).0.1;
      },
      rw u.same_actions (mem-remove_id o o s.actions h.actions_nodup ∙ rw (m, ==-refl o) refl),
    )

pub remove_object-Removes :
    (o : ℕ) (s : Store) → Linked s → Ensures (λ (x : Unit). Removes s o) (remove_object o s)
unfolding remove_object
remove_object-Removes o s h = elim (Bool-cases (mem o s.actions)) [
  | inl listed ↦
      let (s', e, u) =
        unlink_all-Unlinks o (s.object o).links s (h.once o) (known_back s h o listed) in
      rw e (removed o s s' h listed u)
  | inr absent ↦
      rw
        (absent_raises o s (unlink_all o (s.object o).links s) absent
          (unlink_all-SameActions o (s.object o).links s))
        tt
]

-- Plain attributes may change.
pub set_object-Shrinks :
    (s : Store) (o : ℕ) (obj : Object)
    → obj.links ≡ (s.object o).links
    → obj.kind ≡ (s.object o).kind
    → Linked s
    → Shrinks s (set_object s o obj)
set_object-Shrinks s o obj links kind h =
    let s' = set_object s o obj in
    let same : (q : ℕ)
        → ((s'.object q).links ≡ (s.object q).links) × ((s'.object q).kind ≡ (s.object q).kind) =
      λ q. elim (Bool-cases (q == o)) [
        | inl here ↦ let e : q ≡ o = (==_iff q o).0 here in rw here (rw e (links, kind))
        | inr other ↦ rw other (refl, refl)
      ] in
    record {
      linked = record {
        back_of = λ slot t q. rw ((same q).0) (h.back_of slot t q);
        back_nodup = h.back_nodup;
        at_most_one = h.at_most_one;
        actions_nodup = h.actions_nodup;
        once = λ q. rw ((same q).0) (h.once q);
        known = h.known;
        older = λ q slot t. rw ((same q).0) (h.older q slot t);
      };
      same_next = refl;
      same_links = λ q. (same q).0;
      same_kind = λ q. (same q).1;
      fewer = λ q m. m;
      shorter = λ slot t. omega arith;
    }
