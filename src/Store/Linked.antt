-- ===== src/Store/Linked.antt =====
-- The backlinks of the store mirror the references of the objects in `_actions`.
use subiquity.Base.{
  ℕ, suc, ◌≤◌, ◌<◌, ◌≡◌, refl, ap, ◌∙◌, inl, inr, true, false, not, ◌&&◌, List, [], ◌∷◌, ◌++◌, ◌==◌,
  if◌then◌else◌, arith, ==_iff, ==-refl, Bool-cases, length,
}
use subiquity.Render.Ids.{mem, mem-snoc, IsNodup, IsNodup-snoc}
use subiquity.Store.{
  Slot, is_single, Link, Object, Store, has_link, link_all, remove_id, set_object,
}
use subiquity.Store.Links.{
  AreOnce, AreFree, AreSet, Unlinks, link_all-back, link_all-actions, link_all-object,
  mem-remove_id, remove_id-IsNodup, length-remove_id-le,
}

-- A backlink field holds exactly the objects of `_actions` that refer to its owner through it, each
-- once, and a single field at most one of them.
pub record Linked (s : Store) : Type 0 where
  pub back_of :
      (slot : Slot) (t o : ℕ)
      → mem o (s.back slot t) ≡ (mem o s.actions && has_link slot t (s.object o).links)
  pub back_nodup : (slot : Slot) (t : ℕ) → IsNodup (s.back slot t)
  pub at_most_one : (slot : Slot) (t : ℕ) → is_single slot ≡ true → length (s.back slot t) ≤ 1
  pub actions_nodup : IsNodup s.actions
  pub once : (o : ℕ) → AreOnce (s.object o).links
  pub known : (o : ℕ) → mem o s.actions ≡ true → o < s.next
  -- what an object refers to was there before it
  pub older :
      (o : ℕ) (slot : Slot) (t : ℕ)
      → mem o s.actions ≡ true
      → has_link slot t (s.object o).links ≡ true
      → t < o

-- The references are to objects that are there.
abbrev pub AreKnown : List Link → Store → Type 0
AreKnown ls s = (slot : Slot) (t : ℕ) → has_link slot t ls ≡ true → t < s.next

module _ (s : Store) (h : Linked s) where
  unknown : mem s.next s.actions ≡ false
  unknown = elim (Bool-cases (mem s.next s.actions)) [
    | inl listed ↦ absurd (omega (arith, h.known s.next listed))
    | inr absent ↦ absent
  ]

  not_linked : (slot : Slot) (t : ℕ) → mem s.next (s.back slot t) ≡ false
  not_linked slot t = h.back_of slot t s.next ∙ rw unknown refl

  -- The store behind `add_object`.
  module _ (obj : Object) (once : AreOnce obj.links) (free : AreFree obj.links s)
      (seen : AreKnown obj.links s) where
    abbrev pub added : Store
    added =
        let linked = link_all s.next obj.links (set_object s s.next obj) in
        record linked { actions = linked.actions ++ s.next ∷ []; next = suc s.next }

    pub added-back :
        (slot : Slot) (t : ℕ)
        → added.back slot t
          ≡ (if has_link slot t obj.links then s.back slot t ++ s.next ∷ [] else s.back slot t)
    added-back slot t = link_all-back s.next obj.links (set_object s s.next obj) slot t once free

    pub added-actions : added.actions ≡ s.actions ++ s.next ∷ []
    added-actions =
        ap (λ (xs : List ℕ). xs ++ s.next ∷ [])
          (link_all-actions s.next obj.links (set_object s s.next obj))

    pub added-object : (o : ℕ) → added.object o ≡ (if o == s.next then obj else s.object o)
    added-object o =
        ap (λ (f : ℕ → Object). f o) (link_all-object s.next obj.links (set_object s s.next obj))

    added_back_of :
        (slot : Slot) (t o : ℕ)
        → mem o (added.back slot t)
          ≡ (mem o added.actions && has_link slot t (added.object o).links)
    added_back_of slot t o =
        rw (added-back slot t, added-actions, added-object o, mem-snoc o s.next s.actions)
          (elim (Bool-cases (has_link slot t obj.links)) [
            | inl refers ↦
                rw (refers, mem-snoc o s.next (s.back slot t))
                  (elim (Bool-cases (o == s.next)) [
                    | inl new ↦
                        let e : o ≡ s.next = (==_iff o s.next).0 new in
                        rw new (rw refers (ground arith))
                    | inr old ↦ rw old (ground (arith, h.back_of slot t o))
                  ])
            | inr apart ↦ rw apart (elim (Bool-cases (o == s.next)) [
              | inl new ↦
                  let e : o ≡ s.next = (==_iff o s.next).0 new in
                  let gone : mem o (s.back slot t) ≡ false = rw e (not_linked slot t) in
                  rw (new, gone, apart) (ground arith)
              | inr old ↦ rw old (ground (arith, h.back_of slot t o))
            ])
          ])

    pub added-Linked : Linked added
    added-Linked = record {
      back_of = added_back_of;
      back_nodup = λ slot t. rw (added-back slot t) (elim (Bool-cases (has_link slot t obj.links)) [
        | inl refers ↦
            rw refers
              (IsNodup-snoc (s.back slot t) s.next (h.back_nodup slot t) (not_linked slot t))
        | inr apart ↦ rw apart (h.back_nodup slot t)
      ]);
      at_most_one = λ slot t one.
          rw (added-back slot t) (elim (Bool-cases (has_link slot t obj.links)) [
            | inl refers ↦ rw (refers, free slot t refers one) (omega arith)
            | inr apart ↦ rw apart (h.at_most_one slot t one)
          ]);
      actions_nodup = rw added-actions (IsNodup-snoc s.actions s.next h.actions_nodup unknown);
      once = λ o.
          rw (added-object o) (elim (Bool-cases (o == s.next)) [
            | inl new ↦ rw new once
            | inr old ↦ rw old (h.once o)
          ]);
      known = λ o k.
          let listed : mem o (s.actions ++ s.next ∷ []) ≡ true = rw added-actions at k in
          ground (arith, mem-snoc o s.next s.actions, h.known o);
      older = λ o slot t k.
          let listed : mem o (s.actions ++ s.next ∷ []) ≡ true = rw added-actions at k in
          rw (added-object o) (elim (Bool-cases (o == s.next)) [
            | inl new ↦
                let e : o ≡ s.next = (==_iff o s.next).0 new in rw new (λ l. rw e (seen slot t l))
            | inr old ↦ rw old (h.older o slot t (ground (arith, mem-snoc o s.next s.actions)))
          ]);
    }

  -- The objects that `o` refers to know it.
  pub known_back : (o : ℕ) → mem o s.actions ≡ true → AreSet o (s.object o).links s
  known_back o listed slot t refers =
      (h.back_of slot t o ∙ rw (listed, refers) refl, h.at_most_one slot t)

-- A field of the store behind `remove_object`.
pub removed_field :
    (s s' : Store) (o : ℕ) (slot : Slot) (t : ℕ)
    → Linked s
    → Unlinks o (s.object o).links s s'
    → (IsNodup (s'.back slot t) × (length (s'.back slot t) ≤ length (s.back slot t)))
      × ((q : ℕ) → mem q (s'.back slot t) ≡ (mem q (s.back slot t) && not (q == o)))
removed_field s s' o slot t h u =
    rw (u.fields slot t) (elim (Bool-cases (has_link slot t (s.object o).links)) [
      | inl refers ↦ rw refers (
        (
          remove_id-IsNodup o (s.back slot t) (h.back_nodup slot t),
          length-remove_id-le o (s.back slot t),
        ),
        λ q. mem-remove_id q o (s.back slot t) (h.back_nodup slot t),
      )
      | inr apart ↦ rw apart (
        (h.back_nodup slot t, omega arith),
        λ q. elim (Bool-cases (q == o)) [
          | inl same ↦
              let e : q ≡ o = (==_iff q o).0 same in
              let gone : mem o (s.back slot t) ≡ false =
                h.back_of slot t o ∙ rw apart (ground arith) in
              rw (e, ==-refl o, gone) refl
          | inr other ↦ rw other (ground arith)
        ],
      )
    ])

pub removed-Linked :
    (s s' : Store) (o : ℕ)
    → Linked s
    → Unlinks o (s.object o).links s s'
    → Linked (record s' { actions = remove_id o s'.actions })
removed-Linked s s' o h u = record {
  back_of = λ slot t q.
      (removed_field s s' o slot t h u).1 q
      ∙ rw (u.same_actions, u.same_objects, mem-remove_id q o s.actions h.actions_nodup)
          (ground (arith, h.back_of slot t q));
  back_nodup = λ slot t. (removed_field s s' o slot t h u).0.0;
  at_most_one =
      λ slot t one. omega (arith, (removed_field s s' o slot t h u).0.1, h.at_most_one slot t one);
  actions_nodup = rw u.same_actions (remove_id-IsNodup o s.actions h.actions_nodup);
  once = λ q. rw u.same_objects (h.once q);
  known = λ q k.
      let listed : mem q (remove_id o s.actions) ≡ true = rw u.same_actions at k in
      rw u.same_next (ground (arith, h.known q, mem-remove_id q o s.actions h.actions_nodup));
  older = λ q slot t k.
      let listed : mem q (remove_id o s.actions) ≡ true = rw u.same_actions at k in
      rw u.same_objects
        (h.older q slot t (ground (arith, mem-remove_id q o s.actions h.actions_nodup)));
}
