-- ===== src/Render/Emit.antt =====
-- What can_emit answers, and what it adds to the next round.
use subiquity.Base.{
  ℕ, ◌≡◌, inl, inr, true, false, not, ◌&&◌, none, some, List, [], ◌∷◌, ◌++◌, ◌==◌, arith, ==_iff,
  all, Bool-cases, Option-cases,
}
use subiquity.Render.Ids.{mem, mem-snoc, Within, IsNodup, IsNodup-snoc, all-true}
use subiquity.Render.{
  Objects, dependencies, parent_mounts, lower_partitions, ensure_all, missing, add_missing,
  add_partitions, can_emit, partitions_of, kind_of, is_disk_or_raid, is_partition,
}

-- All that has to be written out before `x` is in `emitted`.
pub record IsReady (m : Objects) (emitted : List ℕ) (x : ℕ) : Type 0 where
  pub dependencies_first : Within (dependencies m x) emitted
  pub lower_first : Within (lower_partitions m x) emitted
  pub parents_first : Within (parent_mounts m x) emitted

-- What `next_work` may become: it keeps its ids, stays without repetition, and gains only ids that
-- are not emitted, not in this round's work, and in `univ`.
pub record Grows (emitted work univ next next' : List ℕ) : Type 0 where
  pub keeps : Within next next'
  pub gains :
      (y : ℕ)
      → mem y next' ≡ true
      → mem y next ≡ false
      → (mem y emitted ≡ false) × (mem y work ≡ false) × (mem y univ ≡ true)
  pub nodup : IsNodup next → IsNodup next'

-- The ids that the model's objects name are all in `univ`.
pub record IsClosed (m : Objects) (univ : List ℕ) : Type 0 where
  pub of_actions : Within m.actions univ
  pub of_dependencies : (x : ℕ) → Within (dependencies m x) univ
  pub of_partitions : (x : ℕ) → Within (partitions_of m x) univ

module _ (emitted work univ : List ℕ) where
  abbrev GrowsTo : List ℕ → List ℕ → Type 0
  GrowsTo = Grows emitted work univ

  pub Grows-refl : (next : List ℕ) → GrowsTo next next
  Grows-refl next = record { keeps = λ x h. h; gains = λ y h k. cc; nodup = λ h. h }

  pub Grows-trans : {a b c : List ℕ} → GrowsTo a b → GrowsTo b c → GrowsTo a c
  Grows-trans {a} {b} {c} g h = record {
    keeps = λ x k. h.keeps x (g.keeps x k);
    gains = λ y k l. elim (Bool-cases (mem y b)) [
      | inl old ↦ g.gains y old l
      | inr new ↦ h.gains y k new
    ];
    nodup = λ k. h.nodup (g.nodup k);
  }

  Grows-snoc :
      (next : List ℕ) (p : ℕ)
      → mem p emitted ≡ false
      → mem p work ≡ false
      → mem p next ≡ false
      → mem p univ ≡ true
      → GrowsTo next (next ++ p ∷ [])
  Grows-snoc next p e w n u = record {
    keeps = λ x h. ground (arith, mem-snoc x p next);
    gains = λ y h k.
        let same : y ≡ p = (==_iff y p).0 (ground (arith, mem-snoc y p next)) in rw same (e, w, u);
    nodup = λ h. IsNodup-snoc next p h n;
  }

module _ (m : Objects) (emitted work univ : List ℕ) where
  pub ensure_all-Grows :
      (ps next : List ℕ)
      → Within ps univ
      → Grows emitted work univ next (ensure_all m emitted work next ps)
  unfolding ensure_all mem
  ensure_all-Grows [] next h = Grows-refl emitted work univ next
  ensure_all-Grows (p ∷ ps) next h =
      let rest : Within ps univ = λ x k. h x (ground arith) in
      elim (Bool-cases (not (mem p emitted) && not (mem p work) && not (mem p next))) [
        | inl new ↦ rw new (
            Grows-trans emitted work univ
              (Grows-snoc emitted work univ next p (ground arith) (ground arith) (ground arith)
                (h p (ground arith)))
              (ensure_all-Grows ps (next ++ p ∷ []) rest))
        | inr old ↦ rw old (ensure_all-Grows ps next rest)
      ]

  missing-none : (ds : List ℕ) → missing m emitted work ds ≡ none → Within ds emitted
  unfolding missing mem
  missing-none [] h x k = cc
  missing-none (d ∷ ds) h x k = elim (Bool-cases (mem d emitted)) [
    | inr absent ↦ cc (rw absent at h)
    | inl there ↦ elim (Bool-cases (x == d)) [
      | inl same ↦ rw ((==_iff x d).0 same) there
      | inr other ↦ missing-none ds (rw there at h) x (ground arith)
    ]
  ]

  pub missing-some :
      (ds : List ℕ) (d : ℕ)
      → missing m emitted work ds ≡ some d
      → (mem d ds ≡ true) × (mem d emitted ≡ false)
  unfolding missing mem
  missing-some [] d h = cc
  missing-some (c ∷ ds) d h = elim (Bool-cases (mem c emitted)) [
    | inr absent ↦ ground arith
    | inl there ↦ ground (arith, missing-some ds d)
  ]

  module _ (closed : IsClosed m univ) where
    pub add_partitions-Grows :
        (x : ℕ) (next : List ℕ)
        → Grows emitted work univ next (add_partitions m emitted work x next)
    unfolding add_partitions
    add_partitions-Grows x next = elim (Bool-cases (is_partition (kind_of m x))) [
      | inl part ↦
          let dev = (m.object x).device in
          rw part (ensure_all-Grows (partitions_of m dev) next (closed.of_partitions dev))
      | inr other ↦ rw other (Grows-refl emitted work univ next)
    ]

    add_missing-Grows :
        (next : List ℕ) (d : ℕ)
        → mem d emitted ≡ false
        → mem d univ ≡ true
        → Grows emitted work univ next (add_missing m emitted work next (some d))
    unfolding add_missing
    add_missing-Grows next d absent known =
        elim (Bool-cases (not (mem d work) && not (mem d next))) [
          | inr old ↦ rw old (Grows-refl emitted work univ next)
          | inl new ↦
              let one =
                Grows-snoc emitted work univ next d absent (ground arith) (ground arith) known in
              elim (Bool-cases (is_disk_or_raid (kind_of m d))) [
                | inr other ↦ rw (new, other) one
                | inl big ↦
                    rw (new, big)
                      (Grows-trans emitted work univ one (
                        ensure_all-Grows (partitions_of m d) (next ++ d ∷ [])
                          (closed.of_partitions d)))
              ]
        ]

    -- Whatever `can_emit` answers, it only adds to `next_work`.
    pub can_emit-Grows :
        (x : ℕ) (next : List ℕ) → Grows emitted work univ next (can_emit m emitted work x next).1
    unfolding can_emit
    can_emit-Grows x next =
        let first = add_partitions-Grows x next in
        elim (Bool-cases (all (λ p. mem p emitted) (lower_partitions m x))) [
          | inr waits ↦ rw waits first
          | inl lower ↦ elim (Option-cases (missing m emitted work (dependencies m x))) [
            | inl complete ↦ rw (lower, complete) first
            | inr (d, found) ↦
                let (listed, absent) = missing-some (dependencies m x) d found in
                let known = closed.of_dependencies x d listed in
                rw (lower, found)
                  (Grows-trans emitted work univ first
                    (add_missing-Grows (add_partitions m emitted work x next) d absent known))
          ]
        ]

  -- An object is written out only when all that it needs is.
  pub can_emit-IsReady :
      (x : ℕ) (next : List ℕ) → (can_emit m emitted work x next).0 ≡ true → IsReady m emitted x
  unfolding can_emit
  can_emit-IsReady x next h = elim (Bool-cases (all (λ p. mem p emitted) (lower_partitions m x))) [
    | inr waits ↦ cc (rw waits at h)
    | inl lower ↦ elim (Option-cases (missing m emitted work (dependencies m x))) [
      | inr (d, found) ↦ cc (rw (lower, found) at h)
      | inl complete ↦ record {
        dependencies_first = missing-none (dependencies m x) complete;
        lower_first = all-true (λ p. mem p emitted) (lower_partitions m x) lower;
        parents_first =
            all-true (λ p. mem p emitted) (parent_mounts m x) (rw (lower, complete) at h);
      }
    ]
  ]
