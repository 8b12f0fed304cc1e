-- ===== src/Render/Blocked.antt =====
-- Why can_emit holds an object back, and what a round without progress means.
use subiquity.Base.{
  ℕ, zero, suc, ◌≡◌, sym, inl, inr, Bool, true, false, not, ◌&&◌, ◌||◌, some, List, [], ◌∷◌, ◌++◌,
  ◌==◌, if◌then◌else◌, arith, ==_iff, all, filter, Bool-cases, Option-cases, ◌⊎◌, ◌<◌, subst,
}
use subiquity.Render.Ids.{mem, mem-append, mem-snoc, Within, all-true, all-false, same_ids}
use subiquity.Render.{
  Objects, dependencies, parent_mounts, lower_partitions, ensure_all, missing, add_missing,
  add_partitions, can_emit, run_round, partitions_of, kind_of, is_partition, is_disk_or_raid,
}
use subiquity.Render.Emit.{IsClosed, can_emit-Grows, ensure_all-Grows, missing-some}
use subiquity.Render.Pass.{IsRound, run_round-IsRound}

-- All that has to be written out before `x`.
abbrev pub needs : Objects → ℕ → List ℕ
needs m x = dependencies m x ++ lower_partitions m x ++ parent_mounts m x

abbrev pub Mounted : Objects → List ℕ → List ℕ → Type 0
Mounted m emitted work =
    (x q : ℕ) → mem q (parent_mounts m x) ≡ true → (mem q emitted || mem q work) ≡ true

module _ (m : Objects) (emitted work : List ℕ) where
  ensure_all_complete :
      (ps next : List ℕ) (p : ℕ)
      → mem p ps ≡ true
      → (mem p emitted || mem p work || mem p (ensure_all m emitted work next ps)) ≡ true
  unfolding ensure_all mem
  ensure_all_complete [] next p h = cc
  ensure_all_complete (q ∷ ps) next p h =
      let next' =
        if not (mem q emitted) && not (mem q work) && not (mem q next)
        then next ++ q ∷ []
        else next in
      elim (Bool-cases (p == q)) [
        | inr other ↦ ensure_all_complete ps next' p (ground arith)
        | inl same ↦
            let e : p ≡ q = (==_iff p q).0 same in
            let kept = (ensure_all-Grows m emitted work ps ps next' (λ x k. k)).keeps q in
            rw e (ground (arith, kept, mem-snoc q q next))
      ]

  filter-mem : (t : ℕ → Bool) (xs : List ℕ) → Within (filter t xs) xs
  unfolding mem
  filter-mem t [] x h = h
  filter-mem t (y ∷ ys) x h = elim (Bool-cases (t y)) [
    | inl keeps ↦ ground (arith, filter-mem t ys x)
    | inr drops ↦ ground (arith, filter-mem t ys x)
  ]

  lower-listed :
      (x : ℕ) (next : List ℕ) (p : ℕ)
      → mem p (lower_partitions m x) ≡ true
      → (mem p emitted || mem p work || mem p (add_partitions m emitted work x next)) ≡ true
  unfolding lower_partitions add_partitions mem
  lower-listed x next p h = elim (Bool-cases (is_partition (kind_of m x))) [
    | inr other ↦ cc (rw other at h)
    | inl part ↦
        let all_parts = partitions_of m (m.object x).device in
        rw part (ensure_all_complete all_parts next p (filter-mem _ all_parts p (rw part at h)))
  ]

  add_missing-listed :
      (next : List ℕ) (d : ℕ)
      → (mem d work || mem d (add_missing m emitted work next (some d))) ≡ true
  unfolding add_missing
  add_missing-listed next d = elim (Bool-cases (not (mem d work) && not (mem d next))) [
    | inr old ↦ rw old (ground arith)
    | inl new ↦ elim (Bool-cases (is_disk_or_raid (kind_of m d))) [
      | inr other ↦ rw (new, other) (ground (arith, mem-snoc d d next))
      | inl big ↦
          let ps = partitions_of m d in
          let kept = (ensure_all-Grows m emitted work ps ps (next ++ d ∷ []) (λ x k. k)).keeps d in
          rw (new, big) (ground (arith, kept, mem-snoc d d next))
    ]
  ]

-- `x` waits for an object that is in this round or the next one.
abbrev pub Waits : Objects → List ℕ → List ℕ → ℕ → Type 0
Waits m work next x = (y : ℕ) × (mem y (needs m x) ≡ true) × ((mem y work || mem y next) ≡ true)

Waits-mono :
    (m : Objects) (work next next' : List ℕ) (x : ℕ)
    → Within next next'
    → Waits m work next x
    → Waits m work next' x
Waits-mono m work next next' x h (y, need, there) = (y, need, ground (arith, h y))

needs-mem :
    (m : Objects) (x y : ℕ)
    → (mem y (dependencies m x) || mem y (lower_partitions m x) || mem y (parent_mounts m x)) ≡ true
    → mem y (needs m x) ≡ true
needs-mem m x y h = ground (
  arith,
  mem-append y (dependencies m x ++ lower_partitions m x) (parent_mounts m x),
  mem-append y (dependencies m x) (lower_partitions m x),
)

-- An object that is held back waits for one that is in work.
can_emit-Waits :
    (m : Objects) (emitted work next : List ℕ) (x : ℕ)
    → Mounted m emitted work
    → (can_emit m emitted work x next).0 ≡ false
    → Waits m work (can_emit m emitted work x next).1 x
unfolding can_emit
can_emit-Waits m emitted work next x mounted held =
    let next' = add_partitions m emitted work x next in
    elim (Bool-cases (all (λ p. mem p emitted) (lower_partitions m x))) [
      | inr waits ↦
          let (y, low, absent) = all-false (λ p. mem p emitted) (lower_partitions m x) waits in
          rw waits (
            y,
            needs-mem m x y (ground arith),
            ground (arith, lower-listed m emitted work x next y low),
          )
      | inl lower ↦ elim (Option-cases (missing m emitted work (dependencies m x))) [
        | inr (d, found) ↦
            let (listed, absent) = missing-some m emitted work [] (dependencies m x) d found in
            rw (lower, found)
              (d, needs-mem m x d (ground arith), add_missing-listed m emitted work next' d)
        | inl complete ↦
            let some_parent = rw (lower, complete) at held in
            let (y, above, absent) =
              all-false (λ p. mem p emitted) (parent_mounts m x) some_parent in
            rw (lower, complete)
              (y, needs-mem m x y (ground arith), ground (arith, mounted x y above))
      ]
    ]

module _ (m : Objects) (work univ : List ℕ) (closed : IsClosed m univ) where
  round_keeps_next : (rest r next : List ℕ) → Within next (run_round m work r next rest).1
  unfolding run_round
  round_keeps_next [] r next x h = h
  round_keeps_next (y ∷ rest) r next x h =
      let (ready, next') = can_emit m r work y next in
      let keep = (can_emit-Grows m r work univ closed y next).keeps x h in
      elim (Bool-cases ready) [
        | inl now ↦ rw now (round_keeps_next rest (r ++ y ∷ []) next' x keep)
        | inr later ↦
            rw later
              (round_keeps_next rest r (next' ++ y ∷ []) x (ground (arith, mem-snoc x y next')))
      ]

  round_keeps_written : (rest r next : List ℕ) → Within r (run_round m work r next rest).0
  unfolding run_round
  round_keeps_written [] r next x h = h
  round_keeps_written (y ∷ rest) r next x h =
      let (ready, next') = can_emit m r work y next in
      elim (Bool-cases ready) [
        | inl now ↦
            rw now (round_keeps_written rest (r ++ y ∷ []) next' x (ground (arith, mem-snoc x y r)))
        | inr later ↦ rw later (round_keeps_written rest r (next' ++ y ∷ []) x h)
      ]

  -- Each object of a round is written out or waits.
  round-Waits :
      (rest r next : List ℕ)
      → Mounted m r work
      → (x : ℕ) → mem x rest ≡ true
      → let (r', next') = run_round m work r next rest in (mem x r' ≡ true) ⊎ Waits m work next' x
  unfolding run_round mem
  round-Waits [] r next mounted x h = cc
  round-Waits (y ∷ rest) r next mounted x h =
      let next' = (can_emit m r work y next).1 in
      elim (Bool-cases (can_emit m r work y next).0) [
        | inl now ↦ rw now (elim (Bool-cases (x == y)) [
          | inl same ↦
              let e : x ≡ y = (==_iff x y).0 same in
              inl (
                round_keeps_written rest (r ++ y ∷ []) next' x
                  (rw e (ground (arith, mem-snoc y y r))))
          | inr other ↦
              round-Waits rest (r ++ y ∷ []) next'
                (λ z q k. ground (arith, mounted z q k, mem-snoc q y r)) x (ground arith)
        ])
        | inr later ↦ rw later (elim (Bool-cases (x == y)) [
          | inl same ↦
              let e : x ≡ y = (==_iff x y).0 same in
              let grow : Within next' (next' ++ y ∷ []) =
                λ z k. ground (arith, mem-snoc z y next') in
              inr (
                Waits-mono m work _ _ x (round_keeps_next rest r (next' ++ y ∷ [])) (
                  Waits-mono m work next' (next' ++ y ∷ []) x grow (
                    subst (Waits m work next') (sym e)
                      (can_emit-Waits m r work next y mounted later))))
          | inr other ↦ round-Waits rest r (next' ++ y ∷ []) mounted x (ground arith)
        ])
      ]

  -- Where a round leaves exactly its own work, each object of it waits for another one of it.
  stuck-Waits :
      (r : List ℕ)
      → IsRound work univ r [] work
      → Mounted m r work
      → same_ids (run_round m work r [] work).1 work ≡ true
      → (x : ℕ) → mem x work ≡ true
      → (y : ℕ) × (mem y (needs m x) ≡ true) × (mem y work ≡ true)
  unfolding same_ids
  stuck-Waits r h mounted same x k =
      let (r', next) = run_round m work r [] work in
      let back : Within next work = all-true (λ z. mem z work) next (ground arith) in
      let left = all-true (λ z. mem z next) work (ground arith) x k in
      let fresh = (run_round-IsRound m work univ closed work r [] h).next_fresh x left in
      elim (round-Waits work r [] mounted x k) [
        | inl written ↦ cc (fresh)
        | inr (y, need, there) ↦ (y, need, ground (arith, back y))
      ]

  -- Nothing can wait like that where what an object needs always has a lower rank.
  pub not-stuck :
      (rank : ℕ → ℕ)
      → ((x y : ℕ) → mem y (needs m x) ≡ true → rank y < rank x)
      → (r : List ℕ) → IsRound work univ r [] work
      → Mounted m r work
      → same_ids (run_round m work r [] work).1 work ≡ true
      → (bound x : ℕ) → rank x < bound
      → mem x work ≡ true
      → ⊥
  not-stuck rank falls r h mounted same zero x lt k = omega arith
  not-stuck rank falls r h mounted same (suc bound) x lt k =
      let (y, need, there) = stuck-Waits r h mounted same x k in
      not-stuck rank falls r h mounted same bound y (omega (arith, falls x y need)) there
