-- ===== src/Render/Pass.antt =====
-- One round of the loop: what is written out, and what is left for the next one.
use subiquity.Base.{
  ℕ, ◌≡◌, refl, inl, inr, true, false, ◌||◌, List, [], ◌∷◌, ◌++◌, ◌==◌, arith, ==_iff, ==-refl,
  Bool-cases, ◌⊎◌,
}
use subiquity.Render.Ids.{mem, mem-snoc, Within, Disjoint, IsNodup, IsNodup-snoc}
use subiquity.Render.{Objects, can_emit, run_round}
use subiquity.Render.Emit.{Grows, IsClosed, can_emit-Grows}

-- In the middle of a round: `rest` is the part of `work` that is still to come.
pub record IsRound (work univ r next rest : List ℕ) : Type 0 where
  pub next_fresh : Disjoint next r
  pub next_past : Disjoint next rest
  pub rest_nodup : IsNodup rest
  pub rest_fresh : Disjoint rest r
  pub next_nodup : IsNodup next
  pub rest_of : Within rest work
  pub next_known : Within next univ
  pub work_known : Within work univ
  pub r_nodup : IsNodup r

module _ (m : Objects) (work univ : List ℕ) (closed : IsClosed m univ) where
  abbrev Round : List ℕ → List ℕ → List ℕ → Type 0
  Round = IsRound work univ

  -- `can_emit` leaves a round as it should be.
  grown :
      (r next next' rest : List ℕ)
      → Grows r work univ next next'
      → Round r next rest
      → Round r next' rest
  grown r next next' rest g h = record {
    next_fresh = λ x k. elim (Bool-cases (mem x next)) [
      | inl old ↦ h.next_fresh x old
      | inr new ↦ (g.gains x k new).0
    ];
    next_past = λ x k. elim (Bool-cases (mem x next)) [
      | inl old ↦ h.next_past x old
      | inr new ↦ ground (arith, g.gains x k new, h.rest_of x)
    ];
    rest_nodup = h.rest_nodup;
    rest_fresh = h.rest_fresh;
    next_nodup = g.nodup h.next_nodup;
    rest_of = h.rest_of;
    next_known = λ x k. elim (Bool-cases (mem x next)) [
      | inl old ↦ h.next_known x old
      | inr new ↦ (g.gains x k new).2
    ];
    work_known = h.work_known;
    r_nodup = h.r_nodup;
  }

  module _ (x : ℕ) (rest r next : List ℕ) (h : Round r next (x ∷ rest)) where
    emitted : Round (r ++ x ∷ []) next rest
    unfolding mem
    emitted = record {
      next_fresh = λ y k. ground (arith, mem-snoc y x r, h.next_fresh y k, h.next_past y k);
      next_past = λ y k. ground (arith, h.next_past y k);
      rest_nodup = h.rest_nodup.1;
      rest_fresh = λ y k. elim (Bool-cases (y == x)) [
        | inl same ↦
            let e : y ≡ x = (==_iff y x).0 same in
            let again : mem x rest ≡ true = rw e at k in cc (h.rest_nodup.0)
        | inr other ↦ ground (arith, mem-snoc y x r, h.rest_fresh y)
      ];
      next_nodup = h.next_nodup;
      rest_of = λ y k. h.rest_of y (ground (arith));
      next_known = h.next_known;
      work_known = h.work_known;
      r_nodup = IsNodup-snoc r x h.r_nodup (h.rest_fresh x (rw (==-refl x) refl));
    }

    not_yet : (mem x next ≡ true) ⊎ (mem x next ≡ false) → mem x next ≡ false
    unfolding mem
    not_yet (inr absent) = absent
    not_yet (inl there) = cc (rw (==-refl x) at (h.next_past x there))

    postponed : Round r (next ++ x ∷ []) rest
    unfolding mem
    postponed = record {
      next_fresh = λ y k. elim (Bool-cases (y == x)) [
        | inl same ↦ rw ((==_iff y x).0 same) (h.rest_fresh x (rw (==-refl x) refl))
        | inr other ↦ h.next_fresh y (ground (arith, mem-snoc y x next))
      ];
      next_past = λ y k. elim (Bool-cases (y == x)) [
        | inl same ↦ rw ((==_iff y x).0 same) h.rest_nodup.0
        | inr other ↦ ground (arith, h.next_past y, mem-snoc y x next)
      ];
      rest_nodup = h.rest_nodup.1;
      rest_fresh = λ y k. h.rest_fresh y (ground arith);
      next_nodup = IsNodup-snoc next x h.next_nodup (not_yet (Bool-cases (mem x next)));
      rest_of = λ y k. h.rest_of y (ground arith);
      next_known = λ y k. elim (Bool-cases (y == x)) [
        | inl same ↦ rw ((==_iff y x).0 same) (h.work_known x (h.rest_of x (rw (==-refl x) refl)))
        | inr other ↦ h.next_known y (ground (arith, mem-snoc y x next))
      ];
      work_known = h.work_known;
      r_nodup = h.r_nodup;
    }

module _ (m : Objects) (work univ : List ℕ) (closed : IsClosed m univ) where
  -- Every id of `rest`, and of `r` and `next` so far, is written out or left for the next round.
  pub round_keeps :
      (rest r next : List ℕ) (x : ℕ)
      → (mem x rest || mem x r || mem x next) ≡ true
      → (mem x (run_round m work r next rest).0 || mem x (run_round m work r next rest).1) ≡ true
  unfolding run_round mem
  round_keeps [] r next x h = h
  round_keeps (y ∷ rest) r next x h =
      let (ready, next') = can_emit m r work y next in
      let keep = (can_emit-Grows m r work univ closed y next).keeps x in
      elim (Bool-cases ready) [
        | inl now ↦
            rw now (round_keeps rest (r ++ y ∷ []) next' x (ground (arith, mem-snoc x y r, keep)))
        | inr later ↦
            rw later
              (round_keeps rest r (next' ++ y ∷ []) x (ground (arith, mem-snoc x y next', keep)))
      ]

  pub round_keeps_r : (rest r next : List ℕ) → Within r (run_round m work r next rest).0
  unfolding run_round
  round_keeps_r [] r next x h = h
  round_keeps_r (y ∷ rest) r next x h =
      let (ready, next') = can_emit m r work y next in
      elim (Bool-cases ready) [
        | inl now ↦
            rw now (round_keeps_r rest (r ++ y ∷ []) next' x (ground (arith, mem-snoc x y r)))
        | inr later ↦ rw later (round_keeps_r rest r (next' ++ y ∷ []) x h)
      ]

  pub run_round-IsRound :
      (rest r next : List ℕ)
      → IsRound work univ r next rest
      → IsRound work univ (run_round m work r next rest).0 (run_round m work r next rest).1 []
  unfolding run_round
  run_round-IsRound [] r next h = h
  run_round-IsRound (y ∷ rest) r next h =
      let next' = (can_emit m r work y next).1 in
      let g =
        grown m work univ closed r next next' (y ∷ rest)
          (can_emit-Grows m r work univ closed y next) h in
      elim (Bool-cases (can_emit m r work y next).0) [
        | inl ready ↦ rw ready (
            run_round-IsRound rest (r ++ y ∷ []) next'
              (emitted m work univ closed y rest r next' g))
        | inr waits ↦ rw waits (
            run_round-IsRound rest r (next' ++ y ∷ [])
              (postponed m work univ closed y rest r next' g))
      ]
