-- ===== src/Gaps/Order.antt =====
-- find_disk_gaps_v2 puts gaps between the partitions and nowhere else.
use mathlib.Core.List.{append_assoc}
use subiquity.Base.{
  ℕ, ◌+◌, ◌%◌, ◌≤◌, ◌<◌, ◌≡◌, refl, inl, inr, Bool, true, false, Option, none, some, List, ◌∷◌,
  ◌++◌, arith, Bool-cases,
}
use subiquity.Base.Ints.{ℤ, pos, negsuc}
use subiquity.Storage.{PTable, Partition, is_logical, PartitionAlignmentData}
use subiquity.Gaps.{
  PartOrGap, part, au, ad, Cursor, maybe_add_gap, start_of, reaches, gaps_before, cursor_after,
  gap_end_at,
}
use subiquity.Gaps.Walk.{
  IsLaidOut, Follows, open_after, next_start, ad-le, le-au, ad_difference-le, ad_difference-ge,
  ad-multiple,
}

module _ (info : PartitionAlignmentData) (remaining : ℤ) (ptable : Option PTable)
    (aligned : 0 < info.part_align) where
  abbrev pub IsOrdered : Option ℕ → ℕ → List PartOrGap → Type 0
  IsOrdered = IsLaidOut info.part_align ptable

  -- A gap outside extended partitions may stand before what follows its end.
  pub outside :
      (ext : Option ℕ) (lo start : ℕ) (end : ℤ) (rest : List PartOrGap)
      → lo ≤ start
      → ((x : ℕ) → ext ≡ some x → x ≤ start)
      → IsOrdered ext lo rest
      → ((e : ℕ) → end ≡ pos e → IsOrdered none e rest)
      → IsOrdered ext lo (maybe_add_gap info remaining start end false ++ rest)
  unfolding maybe_add_gap
  outside ext lo start (negsuc n) rest h k old new = old
  outside none lo start (pos e) rest h k old new = ground (arith, new e refl)
  outside (some x) lo start (pos e) rest h k old new = ground (arith, new e refl, k x refl)

  -- So may one that ends inside the open extended partition.
  pub inside :
      (x lo start : ℕ) (end : ℤ) (rest : List PartOrGap)
      → lo ≤ start
      → ((e : ℕ) → end ≡ pos e → e ≤ x)
      → IsOrdered (some x) lo rest
      → ((e : ℕ) → end ≡ pos e → IsOrdered (some x) e rest)
      → IsOrdered (some x) lo (maybe_add_gap info remaining start end true ++ rest)
  unfolding maybe_add_gap
  inside x lo start (negsuc n) rest h k old new = old
  inside x lo start (pos e) rest h k old new = ground (arith, new e refl, k e refl)

  abbrev pub at : ℕ → Option ℕ → Cursor
  at lo ext = record { prev_end = lo; extended_end = ext }

  -- The end of the gap in front of a partition is an aligned offset at or below the partition.
  gap_end_at-le :
      (p : Partition) (e : ℕ)
      → gap_end_at info ptable p ≡ pos e
      → (e ≤ p.offset) × (e % info.part_align ≡ 0)
  unfolding gap_end_at
  gap_end_at-le p e h = elim (Bool-cases (is_logical ptable p)) [
    | inl log ↦
        let (le, whole) =
          ad_difference-le info.part_align aligned p.offset info.ebr_space e (rw log at h) in
        (omega arith, whole)
    | inr prim ↦
        let (le, whole) = ad_difference-le info.part_align aligned p.offset 0 e (rw prim at h) in
        (omega arith, whole)
  ]

  not-reaches : (z : ℤ) (x : ℕ) → ((e : ℕ) → z ≡ pos e → e < x) → reaches z x ≡ false
  not-reaches (negsuc n) x h = ground arith
  not-reaches (pos e) x h = ground (arith, h e refl)

  -- In front of a logical partition the extended one stays open; in front of a primary one that
  -- begins behind its last aligned offset it is closed.
  reaches-logical :
      (p : Partition) (x : ℕ) → p.offset < x → reaches (gap_end_at info ptable p) x ≡ false
  reaches-logical p x h =
      not-reaches (gap_end_at info ptable p) x λ e q. omega (arith, (gap_end_at-le p e q).0)

  reaches-primary :
      (p : Partition) (x : ℕ)
      → is_logical ptable p ≡ false
      → x ≤ ad info.part_align p.offset
      → reaches (gap_end_at info ptable p) x ≡ true
  unfolding gap_end_at
  reaches-primary p x prim h =
      let (e, eq, ge) =
        ad_difference-ge info.part_align aligned p.offset 0 (ad info.part_align p.offset)
          (ad-multiple info.part_align aligned p.offset)
          (omega (arith, ad-le info.part_align aligned p.offset)) in
      rw (prim, eq) (ground arith)

  pub start-le : (lo : ℕ) → lo ≤ start_of info (at lo none)
  unfolding start_of
  start-le lo = le-au info.part_align aligned lo

  -- In an open extended partition a gap starts behind `lo`, as long as that lies in it.
  pub start_inside-le : (lo x : ℕ) → lo ≤ x → lo ≤ start_of info (at lo (some x))
  unfolding start_of
  start_inside-le lo x h =
      let start = au info.part_align lo in
      omega (
        arith,
        le-au info.part_align aligned lo,
        le-au info.part_align aligned (start + info.ebr_space),
      )

  module _ (p : Partition) (rest : List PartOrGap) where
    abbrev pub found : Option ℕ → ℕ → List PartOrGap × Option ℕ
    found ext lo = gaps_before info remaining (at lo ext) (gap_end_at info ptable p)

    abbrev pub Fits : Option ℕ → Bool → Type 0
    Fits ext log = Follows info.part_align ptable ext p log

    abbrev pub Rests : Option ℕ → Type 0
    Rests ext =
        IsOrdered (open_after info.part_align ptable ext p) (next_start info.part_align ptable p)
          rest

    step-logical :
        (x lo : ℕ)
        → is_logical ptable p ≡ true
        → lo ≤ x
        → lo ≤ p.offset
        → Fits (some x) true
        → Rests (some x)
        → IsOrdered (some x) lo ((found (some x) lo).0 ++ part p ∷ rest)
    unfolding gaps_before
    step-logical x lo log i h f t =
        let f' : Fits (some x) (is_logical ptable p) = rw log f in
        rw (reaches-logical p x f.0) (
          inside x lo (start_of info (at lo (some x))) (gap_end_at info ptable p) (part p ∷ rest)
            (start_inside-le lo x i) (λ e q. omega (arith, (gap_end_at-le p e q).0)) (h, f', t)
            (λ e q. ((gap_end_at-le p e q).0, f', t)))

    step-primary :
        (x lo : ℕ)
        → is_logical ptable p ≡ false
        → lo ≤ x
        → lo ≤ p.offset
        → Fits (some x) false
        → Rests (some x)
        → IsOrdered (some x) lo ((found (some x) lo).0 ++ part p ∷ rest)
    unfolding gaps_before
    step-primary x lo prim i h f t =
        let a = info.part_align in
        let f' : Fits (some x) (is_logical ptable p) = rw prim f in
        let g' : Fits none (is_logical ptable p) = rw prim tt in
        let t' : Rests none = rw prim (rw prim at t) in
        let past = le-au a aligned x in
        let end = gap_end_at info ptable p in
        let tail = part p ∷ rest in
        let between : (e : ℕ) → end ≡ pos e → IsOrdered none e tail =
          λ e q. ((gap_end_at-le p e q).0, g', t') in
        let at_most : (e : ℕ) → pos (ad a x) ≡ pos e → e ≤ x =
          λ e q. ground (arith, ad-le a aligned x) in
        let within : (y : ℕ) → some x ≡ some y → y ≤ au a x = λ y e. ground arith in
        rw (reaches-primary p x prim f, append_assoc)
          (inside x lo (start_of info (at lo (some x))) (pos (ad a x))
            (maybe_add_gap info remaining (au a x) end false ++ tail) (start_inside-le lo x i)
            (λ e q. at_most e q)
            (outside (some x) lo (au a x) end tail (omega arith) within (h, f', t) between)
            (λ e q.
              outside (some x) e (au a x) end tail (omega (arith, at_most e q)) within
                (omega (arith, at_most e q, ad-le a aligned p.offset), f', t) between))

    -- What stands in front of a partition, with the partition and what follows it.
    pub step :
        (ext : Option ℕ) (lo : ℕ)
        → ((x : ℕ) → ext ≡ some x → lo ≤ x)
        → lo ≤ p.offset
        → Fits ext (is_logical ptable p)
        → Rests ext
        → IsOrdered ext lo ((found ext lo).0 ++ part p ∷ rest)
    unfolding gaps_before
    step none lo i h f t =
        outside none lo (start_of info (at lo none)) (gap_end_at info ptable p) (part p ∷ rest)
          (start-le lo) (λ x e. cc) (h, f, t) (λ e q. ((gap_end_at-le p e q).0, f, t))
    step (some x) lo i h f t = elim (Bool-cases (is_logical ptable p)) [
      | inl log ↦ step-logical x lo log (i x refl) h (rw log at f) t
      | inr prim ↦ step-primary x lo prim (i x refl) h (rw prim at f) t
    ]

    -- The cursor behind a partition agrees with what is open there.
    pub cursor_after-eq :
        (ext : Option ℕ) (lo : ℕ)
        → Fits ext (is_logical ptable p)
        → cursor_after p (found ext lo).1 ≡ record {
          prev_end = next_start info.part_align ptable p;
          extended_end = open_after info.part_align ptable ext p;
        }
    unfolding gaps_before cursor_after
    cursor_after-eq none lo f = ground arith
    cursor_after-eq (some x) lo f = elim (Bool-cases (is_logical ptable p)) [
      | inl log ↦ ground (arith, reaches-logical p x (rw log at f).0)
      | inr prim ↦ ground (arith, reaches-primary p x prim (rw prim at f))
    ]
