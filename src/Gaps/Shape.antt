-- ===== src/Gaps/Shape.antt =====
-- What each gap of find_disk_gaps_v2 is like, and which partitions are listed.
use mathlib.Core.List.{append-nil, append_assoc}
use subiquity.Base.{
  ℕ, ◌+◌, ◌-◌, ◌%◌, ◌≤◌, ◌<◌, ◌≡◌, refl, ap, sym, ◌∙◌, ◌⊎◌, inl, inr, Bool, true, false, Option,
  none, some, List, [], ◌∷◌, ◌++◌, arith, leb, ◌||◌, if◌then◌else◌, All, All-append, Bool-cases,
}
use subiquity.Base.Ints.{ℤ, pos, negsuc, leb_ℤ}
use subiquity.Storage.{PTable, Partition, is_logical, PartitionAlignmentData, Device}
use subiquity.Gaps.{
  PartOrGap, part, gap, Gap, usable, too_many_primary_parts, au, ad, ad_difference, Cursor,
  maybe_add_gap, start_of, gaps_before, reaches, cursor_after, gap_end_at, walk, find_disk_gaps_v2,
  partitions_by_offset, remaining_primary_partitions,
}
use subiquity.Gaps.Walk.{below, au-multiple, ad_difference-le, ad-multiple, ad-le}

-- A gap begins and ends at aligned offsets, is large enough, and may be used unless it would hold
-- one primary partition too many.
pub record IsGap (info : PartitionAlignmentData) (remaining : ℤ) (g : Gap) : Type 0 where
  pub start_aligned : g.offset % info.part_align ≡ 0
  pub end_aligned : (g.offset + g.size) % info.part_align ≡ 0
  pub large : info.min_gap_size ≤ g.size
  pub use_of :
      g.usable
      ≡ (if g.in_extended || leb_ℤ (pos 1) remaining then usable else too_many_primary_parts)

abbrev pub GapIs : PartitionAlignmentData → ℤ → PartOrGap → Type 0
GapIs info remaining (part p) = Unit
GapIs info remaining (gap g) = IsGap info remaining g

module _ (info : PartitionAlignmentData) (remaining : ℤ) (ptable : Option PTable)
    (aligned : 0 < info.part_align) (positive : 0 < info.min_gap_size) where
  abbrev AllGaps : List PartOrGap → Type 0
  AllGaps = All (GapIs info remaining)

  -- A gap may start at no aligned offset only where it would end at or before its start.
  made :
      (start : ℕ) (end : ℤ) (inside : Bool)
      → (start % info.part_align ≡ 0) ⊎ ((e : ℕ) → end ≡ pos e → e ≤ start)
      → ((e : ℕ) → end ≡ pos e → e % info.part_align ≡ 0)
      → AllGaps (maybe_add_gap info remaining start end inside)
  unfolding maybe_add_gap
  made start (negsuc n) inside s h = tt
  made start (pos e) inside (inr short) h = ground (arith, short e refl)
  made start (pos e) inside (inl whole) h = elim (Bool-cases (leb (start + info.min_gap_size) e)) [
    | inr small ↦ rw small tt
    | inl fits ↦
        let le : start + info.min_gap_size ≤ e = ground arith in
        let sum : start + (e - start) ≡ e = omega arith in
        rw fits (
          record {
            start_aligned = whole;
            end_aligned = rw sum (h e refl);
            large = omega arith;
            use_of = refl;
          },
          tt,
        )
  ]

  start_cases :
      (lo x : ℕ)
      → let start = start_of info (record { prev_end = lo; extended_end = some x }) in
        (start % info.part_align ≡ 0) ⊎ (start ≡ x)
  unfolding start_of
  start_cases lo x =
      let a = info.part_align in ground (arith, au-multiple a aligned (au a lo + info.ebr_space))

  short_end :
      (lo x : ℕ) (z : ℤ)
      → ((e : ℕ) → z ≡ pos e → e ≤ x)
      → let start = start_of info (record { prev_end = lo; extended_end = some x }) in
        (start % info.part_align ≡ 0) ⊎ ((e : ℕ) → z ≡ pos e → e ≤ start)
  short_end lo x z h = elim (start_cases lo x) [
    | inl whole ↦ inl whole
    | inr eq ↦ inr (λ e q. rw eq (h e q))
  ]

  gaps_before-AllGaps :
      (lo : ℕ) (ext : Option ℕ) (z : ℤ)
      → ((e : ℕ) → z ≡ pos e → e % info.part_align ≡ 0)
      → AllGaps (gaps_before info remaining (record { prev_end = lo; extended_end = ext }) z).0
  unfolding gaps_before
  gaps_before-AllGaps lo none z h =
      let a = info.part_align in
      made _ z false (inl (unfold start_of in au-multiple a aligned lo)) h
  gaps_before-AllGaps lo (some x) z h =
      let a = info.part_align in
      let c : Cursor = record { prev_end = lo; extended_end = some x } in
      elim (Bool-cases (reaches z x)) [
        | inr stays ↦
            rw stays (made (start_of info c) z true (short_end lo x z (below z x stays)) h)
        | inl closed ↦
            let whole : (e : ℕ) → pos (ad a x) ≡ pos e → e % a ≡ 0 =
              λ e q. ground (arith, ad-multiple a aligned x) in
            rw closed (
              All-append (GapIs info remaining)
                (maybe_add_gap info remaining (start_of info c) (pos (ad a x)) true)
                (maybe_add_gap info remaining (au a x) z false)
                (made (start_of info c) (pos (ad a x)) true
                  (short_end lo x (pos (ad a x)) (λ e q. ground (arith, ad-le a aligned x))) whole)
                (made (au a x) z false (inl (au-multiple a aligned x)) h))
      ]

  gap_end_at-aligned :
      (p : Partition) (e : ℕ) → gap_end_at info ptable p ≡ pos e → e % info.part_align ≡ 0
  unfolding gap_end_at
  gap_end_at-aligned p e h =
      let a = info.part_align in
      elim (Bool-cases (is_logical ptable p)) [
        | inl log ↦ (ad_difference-le a aligned p.offset info.ebr_space e (rw log at h)).1
        | inr prim ↦ (ad_difference-le a aligned p.offset 0 e (rw prim at h)).1
      ]

  walk-AllGaps :
      (size : ℕ) (ps : List Partition) (c : Cursor) → AllGaps (walk info remaining ptable size c ps)
  unfolding walk
  walk-AllGaps size [] c =
      gaps_before-AllGaps c.prev_end c.extended_end
        (ad_difference info.part_align size info.min_end_offset)
        (λ e q. (ad_difference-le info.part_align aligned size info.min_end_offset e q).1)
  walk-AllGaps size (p ∷ ps) c =
      let z = gap_end_at info ptable p in
      All-append (GapIs info remaining) (gaps_before info remaining c z).0 _
        (gaps_before-AllGaps c.prev_end c.extended_end z (gap_end_at-aligned p))
        (tt, walk-AllGaps size ps (cursor_after p (gaps_before info remaining c z).1))

-- The partitions of a list, in its order.
abbrev pub only_parts : List PartOrGap → List Partition
only_parts [] = []
only_parts (part p ∷ rest) = p ∷ only_parts rest
only_parts (gap g ∷ rest) = only_parts rest

module _ (info : PartitionAlignmentData) (remaining : ℤ) where
  only_parts-maybe_add_gap :
      (start : ℕ) (end : ℤ) (inside : Bool) (rest : List PartOrGap)
      → only_parts (maybe_add_gap info remaining start end inside ++ rest) ≡ only_parts rest
  unfolding maybe_add_gap
  only_parts-maybe_add_gap start (negsuc n) inside rest = refl
  only_parts-maybe_add_gap start (pos e) inside rest = ground arith

  only_parts-gaps_before :
      (lo : ℕ) (ext : Option ℕ) (z : ℤ) (rest : List PartOrGap)
      → only_parts
          ((gaps_before info remaining (record { prev_end = lo; extended_end = ext }) z).0 ++ rest)
        ≡ only_parts rest
  unfolding gaps_before
  only_parts-gaps_before lo none z rest = only_parts-maybe_add_gap _ z false rest
  only_parts-gaps_before lo (some x) z rest = elim (Bool-cases (reaches z x)) [
    | inr stays ↦ rw stays (only_parts-maybe_add_gap _ z true rest)
    | inl closed ↦
        rw (closed, append_assoc)
          (only_parts-maybe_add_gap _ _ true
              (maybe_add_gap info remaining (au info.part_align x) z false ++ rest)
            ∙ only_parts-maybe_add_gap _ z false rest)
  ]

  only_parts-walk :
      (ptable : Option PTable) (size : ℕ) (ps : List Partition) (c : Cursor)
      → only_parts (walk info remaining ptable size c ps) ≡ ps
  unfolding walk
  only_parts-walk ptable size [] c =
      let z = ad_difference info.part_align size info.min_end_offset in
      ap only_parts (sym (append-nil (gaps_before info remaining c z).0))
      ∙ only_parts-gaps_before c.prev_end c.extended_end z []
  only_parts-walk ptable size (p ∷ ps) c =
      let z = gap_end_at info ptable p in
      only_parts-gaps_before c.prev_end c.extended_end z _
      ∙ ap (λ (t : List Partition). p ∷ t)
          (only_parts-walk ptable size ps (cursor_after p (gaps_before info remaining c z).1))

-- The list holds the partitions of the device, by offset, and between them only gaps that begin and
-- end at aligned offsets, have the smallest size at least, and are marked unusable exactly where
-- they lie outside the extended partition and the table has no room for one more primary partition.
pub find_disk_gaps_v2-shape :
    (d : Device) (info : PartitionAlignmentData)
    → 0 < info.part_align
    → 0 < info.min_gap_size
    → All (GapIs info (remaining_primary_partitions d info)) (find_disk_gaps_v2 d info)
      × (only_parts (find_disk_gaps_v2 d info) ≡ partitions_by_offset d)
unfolding find_disk_gaps_v2
find_disk_gaps_v2-shape d info aligned positive =
    let remaining = remaining_primary_partitions d info in
    (
      walk-AllGaps info remaining d.ptable aligned positive d.size (partitions_by_offset d) _,
      only_parts-walk info remaining d.ptable d.size (partitions_by_offset d) _,
    )
