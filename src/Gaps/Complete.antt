-- ===== src/Gaps/Complete.antt =====
-- Which free space find_disk_gaps_v2 lists on a disk without an extended partition.
use subiquity.Base.{
  ℕ, ◌+◌, ◌%◌, ◌≤◌, ◌<◌, ◌≡◌, refl, ◌⊎◌, inl, inr, true, false, Option, none, List, [], ◌∷◌, ◌++◌,
  arith, leb, All, In, In-left, In-right,
}
use subiquity.Base.Ints.{ℤ, pos}
use subiquity.Storage.{
  extended, flag_eq, PTable, Partition, is_logical, PartitionAlignmentData, Device,
}
use subiquity.Storage.Sort.{All-sorted}
use subiquity.Gaps.{
  PartOrGap, part, gap, Gap, ad_difference, maybe_add_gap, start_of, gaps_before, cursor_after,
  gap_end_at, walk, find_disk_gaps_v2, partitions_by_offset, remaining_primary_partitions,
}
use subiquity.Gaps.Walk.{au-least, ad_difference-ge}

-- Some gap of the list holds every byte from `s` up to `e`.
abbrev pub Covered : ℕ → ℕ → List PartOrGap → Type 0
Covered s e items = (g : Gap) × In (gap g) items × (g.offset ≤ s) × (e ≤ g.offset + g.size)

abbrev pub IsPrimary : Option PTable → Partition → Type 0
IsPrimary ptable p = (is_logical ptable p ≡ false) × (flag_eq p.flag extended ≡ false)

abbrev pub Beside : ℕ → ℕ → Partition → Type 0
Beside s e p = (e ≤ p.offset) ⊎ (p.offset + p.size ≤ s)

Covered-left : (s e : ℕ) (xs ys : List PartOrGap) → Covered s e xs → Covered s e (xs ++ ys)
Covered-left s e xs ys (g, m, l, r) = (g, In-left (gap g) xs ys m, l, r)

Covered-right : (s e : ℕ) (xs ys : List PartOrGap) → Covered s e ys → Covered s e (xs ++ ys)
Covered-right s e xs ys (g, m, l, r) = (g, In-right (gap g) xs ys m, l, r)

module _ (info : PartitionAlignmentData) (remaining : ℤ) (ptable : Option PTable)
    (aligned : 0 < info.part_align) (s e : ℕ) (whole_s : s % info.part_align ≡ 0)
    (whole_e : e % info.part_align ≡ 0) (room : s + info.min_gap_size ≤ e) where
  added :
      (start end : ℕ)
      → start ≤ s
      → e ≤ end
      → Covered s e (maybe_add_gap info remaining start (pos end) false)
  unfolding maybe_add_gap
  added start end h k =
      let fits : leb (start + info.min_gap_size) end ≡ true = ground arith in
      rw fits (_, inl refl, h, omega arith)

  -- The gap that ends at `z`, where the last partition ended at `lo`.
  free :
      (lo : ℕ) (z : ℤ) (end : ℕ)
      → lo ≤ s
      → z ≡ pos end
      → e ≤ end
      → Covered s e (gaps_before info remaining (record { prev_end = lo; extended_end = none }) z).0
  unfolding gaps_before start_of
  free lo z end h eq k = rw eq (added _ end (au-least info.part_align aligned lo s whole_s h) k)

  walk-covers :
      (size : ℕ) (ps : List Partition) (lo : ℕ)
      → All (IsPrimary ptable) ps
      → All (Beside s e) ps
      → lo ≤ s
      → e + info.min_end_offset ≤ size
      → Covered s e
          (walk info remaining ptable size (record { prev_end = lo; extended_end = none }) ps)
  unfolding walk
  walk-covers size [] lo prim beside h k =
      let (end, eq, ge) =
        ad_difference-ge info.part_align aligned size info.min_end_offset e whole_e k in
      free lo (ad_difference info.part_align size info.min_end_offset) end h eq ge
  walk-covers size (p ∷ ps) lo prim (inl before, beside) h k =
      let (end, eq, ge) =
        ad_difference-ge info.part_align aligned p.offset 0 e whole_e (omega arith) in
      let at_p : gap_end_at info ptable p ≡ pos end = unfold gap_end_at in rw prim.0.0 eq in
      Covered-left s e _ _ (free lo (gap_end_at info ptable p) end h at_p ge)
  walk-covers size (p ∷ ps) lo prim (inr behind, beside) h k =
      let z = gap_end_at info ptable p in
      let rest = walk-covers size ps (p.offset + p.size) prim.1 beside behind k in
      let next : cursor_after p none
          ≡ record { prev_end = p.offset + p.size; extended_end = none } =
        unfold cursor_after in rw prim.0.1 refl in
      Covered-right s e
        (gaps_before info remaining (record { prev_end = lo; extended_end = none }) z).0 _
        (Covered-right s e (part p ∷ []) _ (rw next rest))

-- On a device with primary partitions only, every stretch of free space that begins and ends at
-- aligned offsets, is as long as the smallest gap and keeps clear of the start and end of the device
-- lies in one gap.
pub find_disk_gaps_v2-covers :
    (d : Device) (info : PartitionAlignmentData) (s e : ℕ)
    → 0 < info.part_align
    → All (IsPrimary d.ptable) d.partitions
    → All (Beside s e) d.partitions
    → s % info.part_align ≡ 0
    → e % info.part_align ≡ 0
    → s + info.min_gap_size ≤ e
    → info.min_start_offset ≤ s
    → e + info.min_end_offset ≤ d.size
    → Covered s e (find_disk_gaps_v2 d info)
unfolding find_disk_gaps_v2
find_disk_gaps_v2-covers d info s e aligned prim beside whole_s whole_e room start end =
    let key = λ (p : Partition). p.offset in
    walk-covers info (remaining_primary_partitions d info) d.ptable aligned s e whole_s whole_e room
      d.size (partitions_by_offset d) info.min_start_offset
      (All-sorted key (IsPrimary d.ptable) d.partitions prim)
      (All-sorted key (Beside s e) d.partitions beside) start end
