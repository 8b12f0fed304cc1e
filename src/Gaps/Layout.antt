-- ===== src/Gaps/Layout.antt =====
-- The order in which find_disk_gaps_v2 lists partitions and gaps.
use mathlib.Core.List.{append-nil}
use subiquity.Base.{
  ℕ, ◌+◌, ◌≤◌, ◌<◌, ◌≡◌, refl, ◌⊎◌, inl, inr, false, Option, none, some, List, [], ◌∷◌, arith,
  Bool-cases, All, In, All-In,
}
use subiquity.Base.Ints.{ℤ, pos}
use subiquity.Storage.{
  extended, flag_eq, PTable, Partition, is_logical, PartitionAlignmentData, Device,
}
use subiquity.Gaps.{
  PartOrGap, part, gap, Gap, au, ad, Cursor, maybe_add_gap, start_of, reaches, gaps_before, walk,
  parts_of, find_disk_gaps_v2, partitions_by_offset, remaining_primary_partitions,
}
use subiquity.Gaps.Walk.{
  below, IsLaidOut, Follows, open_after, open_after_gap, next_start, ad-le, le-au,
}
use subiquity.Gaps.Order.{outside, inside, start-le, start_inside-le, step, cursor_after-eq}

module _ (info : PartitionAlignmentData) (remaining : ℤ) (ptable : Option PTable)
    (aligned : 0 < info.part_align) where
  abbrev at_cursor : ℕ → ℕ → Cursor
  at_cursor lo x = record { prev_end = lo; extended_end = some x }

  -- What follows a partition starts in the extended partition that is open there.
  still_open :
      (ext : Option ℕ) (p : Partition)
      → Follows info.part_align ptable ext p (is_logical ptable p)
      → (x : ℕ) → open_after info.part_align ptable ext p ≡ some x
      → next_start info.part_align ptable p ≤ x
  still_open none p f x e = ground arith
  still_open (some y) p f x e = elim (Bool-cases (is_logical ptable p)) [
    | inl log ↦ let f' = rw log at f in ground (arith, f')
    | inr prim ↦ ground arith
  ]

  -- The gaps behind the last partition.
  last_gaps :
      (ext : Option ℕ) (lo : ℕ) (end : ℤ)
      → ((x : ℕ) → ext ≡ some x → lo ≤ x)
      → IsLaidOut info.part_align ptable ext lo
          (gaps_before info remaining (record { prev_end = lo; extended_end = ext }) end).0
  unfolding gaps_before
  last_gaps none lo end i = rw append-nil at (
      outside info remaining ptable aligned none lo _ end []
        (start-le info remaining ptable aligned lo) (λ x e. cc) tt (λ e q. tt))
  last_gaps (some x) lo end i = elim (Bool-cases (reaches end x)) [
    | inr stays ↦ rw stays (
        rw append-nil at (
          inside info remaining ptable aligned x lo (start_of info (at_cursor lo x)) end []
            (start_inside-le info remaining ptable aligned lo x (i x refl))
            (λ e q. below end x stays e q) tt (λ e q. tt)))
    | inl closed ↦
        let a = info.part_align in
        let at_most : (e : ℕ) → pos (ad a x) ≡ pos e → e ≤ x =
          λ e q. ground (arith, ad-le a aligned x) in
        let within : (y : ℕ) → some x ≡ some y → y ≤ au a x =
          λ y e. ground (arith, le-au a aligned x) in
        let tail : (lo : ℕ)
            → lo ≤ x
            → IsLaidOut a ptable (some x) lo (maybe_add_gap info remaining (au a x) end false) =
          λ lo h. rw append-nil at (
            outside info remaining ptable aligned (some x) lo (au a x) end []
              (omega (arith, le-au a aligned x)) within tt (λ e q. tt)) in
        rw closed (
          inside info remaining ptable aligned x lo (start_of info (at_cursor lo x)) (pos (ad a x))
            (maybe_add_gap info remaining (au a x) end false)
            (start_inside-le info remaining ptable aligned lo x (i x refl)) at_most
            (tail lo (i x refl)) (λ e q. tail e (at_most e q)))
  ]

  -- Partitions that are laid out stay so with the gaps between them.
  pub walk-IsLaidOut :
      (device_size : ℕ) (ps : List Partition) (ext : Option ℕ) (lo : ℕ)
      → ((x : ℕ) → ext ≡ some x → lo ≤ x)
      → IsLaidOut info.part_align ptable ext lo (parts_of ps)
      → IsLaidOut info.part_align ptable ext lo
          (walk info remaining ptable device_size (record { prev_end = lo; extended_end = ext }) ps)
  unfolding walk
  walk-IsLaidOut device_size [] ext lo i h = last_gaps ext lo _ i
  walk-IsLaidOut device_size (p ∷ ps) ext lo i h =
      let tail =
        walk-IsLaidOut device_size ps (open_after info.part_align ptable ext p)
          (next_start info.part_align ptable p) (still_open ext p h.1) h.2 in
      step info remaining ptable aligned p _ ext lo i h.0 h.1
        (rw (cursor_after-eq info remaining ptable aligned p [] ext lo h.1) tail)

-- `q` and the gap `g` share no byte.
abbrev pub Apart : Gap → Partition → Type 0
Apart g q = (g.offset + g.size ≤ q.offset) ⊎ (q.offset + q.size ≤ g.offset)

abbrev StartsAt : ℕ → PartOrGap → Type 0
StartsAt lo (part p) = lo ≤ p.offset
StartsAt lo (gap g) = lo ≤ g.offset

module _ (a : ℕ) (ptable : Option PTable) where
  starts_after :
      (items : List PartOrGap) (ext : Option ℕ) (lo start : ℕ)
      → start ≤ lo
      → IsLaidOut a ptable ext lo items
      → All (StartsAt start) items
  starts_after [] ext lo start s h = tt
  starts_after (part p ∷ rest) ext lo start s h = (
    omega (arith, h.0),
    starts_after rest (open_after a ptable ext p) (next_start a ptable p) start
        (ground (arith, h.0)) h.2,
  )
  starts_after (gap g ∷ rest) ext lo start s h = (
    omega (arith, h.0),
    starts_after rest (open_after_gap a ptable ext g) (g.offset + g.size) start (omega (arith, h.0))
        h.2,
  )

  -- In a list that is laid out no gap shares a byte with a partition that is not extended.
  pub IsLaidOut-Apart :
      (items : List PartOrGap) (ext : Option ℕ) (lo : ℕ)
      → IsLaidOut a ptable ext lo items
      → (g : Gap) (q : Partition) → In (gap g) items
      → In (part q) items
      → flag_eq q.flag extended ≡ false
      → Apart g q
  IsLaidOut-Apart [] ext lo h g q mg mq plain = absurd mg
  IsLaidOut-Apart (part p ∷ rest) ext lo h g q (inl eg) mq plain = cc
  IsLaidOut-Apart (gap k ∷ rest) ext lo h g q mg (inl eq) plain = cc
  IsLaidOut-Apart (gap k ∷ rest) ext lo h g q (inl eg) (inr mq) plain =
      let end = k.offset + k.size in
      let all = starts_after rest (open_after_gap a ptable ext k) end end (omega arith) h.2 in
      ground (arith, All-In (StartsAt end) (part q) rest all mq)
  IsLaidOut-Apart (part p ∷ rest) ext lo h g q (inr mg) (inl eq) plain =
      let end = next_start a ptable p in
      let all = starts_after rest (open_after a ptable ext p) end end (omega arith) h.2 in
      ground (arith, All-In (StartsAt end) (gap g) rest all mg)
  IsLaidOut-Apart (part p ∷ rest) ext lo h g q (inr mg) (inr mq) plain =
      IsLaidOut-Apart rest (open_after a ptable ext p) (next_start a ptable p) h.2 g q mg mq plain
  IsLaidOut-Apart (gap k ∷ rest) ext lo h g q (inr mg) (inr mq) plain =
      IsLaidOut-Apart rest (open_after_gap a ptable ext k) (k.offset + k.size) h.2 g q mg mq plain

-- The partitions of a device, by offset, are laid out from the first usable byte.
abbrev pub IsLayout : Device → PartitionAlignmentData → Type 0
IsLayout d info =
    IsLaidOut info.part_align d.ptable none info.min_start_offset
      (parts_of (partitions_by_offset d))

-- Take a device whose partitions are in order: none overlaps the one before it, logical ones lie in
-- the extended one, and a primary one behind the extended one has an aligned offset between. Then
-- the list with the gaps is in order too: each partition and gap starts behind the one before it (a
-- gap or logical partition behind the start of the extended one), and a gap is in the extended
-- partition if it says so and behind its end otherwise.
pub find_disk_gaps_v2-IsLaidOut :
    (d : Device) (info : PartitionAlignmentData)
    → 0 < info.part_align
    → IsLayout d info
    → IsLaidOut info.part_align d.ptable none info.min_start_offset (find_disk_gaps_v2 d info)
unfolding find_disk_gaps_v2
find_disk_gaps_v2-IsLaidOut d info aligned h =
    walk-IsLaidOut info (remaining_primary_partitions d info) d.ptable aligned d.size
      (partitions_by_offset d) none info.min_start_offset (λ x e. cc) h

-- On a device with partitions in that order, no gap shares a byte with a partition other than the
-- extended one.
pub find_disk_gaps_v2-Apart :
    (d : Device) (info : PartitionAlignmentData) (g : Gap) (q : Partition)
    → 0 < info.part_align
    → IsLayout d info
    → In (gap g) (find_disk_gaps_v2 d info)
    → In (part q) (find_disk_gaps_v2 d info)
    → flag_eq q.flag extended ≡ false
    → Apart g q
find_disk_gaps_v2-Apart d info g q aligned h =
    IsLaidOut-Apart info.part_align d.ptable (find_disk_gaps_v2 d info) none info.min_start_offset
      (find_disk_gaps_v2-IsLaidOut d info aligned h) g q
