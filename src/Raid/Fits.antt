-- ===== src/Raid/Fits.antt =====
-- get_raid_size and get_lvm_size against the sizes of the members.
use subiquity.Base.{
  ℕ, suc, ◌+◌, ◌-◌, ◌*◌, ◌%◌, ◌≤◌, ◌≡◌, refl, inl, inr, true, some, List, [], ◌∷◌, arith, length,
  All, All-weaken,
}
use subiquity.Base.Ints.{pos, sub_ℕ, ◌+ℤ◌}
use subiquity.Align.{align_down, align_down_signed, mib}
use subiquity.Align.Laws.{align_down_lem}
use subiquity.Storage.Sort.{insert, sorted, sorted-All}
use subiquity.Raid.{Level, Member, sorted_raid_size, get_raid_size, get_lvm_size, lvm_overhead}
use subiquity.Raid.Size.{total, is_redundant, held_by_others, redundant-le, sorted_raid_size-Sized}

abbrev key : Member → ℕ
key d = d.id

total-insert : (d : Member) (ds : List Member) → total (insert key d ds) ≡ d.size + total ds
unfolding insert
total-insert d [] = refl
total-insert d (e ∷ ds) = ground (arith, total-insert d ds)

total-sorted : (ds : List Member) → total (sorted key ds) ≡ total ds
unfolding sorted
total-sorted [] = refl
total-sorted (d ∷ ds) = omega (arith, total-insert d (sorted key ds), total-sorted ds)

length-insert : (d : Member) (ds : List Member) → length (insert key d ds) ≡ suc (length ds)
unfolding insert
length-insert d [] = refl
length-insert d (e ∷ ds) = ground (arith, length-insert d ds)

length-sorted : (ds : List Member) → length (sorted key ds) ≡ length ds
unfolding sorted
length-sorted [] = refl
length-sorted (d ∷ ds) = omega (arith, length-insert d (sorted key ds), length-sorted ds)

no_size : (ds : List Member) → All (λ (d : Member). 0 ≤ d.size) ds
no_size [] = tt
no_size (d ∷ ds) = (omega arith, no_size ds)

survives :
    (level : Level) (ds : List Member) (n : ℕ)
    → 2 ≤ length ds
    → is_redundant level ≡ true
    → sorted_raid_size level ds ≡ some n
    → All (λ (d : Member). n + d.size ≤ total ds) ds
survives level ds n two red e = elim (sorted_raid_size-Sized level ds n e) [
  | inl nothing ↦
      let zero_each : length ds * 0 ≡ 0 = grind arith in
      All-weaken (λ (d : Member). d.size + length ds * 0 ≤ total ds + 0)
        (λ (d : Member). n + d.size ≤ total ds) (λ d k. omega arith) ds
        (held_by_others 0 ds (no_size ds))
  | inr (m, sum, one, hold, le, of_level) ↦
      let room = redundant-le level (length ds) m sum n two red of_level in
      All-weaken (λ (d : Member). d.size + length ds * m ≤ total ds + m)
        (λ (d : Member). n + d.size ≤ total ds) (λ d k. omega arith) ds (held_by_others m ds hold)
]

-- A RAID of a redundant level (1, 5, 6 or 10) with two members at least is no larger than what is
-- left of its members when any one of them is lost.
pub get_raid_size-survives :
    (level : Level) (ds : List Member) (n : ℕ)
    → 2 ≤ length ds
    → is_redundant level ≡ true
    → get_raid_size level ds ≡ some n
    → All (λ (d : Member). n + d.size ≤ total ds) ds
unfolding get_raid_size
get_raid_size-survives level ds n two red e =
    let many = length-sorted ds in
    let same = total-sorted ds in
    sorted-All key (λ (d : Member). n + d.size ≤ total ds) ds
      (All-weaken (λ (d : Member). n + d.size ≤ total (sorted key ds))
        (λ (d : Member). n + d.size ≤ total ds) (λ d k. omega arith) (sorted key ds)
        (survives level (sorted key ds) n (omega arith) red e))

abbrev pub total_by : (Member → ℕ) → List Member → ℕ
total_by size_of [] = 0
total_by size_of (d ∷ ds) = size_of d + total_by size_of ds

-- A volume group on members of 1 MiB at least has a size in whole chunks of 4 MiB, which leaves at
-- least 1 MiB and at most 5 MiB of each member aside.
pub get_lvm_size_bounds :
    (size_of : Member → ℕ) (ds : List Member)
    → All (λ (d : Member). mib ≤ size_of d) ds
    → (r : ℕ) × (get_lvm_size size_of ds ≡ pos r)
      × (r % (4 * mib) ≡ 0)
      × (r + length ds * mib ≤ total_by size_of ds)
      × (total_by size_of ds ≤ r + length ds * (5 * mib))
unfolding get_lvm_size ◌+ℤ◌ align_down_signed align_down
get_lvm_size_bounds size_of [] h = (0, refl, refl, omega arith, omega arith)
get_lvm_size_bounds size_of (d ∷ ds) h =
    let (r, e, whole, low, high) = get_lvm_size_bounds size_of ds h.1 in
    let size = size_of d - mib in
    let front : sub_ℕ (size_of d) lvm_overhead ≡ pos size = ground (arith, h.0) in
    let (le, lt, multiple) = align_down_lem 22 size in
    (
      align_down size (4 * mib) + r,
      rw (e, front) (ground arith),
      omega (arith, multiple),
      omega (arith, h.0),
      omega (arith, h.0),
    )
