-- ===== src/Raid/Size.antt =====
-- The size of a RAID against the sizes of its members, level by level.
use mathlib.Core.Option.{some-injective}
use subiquity.Base.{
  ℕ, zero, suc, ◌+◌, ◌-◌, ◌*◌, ◌/◌, ◌≤◌, ◌≡◌, ◌⊎◌, refl, subst, inl, inr, Bool, true, false, some,
  List, [], ◌∷◌, arith, Bool-cases, length, All, All-weaken,
}
use subiquity.Base.Ints.{ℤ, pos, negsuc, pos_part, sub_ℕ, leb_ℤ, ◌≤ℤ◌, sum_ℤ, int_laws}
use subiquity.Align.{align_down_signed, mib}
use subiquity.Raid.{
  Level, raid0, raid1, raid5, raid6, raid10, container, unknown_level, Member,
  calculate_data_offset_bytes, usable_sizes, smallest, level_size, sorted_raid_size,
}

abbrev pub total : List Member → ℕ
total [] = 0
total (d ∷ ds) = d.size + total ds

-- The levels that bear the loss of one member.
abbrev pub is_redundant : Level → Bool
is_redundant raid1 = true
is_redundant raid5 = true
is_redundant raid6 = true
is_redundant raid10 = true
is_redundant _ = false

usable_le :
    (size offset m : ℕ) → pos (suc m) ≤ℤ align_down_signed (sub_ℕ size offset) mib → suc m ≤ size
unfolding align_down_signed
usable_le size offset m h = ground arith

usable_part : (size offset : ℕ) → align_down_signed (sub_ℕ size offset) mib ≤ℤ pos size
unfolding align_down_signed
usable_part size offset = ground arith

abbrev IsLeast : ℤ → List ℤ → ℤ → Type 0
IsLeast x ys z = (z ≤ℤ x) × All (λ y. z ≤ℤ y) ys

smallest-IsLeast : (x : ℤ) (ys : List ℤ) → IsLeast x ys (smallest x ys)
unfolding smallest
smallest-IsLeast x [] = (omega arith, tt)
smallest-IsLeast x (y ∷ ys) = elim (Bool-cases (leb_ℤ x y)) [
  | inl le ↦
      let (first, rest) = smallest-IsLeast x ys in
      subst (IsLeast x (y ∷ ys)) {x = smallest x ys} {y = smallest x (y ∷ ys)} (rw le refl)
        (first, (ground arith, rest))
  | inr gt ↦
      let (first, rest) = smallest-IsLeast y ys in
      subst (IsLeast x (y ∷ ys)) {x = smallest y ys} {y = smallest x (y ∷ ys)} (rw gt refl)
        (ground arith, (first, rest))
]

-- Each member holds the smallest usable size.
each_holds :
    (offset m : ℕ) (z : ℤ) (ds : List Member)
    → z ≡ pos (suc m)
    → All (λ y. z ≤ℤ y) (usable_sizes offset ds)
    → All (λ (d : Member). suc m ≤ d.size) ds
unfolding usable_sizes
each_holds offset m z [] e h = tt
each_holds offset m z (d ∷ ds) e h =
    (usable_le d.size offset m (rw e at h.0), each_holds offset m z ds e h.1)

sum-le : (offset : ℕ) (ds : List Member) → sum_ℤ (usable_sizes offset ds) ≤ℤ pos (total ds)
unfolding usable_sizes
sum-le offset [] = omega arith
sum-le offset (d ∷ ds) = omega (int_laws, usable_part d.size offset, sum-le offset ds)

pos_part-le : (z : ℤ) (bound : ℕ) → z ≤ℤ pos bound → pos_part z ≤ bound
pos_part-le (pos n) bound h = omega arith
pos_part-le (negsuc n) bound h = omega arith

module _ (m : ℕ) where
  pub held : (ds : List Member) → All (λ (d : Member). m ≤ d.size) ds → length ds * m ≤ total ds
  held [] h = omega arith
  held (d ∷ ds) h =
      let rest = held ds h.1 in
      let product : suc (length ds) * m ≡ m + length ds * m = grind arith in omega (arith, h.0)

  -- All members but one hold the smallest size once each.
  pub held_by_others :
      (ds : List Member)
      → All (λ (d : Member). m ≤ d.size) ds
      → All (λ (d : Member). d.size + length ds * m ≤ total ds + m) ds
  held_by_others [] h = tt
  held_by_others (d ∷ ds) h =
      let product : suc (length ds) * m ≡ m + length ds * m = grind arith in
      (
        omega (arith, held ds h.1),
        All-weaken (λ (e : Member). e.size + length ds * m ≤ total ds + m)
            (λ (e : Member). e.size + suc (length ds) * m ≤ d.size + total ds + m)
            (λ e k. omega (arith, h.0)) ds (held_by_others ds h.1),
      )

times_pred : (count m : ℕ) → 1 ≤ count → m * (count - 1) + m ≡ count * m
times_pred zero m h = absurd (omega arith)
times_pred (suc c) m h = let pred : suc c - 1 ≡ c = omega arith in rw pred (grind arith)

-- A redundant level spares the room of one member at least.
pub redundant-le :
    (level : Level) (count m sum n : ℕ)
    → 2 ≤ count
    → is_redundant level ≡ true
    → level_size level count m sum ≡ some n
    → n + m ≤ count * m
unfolding level_size
redundant-le raid0 count m sum n h r e = cc
redundant-le container count m sum n h r e = cc
redundant-le unknown_level count m sum n h r e = cc
redundant-le raid1 count m sum n h r e =
    let same : m ≡ n = some-injective _ _ e in
    let product : 2 * m ≤ count * m = grind arith in omega arith
redundant-le raid5 count m sum n h r e =
    let same : m * (count - 1) ≡ n = some-injective _ _ e in
    omega (arith, times_pred count m (omega arith))
redundant-le raid6 count m sum n h r e =
    let same : m * (count - 2) ≡ n = some-injective _ _ e in
    let fewer : m * (count - 2) ≤ m * (count - 1) = grind arith in
    omega (arith, times_pred count m (omega arith))
redundant-le raid10 count m sum n h r e =
    let same : m * (count / 2) ≡ n = some-injective _ _ e in
    let half : count / 2 + 1 ≤ count = omega arith in
    let product : m * (count / 2) + m ≤ count * m = grind arith in omega arith

-- What sorted_raid_size returns is nothing, or what the level makes of members that all hold `m`.
abbrev pub Sized : Level → List Member → ℕ → Type 0
Sized level ds n =
    (n ≡ 0)
    ⊎ ((m : ℕ) × (sum : ℕ) × (1 ≤ length ds)
        × All (λ (d : Member). m ≤ d.size) ds
        × (sum ≤ total ds)
        × (level_size level (length ds) m sum ≡ some n))

module _ (level : Level) (d : Member) (ds : List Member) where
  abbrev sizes : List ℤ
  sizes = usable_sizes (calculate_data_offset_bytes d.size) (d ∷ ds)

  by_smallest :
      (z : ℤ) (n : ℕ)
      → All (λ y. z ≤ℤ y) sizes
      → elim z [
        | pos (suc m) ↦ level_size level (suc (length ds)) (suc m) (pos_part (sum_ℤ sizes))
        | _ ↦ some 0
      ]
        ≡ some n
      → Sized level (d ∷ ds) n
  by_smallest (negsuc k) n h e = inl (ground arith)
  by_smallest (pos zero) n h e = inl (ground arith)
  by_smallest (pos (suc m)) n h e =
      let offset = calculate_data_offset_bytes d.size in
      inr (
        suc m,
        pos_part (sum_ℤ sizes),
        omega arith,
        each_holds offset m (pos (suc m)) (d ∷ ds) refl h,
        pos_part-le (sum_ℤ sizes) (total (d ∷ ds)) (sum-le offset (d ∷ ds)),
        e,
      )

pub sorted_raid_size-Sized :
    (level : Level) (ds : List Member) (n : ℕ)
    → sorted_raid_size level ds ≡ some n
    → Sized level ds n
unfolding sorted_raid_size usable_sizes
sorted_raid_size-Sized level [] n e = inl (ground arith)
sorted_raid_size-Sized level (d ∷ ds) n e =
    let offset = calculate_data_offset_bytes d.size in
    let first = align_down_signed (sub_ℕ d.size offset) mib in
    let rest = usable_sizes offset ds in
    by_smallest level d ds (smallest first rest) n (smallest-IsLeast first rest) e
