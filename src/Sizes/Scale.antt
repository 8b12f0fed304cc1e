-- ===== src/Sizes/Scale.antt =====
-- scale_partitions shares a disk out: the bounds that each size keeps, and that the sizes add up.
use subiquity.Base.{
  ℕ, ◌*◌, ◌≤◌, ◌≡◌, refl, ap, sym, ◌∙◌, true, not, List, [], ◌∷◌, arith, any, filter, length,
  Bool-cases, inl, inr,
}
use subiquity.Base.Ints.{ℤ, pos, pos_part, neg_part, ◌+ℤ◌, ◌-ℤ◌, ◌≤ℤ◌, sum_ℤ, int_laws}
use subiquity.Align.{mib}
use subiquity.Sizes.{
  Floats, PartitionScaleFactors, is_minus_one, fill_rest, priorities, scaled_sizes,
  scale_partitions, get_efi_size, get_bootfs_size,
}

module _ (fl : Floats) where
  -- Whatever the disk and however the floats round, the EFI partition gets from 538 to 1075 MiB and
  -- the boot partition from 1792 to 2048 MiB.
  pub get_size_bounds :
      (available : ℕ)
      → (pos (538 * mib) ≤ℤ get_efi_size fl available)
        × (get_efi_size fl available ≤ℤ pos (1075 * mib))
        × (pos (1792 * mib) ≤ℤ get_bootfs_size fl available)
        × (get_bootfs_size fl available ≤ℤ pos (2048 * mib))
  unfolding get_efi_size get_bootfs_size
  get_size_bounds available = ground arith

-- How many sizes, and how many factors, stand for the rest of the disk.
abbrev minus_ones : List ℤ → ℕ
minus_ones xs = length (filter is_minus_one xs)

abbrev pub rest_factors : List PartitionScaleFactors → ℕ
rest_factors factors = length (filter (λ f. is_minus_one f.maximum) factors)

used : List ℤ → ℤ
used xs = sum_ℤ (filter (λ x. not (is_minus_one x)) xs)

minus_ones-scaled :
    (fl : Floats) (available total : ℕ) (factors : List PartitionScaleFactors)
    → minus_ones (scaled_sizes fl available total factors) ≤ rest_factors factors
unfolding scaled_sizes
minus_ones-scaled fl available total [] = omega arith
minus_ones-scaled fl available total (f ∷ fs) =
    ground (arith, minus_ones-scaled fl available total fs)

used-eq-sum : (xs : List ℤ) → minus_ones xs ≡ 0 → used xs ≡ sum_ℤ xs
unfolding used
used-eq-sum [] h = refl
used-eq-sum (x ∷ xs) h = elim (Bool-cases (is_minus_one x)) [
  | inl last ↦ absurd (ground arith)
  | inr other ↦ rw other (ap (λ t. x +ℤ t) (used-eq-sum xs (rw other at h)))
]

-- Filling the one -1 in adds the filled value to what the other sizes use.
sum-fill_rest :
    (xs : List ℤ) (rest : ℤ)
    → minus_ones xs ≤ 1
    → any is_minus_one xs ≡ true
    → sum_ℤ (fill_rest xs rest) ≡ rest +ℤ used xs
unfolding used fill_rest
sum-fill_rest [] rest h k = absurd (ground arith)
sum-fill_rest (x ∷ xs) rest h k = elim (Bool-cases (is_minus_one x)) [
  | inl last ↦ rw last (ap (λ t. rest +ℤ t) (sym (used-eq-sum xs (ground arith))))
  | inr other ↦ rw other (
      omega (
        int_laws,
        ap (λ (t : ℤ). pos_part t) (sum-fill_rest xs rest (ground arith) (ground arith)),
        ap (λ (t : ℤ). neg_part t) (sum-fill_rest xs rest (ground arith) (ground arith)),
      ))
]

-- If one factor at most is to take the rest of the disk, and it is not held to its minimum, the
-- sizes add up to the available space.
pub scale_partitions-uses_all :
    (fl : Floats) (factors : List PartitionScaleFactors) (available : ℕ)
    → rest_factors factors ≤ 1
    → any is_minus_one (scaled_sizes fl available (priorities factors) factors) ≡ true
    → sum_ℤ (scale_partitions fl factors available) ≡ pos available
unfolding scale_partitions used
scale_partitions-uses_all fl factors available h some =
    let ret = scaled_sizes fl available (priorities factors) factors in
    let one : minus_ones ret ≤ 1 =
      omega (arith, minus_ones-scaled fl available (priorities factors) factors) in
    rw some (sum-fill_rest ret (pos available -ℤ used ret) one some ∙ omega int_laws)
