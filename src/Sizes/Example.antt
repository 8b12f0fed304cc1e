-- ===== src/Sizes/Example.antt =====
-- Exact quotients are a `Floats`, and small runs of the functions.
use native.Mathlib.Nat.{div-lt_iff_lt-mul}
use native.Mathlib.Decide.{dec_lt}
use subiquity.Base.{
  ℕ, ◌+◌, ◌-◌, ◌*◌, ◌/◌, ◌^◌, ◌≤◌, ◌<◌, ◌≡◌, refl, arith, suc, some, true, [], ◌∷◌, any,
}
use subiquity.Base.Ints.{pos, ◌-ℤ◌, ◌+ℤ◌, sum_ℤ}
use subiquity.Align.{align_up, align_down, mib, gib}
use subiquity.Sizes.{
  Floats, GuidedResizeValues, is_minus_one, all_factors, priorities, scaled_sizes, scale_partitions,
  calculate_guided_resize,
}
use subiquity.Sizes.Scale.{scale_partitions-uses_all}
use subiquity.Sizes.Resize.{IsResizable, guided_resize-IsResizable}

abbrev ceil_div : ℕ → ℕ → ℕ
ceil_div x y = (x + y - 1) / y

pub ratio_exact : (w a b : ℕ) → w < 2 ^ 53 → ceil_div (w * a) (a + b) ≤ w
ratio_exact w a b h = elim (dec_lt 0 (a + b)) [
  | yes p ↦
      let product : w * a ≤ w * (a + b) = grind arith in
      let below : ceil_div (w * a) (a + b) < suc w =
        (div-lt_iff_lt-mul {x = w * a + (a + b) - 1} {y = suc w} p).1 (omega arith) in
      omega (arith, below)
  | no p ↦
      let none_a : a ≡ 0 = omega arith in
      let none_b : b ≡ 0 = omega arith in rw (none_a, none_b) (omega arith)
]

abbrev pub exact : Floats
exact = record {
  share = λ a t p. a * p / t;
  quarter_up = λ n. ceil_div n 4;
  half_up = λ n. ceil_div n 2;
  ratio_up = λ w a b. ceil_div (w * a) (a + b);
  ratio-le = ratio_exact;
}

takes_rest :
    any is_minus_one (scaled_sizes exact (20 * gib) (priorities all_factors) all_factors) ≡ true
unfolding scaled_sizes
takes_rest = refl

scale_partitions-uses_all_example :
    sum_ℤ (scale_partitions exact all_factors (20 * gib)) ≡ pos (20 * gib)
scale_partitions-uses_all_example =
    scale_partitions-uses_all exact all_factors (20 * gib) (omega arith) takes_rest

scale_partitions_test :
    scale_partitions exact all_factors (20 * gib)
    ≡ pos 999261548 ∷ pos 1901940196 ∷ pos 18573634736 ∷ []
unfolding scale_partitions ◌-ℤ◌ ◌+ℤ◌
scale_partitions_test = refl

abbrev resize_values : GuidedResizeValues
resize_values = record {
  install_max = 28160 * mib;
  minimum = 12800 * mib;
  recommended = 20898 * mib;
  maximum = 28 * gib;
}

resize_run :
    calculate_guided_resize exact (pos (10 * gib)) (40 * gib) (12 * gib) (2 ^ 20)
    ≡ some resize_values
unfolding calculate_guided_resize align_up align_down
resize_run = refl

guided_resize-IsResizable_example :
    IsResizable (align_up (40 * gib) (2 ^ 20)) (12 * gib) (2 ^ 20) resize_values
unfolding align_up
guided_resize-IsResizable_example =
    guided_resize-IsResizable exact (10 * gib) (40 * gib) (12 * gib) 20 resize_values (omega arith)
      resize_run
