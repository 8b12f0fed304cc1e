-- ===== src/Text/Example.antt =====
-- Sizes as a user writes them.
use subiquity.Base.{◌≡◌, refl, some, [], ◌∷◌, ◌++◌, arith, ◌^◌, ◌*◌}
use subiquity.Text.{
  split, last, without_last, strip_left, strip_right, read_digits, int, index, multiplier, size,
  refused, unrecognized_suffix, negative_input, dehumanize_number, dehumanize_size,
}
use subiquity.Text.Number.{value, decimal}
use subiquity.Text.Sizes.{in_units, dehumanize_size-in_units, dehumanize_size-decimal}

-- "1.5G"
dehumanize_size-in_units_example :
    dehumanize_size (49 ∷ 46 ∷ 53 ∷ 71 ∷ [])
    ≡ in_units (value (49 ∷ 53 ∷ [])) (10 ^ 1) (multiplier (some 71))
dehumanize_size-in_units_example =
    dehumanize_size-in_units (49 ∷ []) (53 ∷ []) 71 (refl, tt) (refl, tt) (omega arith) refl

dehumanize_size-decimal_example :
    (dehumanize_size (decimal 300) ≡ size 300)
    × (dehumanize_size (decimal 300 ++ 109 ∷ []) ≡ size (300 * 2 ^ 20))
unfolding index
dehumanize_size-decimal_example = dehumanize_size-decimal 300 109 (2 ^ 20) refl refl

-- "1.5 G": the blank counts as a digit behind the point, so that a tenth of the size is read.
blank_before_unit : dehumanize_size (49 ∷ 46 ∷ 53 ∷ 32 ∷ 71 ∷ []) ≡ size 161061273
unfolding dehumanize_size dehumanize_number split last without_last int strip_left strip_right
    read_digits index
blank_before_unit = refl

-- "-1k" and "1x"
negative_refused : dehumanize_size (45 ∷ 49 ∷ 107 ∷ []) ≡ refused negative_input
unfolding dehumanize_size dehumanize_number split last without_last int strip_left strip_right
    read_digits index
negative_refused = refl

suffix_refused : dehumanize_size (49 ∷ 120 ∷ []) ≡ refused unrecognized_suffix
unfolding dehumanize_size dehumanize_number split last without_last int strip_left strip_right
    read_digits index
suffix_refused = refl
