-- ===== src/Text/Sizes.antt =====
-- The size that `dehumanize_size` reads in each form of a number.
use subiquity.Base.{
  ℕ, suc, ◌+◌, ◌*◌, ◌/◌, ◌^◌, ◌≤◌, ◌≡◌, refl, ap, ◌∙◌, inl, inr, true, false, Option, none, some,
  List, [], ◌∷◌, ◌++◌, if◌then◌else◌, arith, length, ◌==◌, Bool-cases,
}
use subiquity.Base.Ints.{pos}
use subiquity.Text.{
  Text, is_digit, upper, last, without_last, split, onto_first, unrecognized_suffix,
  not_valid_input, empty_input, Result, size, refused, decimal_point, multiplier, with_multiplier,
  with_number, with_digits, dehumanize_number, dehumanize_size,
}
use subiquity.Text.Number.{
  AreDigits, value, int-value, split_whole, split_point, last_snoc, without_last_snoc,
  AreDigits-append, decimal, decimal-value, decimal-AreDigits, decimal_last,
}

-- What comes of a number over `div`, by the factor of its suffix.
abbrev pub in_units : ℕ → ℕ → Option ℕ → Result
in_units num div none = refused unrecognized_suffix
in_units num div (some mult) = size (num * mult / div)

in_units_lem : (num div : ℕ) (m : Option ℕ) → with_multiplier (pos num) div m ≡ in_units num div m
in_units_lem num div none = refl
in_units_lem num div (some mult) = refl

-- The digits in front of and behind the point, one at least.
number_value :
    (suffix : Option ℕ) (c : ℕ) (cs : Text) (div : ℕ) (parts : List Text) (text : Text)
    → AreDigits (c ∷ cs)
    → split 46 text ≡ parts
    → decimal_point parts ≡ some (c ∷ cs, div)
    → dehumanize_number suffix text ≡ in_units (value (c ∷ cs)) div (multiplier suffix)
unfolding dehumanize_number
number_value suffix c cs div parts text h e k =
    ap (with_digits suffix) (ap decimal_point e ∙ k)
    ∙ ap (with_number suffix div) (int-value c cs h)
    ∙ in_units_lem (value (c ∷ cs)) div (multiplier suffix)

point_value_at :
    (suffix : Option ℕ) (ds fs digits : Text)
    → AreDigits ds
    → AreDigits fs
    → AreDigits digits
    → ds ++ fs ≡ digits
    → 1 ≤ length digits
    → dehumanize_number suffix (ds ++ 46 ∷ fs)
      ≡ in_units (value digits) (10 ^ length fs) (multiplier suffix)
point_value_at suffix ds fs [] h k l e some_digit = absurd (omega arith)
point_value_at suffix ds fs (c ∷ cs) h k l e some_digit =
    number_value suffix c cs (10 ^ length fs) (ds ∷ fs ∷ []) (ds ++ 46 ∷ fs) l
      (split_point ds fs h k) (ap (λ (digits : Text). some (digits, 10 ^ length fs)) e)

point_value :
    (suffix : Option ℕ) (ds fs : Text)
    → AreDigits ds
    → AreDigits fs
    → 1 ≤ length (ds ++ fs)
    → dehumanize_number suffix (ds ++ 46 ∷ fs)
      ≡ in_units (value (ds ++ fs)) (10 ^ length fs) (multiplier suffix)
point_value suffix ds fs h k some_digit =
    point_value_at suffix ds fs (ds ++ fs) h k (AreDigits-append ds fs h k) refl some_digit

whole_value :
    (suffix : Option ℕ) (ds : Text)
    → AreDigits ds
    → 1 ≤ length ds
    → dehumanize_number suffix ds ≡ in_units (value ds) 1 (multiplier suffix)
whole_value suffix [] h some_digit = absurd (omega arith)
whole_value suffix (c ∷ cs) h some_digit =
    number_value suffix c cs 1 ((c ∷ cs) ∷ []) (c ∷ cs) h (split_whole (c ∷ cs) h) refl

read_suffix :
    (text : Text) (u : ℕ)
    → is_digit u ≡ false
    → dehumanize_size (text ++ u ∷ []) ≡ dehumanize_number (some (upper u)) text
unfolding dehumanize_size last without_last
read_suffix [] u h = rw h refl
read_suffix (c ∷ cs) u h = rw (last_snoc c cs u, h, without_last_snoc c cs u) refl

read_no_suffix :
    (text : Text) (d : ℕ)
    → is_digit d ≡ true
    → dehumanize_size (text ++ d ∷ []) ≡ dehumanize_number none (text ++ d ∷ [])
unfolding dehumanize_size last
read_no_suffix [] d h = rw h refl
read_no_suffix (c ∷ cs) d h = rw (last_snoc c cs d, h) refl

-- A number with a point, whose digits are `ds` and `fs` and one at least, and a character behind it
-- that is no digit: with a unit, in either case, it is the number that all the digits are, times the
-- factor of the unit, over 10 to the count of the digits behind the point, rounded down; with any
-- other character the suffix is refused.
pub dehumanize_size-in_units :
    (ds fs : Text) (u : ℕ)
    → AreDigits ds
    → AreDigits fs
    → 1 ≤ length (ds ++ fs)
    → is_digit u ≡ false
    → dehumanize_size ((ds ++ 46 ∷ fs) ++ u ∷ [])
      ≡ in_units (value (ds ++ fs)) (10 ^ length fs) (multiplier (some (upper u)))
dehumanize_size-in_units ds fs u h k some_digit no_digit =
    read_suffix (ds ++ 46 ∷ fs) u no_digit ∙ point_value (some (upper u)) ds fs h k some_digit

snoc_nonempty : (front : Text) (d : ℕ) → 1 ≤ length (front ++ d ∷ [])
snoc_nonempty [] d = omega arith
snoc_nonempty (c ∷ cs) d = omega arith

over_one : (n : ℕ) → n / 1 ≡ n
over_one n = omega arith

decimal_nonempty : (n : ℕ) → 1 ≤ length (decimal n)
decimal_nonempty n = let (front, d, e, h) = decimal_last n in rw e (snoc_nonempty front d)

-- The digits of a number are read as that number, and with a unit behind them as that many units.
pub dehumanize_size-decimal :
    (n u mult : ℕ)
    → is_digit u ≡ false
    → multiplier (some (upper u)) ≡ some mult
    → (dehumanize_size (decimal n) ≡ size n)
      × (dehumanize_size (decimal n ++ u ∷ []) ≡ size (n * mult))
dehumanize_size-decimal n u mult no_digit factor =
    let (front, d, e, digit) = decimal_last n in
    let plain : dehumanize_size (decimal n) ≡ dehumanize_number none (decimal n) =
      rw e (read_no_suffix front d digit) in
    (
      plain
          ∙ whole_value none (decimal n) (decimal-AreDigits n) (decimal_nonempty n)
          ∙ rw (decimal-value n) (ap size (over_one (n * 1) ∙ omega arith)),
      read_suffix (decimal n) u no_digit
          ∙ whole_value (some (upper u)) (decimal n) (decimal-AreDigits n) (decimal_nonempty n)
          ∙ rw (factor, decimal-value n) (ap size (over_one (n * mult))),
    )

unfoldable pub occurrences : ℕ → Text → ℕ
occurrences sep [] = 0
occurrences sep (c ∷ cs) = (if c == sep then 1 else 0) + occurrences sep cs

length-onto_first :
    (c : ℕ) (parts : List Text) → 1 ≤ length parts → length (onto_first c parts) ≡ length parts
length-onto_first c [] h = absurd (omega arith)
length-onto_first c (part ∷ parts) h = refl

length-split : (sep : ℕ) (text : Text) → length (split sep text) ≡ suc (occurrences sep text)
unfolding split occurrences
length-split sep [] = refl
length-split sep (c ∷ cs) = elim (Bool-cases (c == sep)) [
  | inl here ↦ rw here (omega (arith, length-split sep cs))
  | inr other ↦ rw other (
      length-onto_first c (split sep cs) (omega (arith, length-split sep cs))
      ∙ omega (arith, length-split sep cs))
]

many_parts : (parts : List Text) → 3 ≤ length parts → decimal_point parts ≡ none
many_parts [] h = absurd (omega arith)
many_parts (a ∷ []) h = absurd (omega arith)
many_parts (a ∷ b ∷ []) h = absurd (omega arith)
many_parts (a ∷ b ∷ c ∷ parts) h = refl

two_points :
    (suffix : Option ℕ) (text : Text)
    → 2 ≤ occurrences 46 text
    → dehumanize_number suffix text ≡ refused not_valid_input
unfolding dehumanize_number
two_points suffix text h =
    ap (with_digits suffix) (many_parts (split 46 text) (omega (arith, length-split 46 text)))

occurrences_more :
    (sep d : ℕ) (text : Text) → occurrences sep text ≤ occurrences sep (text ++ d ∷ [])
unfolding occurrences
occurrences_more sep d [] = omega arith
occurrences_more sep d (c ∷ cs) = omega (arith, occurrences_more sep d cs)

-- A text with two points in front of its last character is refused as not valid, and so is no text
-- at all, as empty.
pub dehumanize_size-refused :
    (text : Text) (d : ℕ)
    → 2 ≤ occurrences 46 text
    → (dehumanize_size (text ++ d ∷ []) ≡ refused not_valid_input)
      × (dehumanize_size [] ≡ refused empty_input)
unfolding dehumanize_size
dehumanize_size-refused text d h = (
  elim (Bool-cases (is_digit d)) [
    | inl digit ↦
        read_no_suffix text d digit
        ∙ two_points none (text ++ d ∷ []) (omega (arith, occurrences_more 46 d text))
    | inr no_digit ↦ read_suffix text d no_digit ∙ two_points (some (upper d)) text h
  ],
  refl,
)
