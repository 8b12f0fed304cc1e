-- ===== src/Text/Number.antt =====
-- Texts of digits: the number they stand for, what `int` makes of them, and the digits of a number.
use subiquity.Base.{
  ℕ, zero, suc, ◌+◌, ◌-◌, ◌*◌, ◌/◌, ◌%◌, ◌≤◌, ◌<◌, ◌≡◌, refl, ap, ◌∙◌, inl, inr, Bool, true, false,
  Option, none, some, [], ◌∷◌, ◌++◌, ◌==◌, ltb, if◌then◌else◌, arith, tests, Bool-cases,
}
use subiquity.Base.Ints.{pos}
use subiquity.Text.{
  Text, is_digit, is_space, split, last, without_last, strip_left, strip_right, read_char,
  read_digits, read_signed, to_signed, int,
}

abbrev pub AreDigits : Text → Type 0
AreDigits [] = Unit
AreDigits (c ∷ cs) = (is_digit c ≡ true) × AreDigits cs

-- The number that digits stand for behind a number read before.
unfoldable pub value_from : ℕ → Text → ℕ
value_from acc [] = acc
value_from acc (c ∷ cs) = value_from (acc * 10 + (c - 48)) cs

abbrev pub value : Text → ℕ
value ds = value_from 0 ds

read_char_digit :
    (acc : ℕ) (after_digit : Bool) (c : ℕ)
    → is_digit c ≡ true
    → read_char acc after_digit c ≡ some (acc * 10 + (c - 48), true)
read_char_digit acc after_digit c h = rw h refl

read_more :
    (acc : ℕ) (ds : Text) → AreDigits ds → read_digits acc true ds ≡ some (value_from acc ds)
unfolding read_digits value_from
read_more acc [] h = refl
read_more acc (c ∷ cs) h =
    ap
      (λ (m : Option (ℕ × Bool)). elim m [
        | none ↦ none
        | some (acc, after) ↦ read_digits acc after cs
      ])
      (read_char_digit acc true c h.0)
    ∙ read_more (acc * 10 + (c - 48)) cs h.1

read_value :
    (c : ℕ) (cs : Text) → AreDigits (c ∷ cs) → read_digits 0 false (c ∷ cs) ≡ some (value (c ∷ cs))
unfolding read_digits value_from
read_value c cs h =
    ap
      (λ (m : Option (ℕ × Bool)). elim m [
        | none ↦ none
        | some (acc, after) ↦ read_digits acc after cs
      ])
      (read_char_digit 0 false c h.0)
    ∙ read_more (0 * 10 + (c - 48)) cs h.1

digit_not_space : (c : ℕ) → is_digit c ≡ true → is_space c ≡ false
digit_not_space c h = grind tests

strip_right_digits : (ds : Text) → AreDigits ds → strip_right ds ≡ ds
unfolding strip_right
strip_right_digits [] h = refl
strip_right_digits (c ∷ cs) h = rw (digit_not_space c h.0, strip_right_digits cs h.1) refl

strip_left_digits : (ds : Text) → AreDigits ds → strip_left ds ≡ ds
unfolding strip_left
strip_left_digits [] h = refl
strip_left_digits (c ∷ cs) h = rw (digit_not_space c h.0) refl

read_unsigned :
    (c : ℕ) (cs : Text)
    → is_digit c ≡ true
    → read_signed (c ∷ cs) ≡ to_signed pos (read_digits 0 false (c ∷ cs))
read_unsigned c cs h =
    let no_minus : (c == 45) ≡ false = grind tests in
    let no_plus : (c == 43) ≡ false = grind tests in rw (no_minus, no_plus) refl

pub int-value :
    (c : ℕ) (cs : Text) → AreDigits (c ∷ cs) → int (c ∷ cs) ≡ some (pos (value (c ∷ cs)))
unfolding int
int-value c cs h =
    rw (strip_left_digits (c ∷ cs) h, strip_right_digits (c ∷ cs) h)
      (read_unsigned c cs h.0 ∙ ap (to_signed pos) (read_value c cs h))

digit_not_point : (c : ℕ) → is_digit c ≡ true → (c == 46) ≡ false
digit_not_point c h = grind tests

pub split_whole : (ds : Text) → AreDigits ds → split 46 ds ≡ ds ∷ []
unfolding split
split_whole [] h = refl
split_whole (c ∷ cs) h = rw (digit_not_point c h.0, split_whole cs h.1) refl

pub split_point :
    (ds fs : Text) → AreDigits ds → AreDigits fs → split 46 (ds ++ 46 ∷ fs) ≡ ds ∷ fs ∷ []
unfolding split
split_point [] fs h k = rw (split_whole fs k) refl
split_point (c ∷ cs) fs h k = rw (digit_not_point c h.0, split_point cs fs h.1 k) refl

pub last_snoc : (c : ℕ) (cs : Text) (d : ℕ) → last c (cs ++ d ∷ []) ≡ d
unfolding last
last_snoc c [] d = refl
last_snoc c (e ∷ cs) d = last_snoc e cs d

pub without_last_snoc : (c : ℕ) (cs : Text) (d : ℕ) → without_last c (cs ++ d ∷ []) ≡ c ∷ cs
unfolding without_last
without_last_snoc c [] d = refl
without_last_snoc c (e ∷ cs) d = ap (λ (xs : Text). c ∷ xs) (without_last_snoc e cs d)

pub AreDigits-append : (ds fs : Text) → AreDigits ds → AreDigits fs → AreDigits (ds ++ fs)
AreDigits-append [] fs h k = k
AreDigits-append (c ∷ cs) fs h k = (h.0, AreDigits-append cs fs h.1 k)

-- The digits of `n`, the last one last.
unfoldable pub digits_of : (fuel : ℕ) → ℕ → Text
digits_of zero n = []
digits_of (suc fuel) n =
    let front = digits_of fuel (n / 10) in
    if ltb n 10 then (48 + n) ∷ [] else front ++ (48 + n % 10) ∷ []

abbrev pub decimal : ℕ → Text
decimal n = digits_of (suc n) n

value_from_snoc :
    (acc : ℕ) (ds : Text) (d : ℕ)
    → value_from acc (ds ++ d ∷ []) ≡ value_from acc ds * 10 + (d - 48)
unfolding value_from
value_from_snoc acc [] d = refl
value_from_snoc acc (c ∷ cs) d = value_from_snoc (acc * 10 + (c - 48)) cs d

digits_of-value : (fuel n : ℕ) → n < fuel → value (digits_of fuel n) ≡ n
unfolding digits_of value_from
digits_of-value zero n h = absurd (omega arith)
digits_of-value (suc fuel) n h = elim (Bool-cases (ltb n 10)) [
  | inl small ↦ rw small (omega arith)
  | inr large ↦
      rw (large, value_from_snoc 0 (digits_of fuel (n / 10)) (48 + n % 10))
        (let big : 10 ≤ n = grind tests in
          rw (digits_of-value fuel (n / 10) (omega arith)) (omega arith))
]

digits_of-AreDigits : (fuel n : ℕ) → AreDigits (digits_of fuel n)
unfolding digits_of
digits_of-AreDigits zero n = tt
digits_of-AreDigits (suc fuel) n = elim (Bool-cases (ltb n 10)) [
  | inl small ↦ rw small (grind tests, tt)
  | inr large ↦ rw large (
      AreDigits-append (digits_of fuel (n / 10)) ((48 + n % 10) ∷ [])
        (digits_of-AreDigits fuel (n / 10)) (grind tests, tt))
]

pub decimal-value : (n : ℕ) → value (decimal n) ≡ n
decimal-value n = digits_of-value (suc n) n (omega arith)

pub decimal-AreDigits : (n : ℕ) → AreDigits (decimal n)
decimal-AreDigits n = digits_of-AreDigits (suc n) n

-- It ends with a digit.
pub decimal_last :
    (n : ℕ) → (front : Text) × (d : ℕ) × (decimal n ≡ front ++ d ∷ []) × (is_digit d ≡ true)
unfolding digits_of
decimal_last n = elim (Bool-cases (ltb n 10)) [
  | inl small ↦ ([], 48 + n, rw small refl, grind tests)
  | inr large ↦ (digits_of n (n / 10), 48 + n % 10, rw large refl, grind tests)
]
