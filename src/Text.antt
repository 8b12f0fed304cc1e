-- ===== src/Text.antt =====
-- `dehumanize_size` of subiquity/models/filesystem.py, which reads a size that a user or an
-- autoinstall file gives. A text is the list of its code points; the texts are ASCII.
pub mod Number
pub mod Sizes
pub mod Example
use subiquity.Base.{
  ℕ, zero, suc, ◌+◌, ◌-◌, ◌*◌, ◌/◌, ◌^◌, Bool, true, false, not, ◌&&◌, ◌||◌, Option, none, some,
  List, [], ◌∷◌, ◌++◌, ◌==◌, leb, if◌then◌else◌, length,
}
use subiquity.Base.Ints.{ℤ, pos, negsuc}

abbrev pub Text : Type 0
Text = List ℕ

-- `str.isdigit`
abbrev pub is_digit : ℕ → Bool
is_digit c = leb 48 c && leb c 57

-- `str.upper`
abbrev pub upper : ℕ → ℕ
upper c = if leb 97 c && leb c 122 then c - 32 else c

abbrev pub is_space : ℕ → Bool
is_space c = (leb 9 c && leb c 13) || (leb 28 c && leb c 32)

abbrev pub is_blank : Text → Bool
is_blank [] = true
is_blank (c ∷ cs) = false

-- `size[-1]`
unfoldable pub last : ℕ → Text → ℕ
last c [] = c
last c (d ∷ cs) = last d cs

-- `size[:-1]`
unfoldable pub without_last : ℕ → Text → Text
without_last c [] = []
without_last c (d ∷ cs) = c ∷ without_last d cs

abbrev pub onto_first : ℕ → List Text → List Text
onto_first c [] = (c ∷ []) ∷ []
onto_first c (part ∷ parts) = (c ∷ part) ∷ parts

-- `str.split`
unfoldable pub split : ℕ → Text → List Text
split sep [] = [] ∷ []
split sep (c ∷ cs) = let parts = split sep cs in if c == sep then [] ∷ parts else onto_first c parts

unfoldable pub strip_left : Text → Text
strip_left [] = []
strip_left (c ∷ cs) = let rest = strip_left cs in if is_space c then rest else c ∷ cs

unfoldable pub strip_right : Text → Text
strip_right [] = []
strip_right (c ∷ cs) =
    let rest = strip_right cs in if is_space c && is_blank rest then [] else c ∷ rest

-- One character of a number: the value so far and whether a digit was just read. An underscore
-- stands between digits.
abbrev pub read_char : ℕ → Bool → ℕ → Option (ℕ × Bool)
read_char acc after_digit c =
    if is_digit c
    then some (acc * 10 + (c - 48), true)
    else if c == 95 && after_digit
    then some (acc, false)
    else none

unfoldable pub read_digits : ℕ → Bool → Text → Option ℕ
read_digits acc after_digit [] = if after_digit then some acc else none
read_digits acc after_digit (c ∷ cs) = elim (read_char acc after_digit c) [
  | none ↦ none
  | some (acc, after) ↦ read_digits acc after cs
]

-- The number below zero of this size.
abbrev pub negate : ℕ → ℤ
negate zero = pos zero
negate (suc n) = negsuc n

abbrev pub to_signed : (ℕ → ℤ) → Option ℕ → Option ℤ
to_signed f none = none
to_signed f (some n) = some (f n)

abbrev pub read_signed : Text → Option ℤ
read_signed [] = none
read_signed (c ∷ cs) =
    if c == 45
    then to_signed negate (read_digits 0 false cs)
    else if c == 43
    then to_signed pos (read_digits 0 false cs)
    else to_signed pos (read_digits 0 false (c ∷ cs))

-- `int(size)`; `none` is its ValueError.
unfoldable pub int : Text → Option ℤ
unfolding strip_left strip_right read_digits
int size = read_signed (strip_right (strip_left size))

-- `HUMAN_UNITS`: B, K, M, G, T and P
abbrev pub human_units : List ℕ
human_units = 66 ∷ 75 ∷ 77 ∷ 71 ∷ 84 ∷ 80 ∷ []

-- `HUMAN_UNITS.index`
unfoldable pub index : ℕ → List ℕ → Option ℕ
index u [] = none
index u (x ∷ xs) =
    let rest = index u xs in
    if u == x then some 0 else elim rest [ none ↦ none | some i ↦ some (suc i) ]

-- The ValueErrors.
pub data SizeError : Type 0 where
  empty_input not_valid_input unrecognized_suffix negative_input : SizeError

pub data Result : Type 0 where
  size : ℕ → Result
  refused : SizeError → Result

-- The digits of the number, and what it is to be divided by.
abbrev pub decimal_point : List Text → Option (Text × ℕ)
decimal_point [] = none
decimal_point (whole ∷ []) = some (whole, 1)
decimal_point (whole ∷ fraction ∷ []) = some (whole ++ fraction, 10 ^ length fraction)
decimal_point (whole ∷ fraction ∷ part ∷ parts) = none

-- The factor of a suffix; `none` where it is not in HUMAN_UNITS.
abbrev pub multiplier : Option ℕ → Option ℕ
multiplier none = some 1
multiplier (some suffix) = elim (index suffix human_units) [
  | none ↦ none
  | some i ↦ some (2 ^ (10 * i))
]

abbrev pub scaled : ℤ → ℕ → ℕ → Result
scaled (pos num) mult div = size (num * mult / div)
scaled (negsuc num) mult div = refused negative_input

abbrev pub with_multiplier : ℤ → ℕ → Option ℕ → Result
with_multiplier num div none = refused unrecognized_suffix
with_multiplier num div (some mult) = scaled num mult div

abbrev pub with_number : Option ℕ → ℕ → Option ℤ → Result
with_number suffix div none = refused not_valid_input
with_number suffix div (some num) = with_multiplier num div (multiplier suffix)

abbrev pub with_digits : Option ℕ → Option (Text × ℕ) → Result
with_digits suffix none = refused not_valid_input
with_digits suffix (some (digits, div)) = with_number suffix div (int digits)

unfoldable pub dehumanize_number : Option ℕ → Text → Result
unfolding split int index
dehumanize_number suffix text = with_digits suffix (decimal_point (split 46 text))

unfoldable pub dehumanize_size : Text → Result
unfolding dehumanize_number last without_last
dehumanize_size [] = refused empty_input
dehumanize_size (c ∷ cs) =
    if is_digit (last c cs)
    then dehumanize_number none (c ∷ cs)
    else dehumanize_number (some (upper (last c cs))) (without_last c cs)
