-- ===== src/Align/Bits.antt =====
-- The masks that the alignment functions use: clearing the low `k` bits is rounding by `2 ^ k`.
use Prim.Native.Nat.{min, digits, bit_and, bit_and-bitwise}
use subiquity.Base.{ℕ, zero, suc, ◌+◌, ◌-◌, ◌*◌, ◌/◌, ◌%◌, ◌^◌, ◌≤◌, ◌<◌, ◌≡◌, refl, ap, ◌∙◌, arith}
use native.Mathlib.Nat.{pow-suc, mod-lt, div-add-mod, add-mul-mod_self_right, mod-eq_of_lt}

-- The digit recursion behind `bit_and` needs no more rounds than its first number.
abbrev rounds : ℕ → ℕ → ℕ → ℕ
rounds fuel a b = digits (λ _. zero) min fuel a b

rounds_enough : (f g a b : ℕ) → a ≤ f → a ≤ g → rounds f a b ≡ rounds g a b
rounds_enough zero zero a b p q = refl
rounds_enough zero (suc g) zero b p q = refl
rounds_enough zero (suc g) (suc a) b p q = absurd (omega arith)
rounds_enough (suc f) zero zero b p q = refl
rounds_enough (suc f) zero (suc a) b p q = absurd (omega arith)
rounds_enough (suc f) (suc g) zero b p q = refl
rounds_enough (suc f) (suc g) (suc a) b p q =
    omega (arith, rounds_enough f g (suc a / 2) (b / 2) (omega arith) (omega arith))

bit_and-lowest : (a b : ℕ) → bit_and a b ≡ bit_and (a / 2) (b / 2) * 2 + min (a % 2) (b % 2)
bit_and-lowest zero b = omega (arith, bit_and-bitwise 0 b, bit_and-bitwise 0 (b / 2))
bit_and-lowest (suc a) b =
    let half = suc a / 2 in
    omega (
      arith,
      bit_and-bitwise (suc a) b,
      bit_and-bitwise half (b / 2),
      rounds_enough a half half (b / 2) (omega arith) (omega arith),
    )

bit_and-zero_below : (n a : ℕ) → a ≤ n → bit_and a 0 ≡ 0
bit_and-zero_below zero zero h = bit_and-bitwise 0 0
bit_and-zero_below zero (suc a) h = absurd (omega arith)
bit_and-zero_below (suc n) zero h = bit_and-bitwise 0 0
bit_and-zero_below (suc n) (suc a) h =
    omega (arith, bit_and-lowest (suc a) 0, bit_and-zero_below n (suc a / 2) (omega arith))

pub pow_pos : (k : ℕ) → 0 < 2 ^ k
pow_pos zero = omega arith
pow_pos (suc k) = omega (arith, pow-suc 2 k, pow_pos k)

-- `x & (2 ^ k - 1)` is `x % 2 ^ k`.
pub bit_and-mask : (k a : ℕ) → bit_and a (2 ^ k - 1) ≡ a % 2 ^ k
bit_and-mask zero a = omega (arith, bit_and-zero_below a a (omega arith))
bit_and-mask (suc k) a =
    let b = 2 ^ k in
    let low = a / 2 % b * 2 + a % 2 in
    let small : low < b * 2 = omega (arith, pow_pos k, mod-lt (a / 2) (pow_pos k)) in
    let whole : a ≡ low + a / 2 / b * (b * 2) = omega (arith, div-add-mod (a / 2) b) in
    let rem : a % (b * 2) ≡ low =
      ap (λ (t : ℕ). t % (b * 2)) whole
      ∙ add-mul-mod_self_right low (a / 2 / b) (b * 2)
      ∙ mod-eq_of_lt small in
    let mask : (2 ^ suc k - 1) / 2 ≡ b - 1 = omega (arith, pow-suc 2 k, pow_pos k) in
    let odd : (2 ^ suc k - 1) % 2 ≡ 1 = omega (arith, pow-suc 2 k, pow_pos k) in
    let half : bit_and (a / 2) ((2 ^ suc k - 1) / 2) ≡ a / 2 % b =
      rw mask (bit_and-mask k (a / 2)) in
    let e = pow-suc 2 k in
    omega (arith, bit_and-lowest a (2 ^ suc k - 1), half, odd, rem, ap (λ (t : ℕ). a % t) e)
