-- ===== src/Align/Laws.antt =====
-- What align_up and align_down return for a block size that is a power of two, the only sizes that
-- the installer uses them with.
use native.Mathlib.Nat.{mod-lt, div-add-mod', mul-mod_left}
use subiquity.Base.{ℕ, ◌+◌, ◌-◌, ◌*◌, ◌/◌, ◌%◌, ◌^◌, ◌≤◌, ◌<◌, ◌≡◌, ap, ◌∙◌, arith}
use subiquity.Align.{align_up, align_down, mib}
use subiquity.Align.Bits.{bit_and-mask, pow_pos}

pub align_down-eq : (k x : ℕ) → align_down x (2 ^ k) ≡ x - x % 2 ^ k
unfolding align_down
align_down-eq k x = ap (λ (t : ℕ). x - t) (bit_and-mask k x)

pub align_up-eq : (k x : ℕ) → align_up x (2 ^ k) ≡ x + 2 ^ k - 1 - (x + 2 ^ k - 1) % 2 ^ k
unfolding align_up
align_up-eq k x = ap (λ (t : ℕ). x + 2 ^ k - 1 - t) (bit_and-mask k (x + 2 ^ k - 1))

-- Taking the remainder off leaves a multiple, and multiples below `x` are below that.
module _ (m : ℕ) (positive : 0 < m) where
  sub_mod-eq : (x : ℕ) → x - x % m ≡ x / m * m
  sub_mod-eq x = omega (arith, div-add-mod' x m)

  pub sub_mod-multiple : (x : ℕ) → (x - x % m) % m ≡ 0
  sub_mod-multiple x = ap (λ (t : ℕ). t % m) (sub_mod-eq x) ∙ mul-mod_left (x / m) m

  multiple-le : (q p : ℕ) → q * m < p * m + m → q ≤ p
  multiple-le q p h = grind arith

  -- A multiple that is less than one block above another one is at most that.
  pub multiples-le : (r y : ℕ) → r % m ≡ 0 → y % m ≡ 0 → r < y + m → r ≤ y
  multiples-le r y whole_r whole_y h =
      let le : r / m ≤ y / m =
        multiple-le (r / m) (y / m) (omega (arith, div-add-mod' r m, div-add-mod' y m)) in
      let scaled : r / m * m ≤ y / m * m = grind arith in
      omega (arith, div-add-mod' r m, div-add-mod' y m)

  pub sub_mod_greatest : (x y : ℕ) → y % m ≡ 0 → y ≤ x → y ≤ x - x % m
  sub_mod_greatest x y whole below =
      multiples-le y (x - x % m) whole (sub_mod-multiple x) (omega (arith, mod-lt x positive))

module _ (k x : ℕ) where
  pub align_up_lem :
      (x ≤ align_up x (2 ^ k)) × (align_up x (2 ^ k) < x + 2 ^ k) × (align_up x (2 ^ k) % 2 ^ k ≡ 0)
  align_up_lem =
      let e = align_up-eq k x in
      let p = pow_pos k in
      let z = x + 2 ^ k - 1 in
      (
        omega (arith, e, p, mod-lt z p),
        omega (arith, e, p),
        ap (λ (t : ℕ). t % 2 ^ k) e ∙ sub_mod-multiple (2 ^ k) p z,
      )

  pub align_down_lem :
      (align_down x (2 ^ k) ≤ x)
      × (x < align_down x (2 ^ k) + 2 ^ k)
      × (align_down x (2 ^ k) % 2 ^ k ≡ 0)
  align_down_lem =
      let e = align_down-eq k x in
      let p = pow_pos k in
      (
        omega (arith, e),
        omega (arith, e, mod-lt x p),
        ap (λ (t : ℕ). t % 2 ^ k) e ∙ sub_mod-multiple (2 ^ k) p x,
      )

-- Rounding up by a power of two gives a multiple of it, at least the size and less than one block
-- above it, and no multiple `y` that is at least the size is smaller.
pub align_up-least :
    (k x y : ℕ)
    → y % 2 ^ k ≡ 0
    → x ≤ y
    → (x ≤ align_up x (2 ^ k))
      × (align_up x (2 ^ k) < x + 2 ^ k)
      × (align_up x (2 ^ k) % 2 ^ k ≡ 0)
      × (align_up x (2 ^ k) ≤ y)
align_up-least k x y whole above =
    let (le, lt, multiple) = align_up_lem k x in
    (
      le,
      lt,
      multiple,
      multiples-le (2 ^ k) (pow_pos k) (align_up x (2 ^ k)) y multiple whole (omega (arith, lt)),
    )

-- Rounding down by a power of two gives a multiple of it, at most the size and less than one block
-- below it, and no multiple `y` that is at most the size is larger.
pub align_down-greatest :
    (k x y : ℕ)
    → y % 2 ^ k ≡ 0
    → y ≤ x
    → (align_down x (2 ^ k) ≤ x)
      × (x < align_down x (2 ^ k) + 2 ^ k)
      × (align_down x (2 ^ k) % 2 ^ k ≡ 0)
      × (y ≤ align_down x (2 ^ k))
align_down-greatest k x y whole below =
    let (le, lt, multiple) = align_down_lem k x in
    (
      le,
      lt,
      multiple,
      multiples-le (2 ^ k) (pow_pos k) y (align_down x (2 ^ k)) whole multiple (omega (arith, lt)),
    )

pub align_up-mib : (x : ℕ) → align_up x mib ≡ x + mib - 1 - (x + mib - 1) % mib
align_up-mib x = align_up-eq 20 x

pub align_down-mib : (x : ℕ) → align_down x mib ≡ x - x % mib
align_down-mib x = align_down-eq 20 x
