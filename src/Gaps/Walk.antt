-- ===== src/Gaps/Walk.antt =====
-- The rounding functions `au` and `ad` of find_disk_gaps_v2, and the order in which partitions and
-- gaps lie on a disk.
use native.Mathlib.Nat.{mod-lt, add-mod_right}
use subiquity.Base.{
  ℕ, ◌+◌, ◌-◌, ◌%◌, ◌≤◌, ◌<◌, ◌≡◌, refl, ap, ◌∙◌, inl, inr, Bool, true, false, Option, none, some,
  List, [], ◌∷◌, arith, leb, ◌==◌, if◌then◌else◌, Bool-cases,
}
use subiquity.Base.Ints.{ℤ, pos, negsuc}
use subiquity.Align.Laws.{sub_mod-multiple, sub_mod_greatest, multiples-le}
use subiquity.Storage.{extended, flag_eq, PTable, Partition, is_logical}
use subiquity.Gaps.{PartOrGap, part, gap, Gap, au, ad, ad_difference, reaches}

module _ (a : ℕ) (positive : 0 < a) where
  pub ad-le : (v : ℕ) → ad a v ≤ v
  unfolding ad
  ad-le v = omega arith

  pub ad-multiple : (v : ℕ) → ad a v % a ≡ 0
  unfolding ad
  ad-multiple v = sub_mod-multiple a positive v

  pub ad-greatest : (v y : ℕ) → y % a ≡ 0 → y ≤ v → y ≤ ad a v
  unfolding ad
  ad-greatest v y = sub_mod_greatest a positive v y

  pub le-au : (v : ℕ) → v ≤ au a v
  unfolding au
  le-au v = ground (arith, mod-lt v positive)

  pub au-multiple : (v : ℕ) → au a v % a ≡ 0
  unfolding au
  au-multiple v = elim (Bool-cases (v % a == 0)) [
    | inl whole ↦ rw whole (ground arith)
    | inr rest ↦
        let regroup : v + a - v % a ≡ v - v % a + a = omega (arith, mod-lt v positive) in
        rw rest (
          ap (λ (t : ℕ). t % a) regroup
          ∙ add-mod_right (v - v % a) a
          ∙ sub_mod-multiple a positive v)
  ]

  pub au-lt : (v : ℕ) → au a v < v + a
  unfolding au
  au-lt v = ground (arith, mod-lt v positive)

  pub au-least : (v y : ℕ) → y % a ≡ 0 → v ≤ y → au a v ≤ y
  au-least v y whole h =
      multiples-le a positive (au a v) y (au-multiple v) whole (omega (arith, au-lt v))

  pub ad_difference-le : (v w e : ℕ) → ad_difference a v w ≡ pos e → (e + w ≤ v) × (e % a ≡ 0)
  unfolding ad_difference
  ad_difference-le v w e h = ground (arith, sub_mod-multiple a positive (v - w))

  -- A multiple below the difference is below the rounded difference, which is then no negative one.
  pub ad_difference-ge :
      (v w y : ℕ) → y % a ≡ 0 → y + w ≤ v → (e : ℕ) × (ad_difference a v w ≡ pos e) × (y ≤ e)
  unfolding ad_difference
  ad_difference-ge v w y whole h =
      let fits : leb w v ≡ true = ground arith in
      (ad a (v - w), rw fits refl, ad-greatest (v - w) y whole (omega arith))

-- A gap end that does not reach `x` is at most `x`.
pub below : (z : ℤ) (x : ℕ) → reaches z x ≡ false → (e : ℕ) → z ≡ pos e → e ≤ x
below (negsuc n) x h e q = cc
below (pos n) x h e q = ground arith

-- The order on a disk. `lo` is where the last partition ended, or an extended one began, and `ext`
-- where the extended partition ends that is open there. Each partition and gap starts behind `lo`.
-- A logical partition lies in the open extended one, and a primary one behind its last aligned
-- offset; a gap lies in the open extended partition exactly if it says so.
module _ (a : ℕ) (ptable : Option PTable) where
  abbrev pub Follows : Option ℕ → Partition → Bool → Type 0
  Follows none p true = ⊥
  Follows none p false = Unit
  Follows (some x) p true = (p.offset < x) × (p.offset + p.size ≤ x)
  Follows (some x) p false = x ≤ ad a p.offset

  abbrev pub open_after : Option ℕ → Partition → Option ℕ
  open_after ext p =
      if flag_eq p.flag extended
      then some (p.offset + p.size)
      else if is_logical ptable p
      then ext
      else none

  abbrev pub next_start : Partition → ℕ
  next_start p = if flag_eq p.flag extended then p.offset else p.offset + p.size

  abbrev pub GapFollows : Option ℕ → Gap → Bool → Type 0
  GapFollows none g true = ⊥
  GapFollows (some x) g true = g.offset + g.size ≤ x
  GapFollows none g false = Unit
  GapFollows (some x) g false = x ≤ g.offset

  abbrev pub open_after_gap : Option ℕ → Gap → Option ℕ
  open_after_gap ext g = if g.in_extended then ext else none

  abbrev pub IsLaidOut : Option ℕ → ℕ → List PartOrGap → Type 0
  IsLaidOut ext lo [] = Unit
  IsLaidOut ext lo (part p ∷ rest) =
      (lo ≤ p.offset)
      × Follows ext p (is_logical ptable p)
      × IsLaidOut (open_after ext p) (next_start p) rest
  IsLaidOut ext lo (gap g ∷ rest) =
      (lo ≤ g.offset)
      × GapFollows ext g g.in_extended
      × IsLaidOut (open_after_gap ext g) (g.offset + g.size) rest
