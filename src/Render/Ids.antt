-- ===== src/Render/Ids.antt =====
-- Python's `in` on lists and sets of ids, and the equality of two sets of ids.
use subiquity.Base.{
  ℕ, ◌+◌, ◌≤◌, ◌<◌, ◌≡◌, refl, inl, inr, Bool, true, false, ◌&&◌, ◌||◌, List, [], ◌∷◌, ◌++◌, ◌==◌,
  if◌then◌else◌, arith, ==_iff, all, length, Bool-cases,
}

unfoldable pub mem : ℕ → List ℕ → Bool
mem x [] = false
mem x (y ∷ ys) = x == y || mem x ys

unfoldable pub same_ids : List ℕ → List ℕ → Bool
unfolding mem
same_ids xs ys = all (λ x. mem x ys) xs && all (λ y. mem y xs) ys

pub mem-append : (x : ℕ) (xs ys : List ℕ) → mem x (xs ++ ys) ≡ (mem x xs || mem x ys)
unfolding mem
mem-append x [] ys = refl
mem-append x (y ∷ xs) ys = ground (arith, mem-append x xs ys)

pub mem-snoc : (x y : ℕ) (xs : List ℕ) → mem x (xs ++ y ∷ []) ≡ (mem x xs || x == y)
unfolding mem
mem-snoc x y [] = ground arith
mem-snoc x y (z ∷ xs) = ground (arith, mem-snoc x y xs)

-- Each id of the first list is in the second.
abbrev pub Within : List ℕ → List ℕ → Type 0
Within xs ys = (x : ℕ) → mem x xs ≡ true → mem x ys ≡ true

abbrev pub Disjoint : List ℕ → List ℕ → Type 0
Disjoint xs ys = (x : ℕ) → mem x xs ≡ true → mem x ys ≡ false

abbrev pub IsNodup : List ℕ → Type 0
IsNodup [] = Unit
IsNodup (x ∷ xs) = (mem x xs ≡ false) × IsNodup xs

pub all-true :
    (p : ℕ → Bool) (xs : List ℕ) → all p xs ≡ true → (x : ℕ) → mem x xs ≡ true → p x ≡ true
unfolding mem
all-true p [] h x m = cc
all-true p (y ∷ ys) h x m = elim (Bool-cases (x == y)) [
  | inl same ↦ let e : x ≡ y = (==_iff x y).0 same in rw e (ground arith)
  | inr other ↦ all-true p ys (ground arith) x (ground arith)
]

-- Where not all pass, one does not.
pub all-false :
    (p : ℕ → Bool) (xs : List ℕ) → all p xs ≡ false → (x : ℕ) × (mem x xs ≡ true) × (p x ≡ false)
unfolding mem
all-false p [] h = cc
all-false p (y ∷ ys) h = elim (Bool-cases (p y)) [
  | inr fails ↦ (y, ground arith, fails)
  | inl passes ↦ let (x, m, f) = all-false p ys (ground arith) in (x, rw m (ground arith), f)
]

-- How many ids of `univ` are in `xs`.
unfoldable pub count_in : List ℕ → List ℕ → ℕ
count_in xs [] = 0
count_in xs (u ∷ univ) = (if mem u xs then 1 else 0) + count_in xs univ

pub count_in-le : (xs univ : List ℕ) → count_in xs univ ≤ length univ
unfolding count_in
count_in-le xs [] = omega arith
count_in-le xs (u ∷ univ) = ground (arith, count_in-le xs univ)

pub count_in_mono : (xs ys univ : List ℕ) → Within xs ys → count_in xs univ ≤ count_in ys univ
unfolding count_in
count_in_mono xs ys [] h = omega arith
count_in_mono xs ys (u ∷ univ) h = ground (arith, h u, count_in_mono xs ys univ h)

-- One more id of `univ` counts.
pub count_in-lt :
    (xs ys univ : List ℕ) (x : ℕ)
    → Within xs ys
    → mem x univ ≡ true
    → mem x ys ≡ true
    → mem x xs ≡ false
    → count_in xs univ < count_in ys univ
unfolding count_in mem
count_in-lt xs ys [] x h m n o = cc
count_in-lt xs ys (u ∷ univ) x h m n o = elim (Bool-cases (x == u)) [
  | inl same ↦
      let e : x ≡ u = (==_iff x u).0 same in
      let in_ys : mem u ys ≡ true = rw (← e) n in
      let not_xs : mem u xs ≡ false = rw (← e) o in ground (arith, count_in_mono xs ys univ h)
  | inr other ↦ ground (arith, h u, count_in-lt xs ys univ x h (ground arith) n o)
]

pub IsNodup-snoc : (xs : List ℕ) (y : ℕ) → IsNodup xs → mem y xs ≡ false → IsNodup (xs ++ y ∷ [])
unfolding mem
IsNodup-snoc [] y h n = (refl, tt)
IsNodup-snoc (x ∷ xs) y h n =
    (ground (arith, mem-snoc x y xs), IsNodup-snoc xs y h.1 (ground arith))
