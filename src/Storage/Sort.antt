-- ===== src/Storage/Sort.antt =====
-- `sorted(parts, key=...)` of subiquity/models/filesystem.py: a stable sort, by insertion.
use mathlib.Core.List.{Perm}
use mathlib.Core.List.Perm
use subiquity.Base.{
  ℕ, ◌≤◌, ◌≡◌, refl, List, [], ◌∷◌, leb, if◌then◌else◌, All, All-weaken, arith, Bool-cases, inl,
  inr,
}

module _ {A : Type 0} (key : A → ℕ) where
  -- In front of the first element whose key is not smaller, so that equal keys keep their order.
  unfoldable pub insert : A → List A → List A
  insert x [] = x ∷ []
  insert x (y ∷ ys) = if leb (key x) (key y) then x ∷ y ∷ ys else y ∷ insert x ys

  unfoldable pub sorted : List A → List A
  unfolding insert
  sorted [] = []
  sorted (x ∷ xs) = insert x (sorted xs)

  abbrev pub IsSorted : List A → Type 0
  IsSorted [] = Unit
  IsSorted (x ∷ xs) = All (λ y. key x ≤ key y) xs × IsSorted xs

  pub All-insert : (P : A → Type 0) (x : A) (xs : List A) → P x → All P xs → All P (insert x xs)
  unfolding insert
  All-insert P x [] h k = (h, tt)
  All-insert P x (y ∷ ys) h k = elim (Bool-cases (leb (key x) (key y))) [
    | inl first ↦ rw first (h, k)
    | inr later ↦ rw later (k.0, All-insert P x ys h k.1)
  ]

  pub All-sorted : (P : A → Type 0) (xs : List A) → All P xs → All P (sorted xs)
  unfolding sorted
  All-sorted P [] h = tt
  All-sorted P (x ∷ xs) h = All-insert P x (sorted xs) h.0 (All-sorted P xs h.1)

  IsSorted-insert : (x : A) (xs : List A) → IsSorted xs → IsSorted (insert x xs)
  unfolding insert
  IsSorted-insert x [] h = (tt, tt)
  IsSorted-insert x (y ∷ ys) h = elim (Bool-cases (leb (key x) (key y))) [
    | inl first ↦
        let le : key x ≤ key y = ground arith in
        rw first ((le, All-weaken _ _ (λ z (k : key y ≤ key z). omega arith) ys h.0), h)
    | inr later ↦
        let le : key y ≤ key x = ground arith in
        rw later (All-insert _ x ys le h.0, IsSorted-insert x ys h.1)
  ]

  -- The result is sorted.
  pub sorted-IsSorted : (xs : List A) → IsSorted (sorted xs)
  unfolding sorted
  sorted-IsSorted [] = tt
  sorted-IsSorted (x ∷ xs) = IsSorted-insert x (sorted xs) (sorted-IsSorted xs)

  insert-perm : (x : A) (xs : List A) → Perm (insert x xs) (x ∷ xs)
  unfolding insert
  insert-perm x [] = Perm.rfl
  insert-perm x (y ∷ ys) = elim (Bool-cases (leb (key x) (key y))) [
    | inl first ↦ rw first Perm.rfl
    | inr later ↦ rw later (Perm.trans (Perm.cons y (insert-perm x ys)) (Perm.swap x y ys))
  ]

  -- The result holds the same elements.
  pub sorted-perm : (xs : List A) → Perm (sorted xs) xs
  unfolding sorted
  sorted-perm [] = Perm.rfl
  sorted-perm (x ∷ xs) = Perm.trans (insert-perm x (sorted xs)) (Perm.cons x (sorted-perm xs))

  insert-eq-cons : (x : A) (xs : List A) → All (λ y. key x ≤ key y) xs → insert x xs ≡ x ∷ xs
  unfolding insert
  insert-eq-cons x [] h = refl
  insert-eq-cons x (y ∷ ys) h = ground arith

  -- A sorted list is left as it is.
  pub sorted-eq_self : (xs : List A) → IsSorted xs → sorted xs ≡ xs
  unfolding sorted
  sorted-eq_self [] h = refl
  sorted-eq_self (x ∷ xs) h = rw (sorted-eq_self xs h.1) (insert-eq-cons x xs h.0)

  insert-All : (P : A → Type 0) (x : A) (xs : List A) → All P (insert x xs) → P x × All P xs
  unfolding insert
  insert-All P x [] h = (h.0, tt)
  insert-All P x (y ∷ ys) h = elim (Bool-cases (leb (key x) (key y))) [
    | inl first ↦ rw first at h
    | inr later ↦
        let k : All P (y ∷ insert x ys) = rw later at h in
        let (px, rest) = insert-All P x ys k.1 in (px, (k.0, rest))
  ]

  pub sorted-All : (P : A → Type 0) (xs : List A) → All P (sorted xs) → All P xs
  unfolding sorted
  sorted-All P [] h = tt
  sorted-All P (x ∷ xs) h =
      let (px, rest) = insert-All P x (sorted xs) h in (px, sorted-All P xs rest)
