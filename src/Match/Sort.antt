-- ===== src/Match/Sort.antt =====
-- The stable sort: by two sorts, elements that the second leaves equal keep the order of the first.
use subiquity.Base.{◌≡◌, inl, inr, Bool, true, false, List, [], ◌∷◌, All, In, Bool-cases}
use subiquity.Match.{insert_by, sort_by}

-- `<` of numbers or of tuples
pub record IsOrder {A : Type 0} (lt : A → A → Bool) : Type 0 where
  pub asym : (a b : A) → lt a b ≡ true → lt b a ≡ false
  pub apart : (a b c : A) → lt b a ≡ false → lt c b ≡ false → lt c a ≡ false

-- Each element with each one behind it.
abbrev pub AllPairs : {A : Type 0} → (A → A → Type 0) → List A → Type 0
AllPairs R [] = Unit
AllPairs R (x ∷ xs) = All (R x) xs × AllPairs R xs

-- In order by `lt`, and by `R` where `lt` leaves them equal.
abbrev pub Lex : {A : Type 0} → (A → A → Bool) → (A → A → Type 0) → A → A → Type 0
Lex lt R a b = (lt b a ≡ false) × (lt a b ≡ false → R a b)

module _ {A : Type 0} (lt : A → A → Bool) where
  pub In-insert_by : (c x : A) (ys : List A) → In c (x ∷ ys) → In c (insert_by lt x ys)
  unfolding insert_by
  In-insert_by c x [] h = h
  In-insert_by c x (y ∷ ys) h = elim (Bool-cases (lt y x)) [
    | inr here ↦ rw here h
    | inl later ↦ rw later (elim h [
      | inl new ↦ inr (In-insert_by c x ys (inl new))
      | inr old ↦ elim old [
        | inl first ↦ inl first
        | inr rest ↦ inr (In-insert_by c x ys (inr rest))
      ]
    ])
  ]

  pub In-sort_by : (c : A) (xs : List A) → In c xs → In c (sort_by lt xs)
  unfolding sort_by
  In-sort_by c [] h = h
  In-sort_by c (x ∷ xs) (inl e) = In-insert_by c x (sort_by lt xs) (inl e)
  In-sort_by c (x ∷ xs) (inr h) = In-insert_by c x (sort_by lt xs) (inr (In-sort_by c xs h))

  pub All-insert_by :
      (P : A → Type 0) (x : A) (ys : List A) → P x → All P ys → All P (insert_by lt x ys)
  unfolding insert_by
  All-insert_by P x [] h k = (h, tt)
  All-insert_by P x (y ∷ ys) h k = elim (Bool-cases (lt y x)) [
    | inr here ↦ rw here (h, k)
    | inl later ↦ rw later (k.0, All-insert_by P x ys h k.1)
  ]

  pub All-sort_by : (P : A → Type 0) (xs : List A) → All P xs → All P (sort_by lt xs)
  unfolding sort_by
  All-sort_by P [] h = tt
  All-sort_by P (x ∷ xs) h = All-insert_by P x (sort_by lt xs) h.0 (All-sort_by P xs h.1)

  module _ (order : IsOrder lt) (R : A → A → Type 0) where
    in_front :
        (x y : A) (ys : List A)
        → lt y x ≡ false
        → All (Lex lt R y) ys
        → All (R x) ys
        → All (Lex lt R x) ys
    in_front x y [] first h k = tt
    in_front x y (z ∷ zs) first h k =
        ((order.apart x y z first h.0.0, λ tie. k.0), in_front x y zs first h.1 k.1)

    AllPairs-insert_by :
        (x : A) (ys : List A)
        → All (R x) ys
        → AllPairs (Lex lt R) ys
        → AllPairs (Lex lt R) (insert_by lt x ys)
    unfolding insert_by
    AllPairs-insert_by x [] k h = (tt, tt)
    AllPairs-insert_by x (y ∷ ys) k h = elim (Bool-cases (lt y x)) [
      | inr here ↦ rw here (((here, λ tie. k.0), in_front x y ys here h.0 k.1), h)
      | inl later ↦ rw later (
        All-insert_by (Lex lt R y) x ys (order.asym y x later, λ tie. cc) h.0,
        AllPairs-insert_by x ys k.1 h.1,
      )
    ]

    pub AllPairs-sort_by : (xs : List A) → AllPairs R xs → AllPairs (Lex lt R) (sort_by lt xs)
    unfolding sort_by
    AllPairs-sort_by [] h = tt
    AllPairs-sort_by (x ∷ xs) h =
        AllPairs-insert_by x (sort_by lt xs) (All-sort_by (R x) xs h.0) (AllPairs-sort_by xs h.1)
