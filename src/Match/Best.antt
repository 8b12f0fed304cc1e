-- ===== src/Match/Best.antt =====
-- The disk that is selected is the best one for the first directive that any disk satisfies.
use subiquity.Base.{
  ◌≤◌, ◌≡◌, refl, ap, sym, subst, ◌∙◌, ◌⊎◌, inl, inr, Bool, true, false, Option, none, some, List,
  [], ◌∷◌, if◌then◌else◌, All, All-weaken, All-In, In, Bool-cases, arith,
}
use subiquity.Match.{
  Candidate, SizeWanted, smallest, largest, Matcher, all_match, filtered, sort_by, smaller, larger,
  sort_size,
}
use subiquity.Match.Sort.{IsOrder, AllPairs, Lex, In-sort_by, All-sort_by, AllPairs-sort_by}

abbrev pub Fits : List Matcher → Candidate → Type 0
Fits ms c = all_match ms c ≡ some true

abbrev some_or : {A : Type 0} → A → Option A → A
some_or a none = a
some_or a (some b) = b

pub some_inj : {A : Type 0} {a b : A} → some a ≡ some b → a ≡ b
some_inj {A} {a} e = ap (some_or a) e

-- One candidate more is taken, or left out.
one_more :
    (c : Candidate) (b : Option Bool) (rest : Option (List Candidate)) (ds : List Candidate)
    → (elim b [
      | none ↦ none
      | some b' ↦ elim rest [ none ↦ none | some ds' ↦ if b' then some (c ∷ ds') else some ds' ]
    ])
      ≡ some ds
    → ((b ≡ some true) × ((ds' : List Candidate) × (rest ≡ some ds') × (ds ≡ c ∷ ds')))
      ⊎ ((b ≡ some false) × (rest ≡ some ds))
one_more c none rest ds e = cc
one_more c (some b) none ds e = cc
one_more c (some true) (some ds') ds e = inl (refl, (ds', refl, sym (some_inj e)))
one_more c (some false) (some ds') ds e = inr (refl, e)

pub filtered-In :
    (ms : List Matcher) (cs ds : List Candidate) (c : Candidate)
    → filtered ms cs ≡ some ds
    → In c cs
    → Fits ms c
    → In c ds
unfolding filtered
filtered-In ms [] ds c e h f = absurd h
filtered-In ms (x ∷ xs) ds c e h f = elim (one_more x (all_match ms x) (filtered ms xs) ds e) [
  | inl (fits, (ds', rest, split)) ↦
      subst (In c) (sym split)
        (elim h [ inl first ↦ inl first | inr later ↦ inr (filtered-In ms xs ds' c rest later f) ])
  | inr (unfit, rest) ↦ elim h [
    | inl first ↦
        let b : some true ≡ some false = sym f ∙ ap (all_match ms) first ∙ unfit in
        let e' : true ≡ false = some_inj b in cc
    | inr later ↦ filtered-In ms xs ds c rest later f
  ]
]

pub filtered-All :
    (ms : List Matcher) (cs ds : List Candidate)
    → filtered ms cs ≡ some ds
    → All (λ c. In c cs × Fits ms c) ds
unfolding filtered
filtered-All ms [] ds e = subst (All (λ c. ⊥ × Fits ms c)) (some_inj e) tt
filtered-All ms (x ∷ xs) ds e = elim (one_more x (all_match ms x) (filtered ms xs) ds e) [
  | inl (fits, (ds', rest, split)) ↦ subst (All (λ c. In c (x ∷ xs) × Fits ms c)) (sym split) (
    (inl refl, fits),
    All-weaken _ _ (λ c (k : In c xs × Fits ms c). (inr k.0, k.1)) ds'
        (filtered-All ms xs ds' rest),
  )
  | inr (unfit, rest) ↦
      All-weaken _ _ (λ c (k : In c xs × Fits ms c). (inr k.0, k.1)) ds (filtered-All ms xs ds rest)
]

smaller-IsOrder : IsOrder smaller
smaller-IsOrder = record { asym = λ a b h. ground arith; apart = λ a b c h k. ground arith }

larger-IsOrder : IsOrder larger
larger-IsOrder = record { asym = λ a b h. ground arith; apart = λ a b c h k. ground arith }

-- `c` does not come before `d` by the size that is wanted, and by the sort key where that is the same.
abbrev pub IsNotBefore :
    (Candidate → Candidate → Bool) → Option SizeWanted → Candidate → Candidate → Type 0
IsNotBefore key_lt none c d = key_lt c d ≡ false
IsNotBefore key_lt (some smallest) c d = (d.size ≤ c.size) × (c.size ≡ d.size → key_lt c d ≡ false)
IsNotBefore key_lt (some largest) c d = (c.size ≤ d.size) × (c.size ≡ d.size → key_lt c d ≡ false)

module _ (key_lt : Candidate → Candidate → Bool) (order : IsOrder key_lt) where
  abbrev KeyOrder : Candidate → Candidate → Type 0
  KeyOrder a b = key_lt b a ≡ false

  by_key : (cs : List Candidate) → AllPairs KeyOrder (sort_by key_lt cs)
  by_key cs =
      weaken (sort_by key_lt cs) (AllPairs-sort_by key_lt order (λ a b. Unit) cs (all_unit cs))
    where
      all_unit : (xs : List Candidate) → AllPairs (λ a b. Unit {0}) xs
      all_unit [] = tt
      all_unit (x ∷ xs) = (one xs, all_unit xs)
        where
          one : (ys : List Candidate) → All (λ (y : Candidate). Unit {0}) ys
          one [] = tt
          one (y ∷ ys) = (tt, one ys)

      weaken :
          (xs : List Candidate) → AllPairs (Lex key_lt (λ a b. Unit {0})) xs → AllPairs KeyOrder xs
      weaken [] h = tt
      weaken (x ∷ xs) h =
          (All-weaken _ _ (λ y (k : Lex key_lt (λ a b. Unit {0}) x y). k.0) xs h.0, weaken xs h.1)

  self : (d : Candidate) → key_lt d d ≡ false
  self d = elim (Bool-cases (key_lt d d)) [
    | inl before ↦ order.asym d d before
    | inr not_before ↦ not_before
  ]

  pub head_best :
      (size : Option SizeWanted) (cs : List Candidate) (d : Candidate) (ds : List Candidate)
      (c : Candidate)
      → sort_size size (sort_by key_lt cs) ≡ d ∷ ds
      → In c (d ∷ ds)
      → IsNotBefore key_lt size c d
  head_best none cs d ds c e h =
      let sorted : AllPairs KeyOrder (d ∷ ds) = subst (AllPairs KeyOrder) e (by_key cs) in
      elim h [ inl same ↦ rw same (self d) | inr later ↦ All-In (KeyOrder d) c ds sorted.0 later ]
  head_best (some smallest) cs d ds c e h =
      let sorted : AllPairs (Lex smaller KeyOrder) (d ∷ ds) =
        subst (AllPairs (Lex smaller KeyOrder)) e
          (AllPairs-sort_by smaller smaller-IsOrder KeyOrder (sort_by key_lt cs) (by_key cs)) in
      elim h [
        | inl same ↦ rw same (omega arith, λ tie. self d)
        | inr later ↦
            let k : Lex smaller KeyOrder d c =
              All-In (Lex smaller KeyOrder d) c ds sorted.0 later in
            (ground arith, λ tie. k.1 (ground arith))
      ]
  head_best (some largest) cs d ds c e h =
      let sorted : AllPairs (Lex larger KeyOrder) (d ∷ ds) =
        subst (AllPairs (Lex larger KeyOrder)) e
          (AllPairs-sort_by larger larger-IsOrder KeyOrder (sort_by key_lt cs) (by_key cs)) in
      elim h [
        | inl same ↦ rw same (omega arith, λ tie. self d)
        | inr later ↦
            let k : Lex larger KeyOrder d c = All-In (Lex larger KeyOrder d) c ds sorted.0 later in
            (ground arith, λ tie. k.1 (ground arith))
      ]

  pub In-sort_size :
      (size : Option SizeWanted) (c : Candidate) (cs : List Candidate)
      → In c cs
      → In c (sort_size size cs)
  In-sort_size none c cs h = h
  In-sort_size (some smallest) c cs h = In-sort_by smaller c cs h
  In-sort_size (some largest) c cs h = In-sort_by larger c cs h

  pub All-sort_size :
      (size : Option SizeWanted) (P : Candidate → Type 0) (cs : List Candidate)
      → All P cs
      → All P (sort_size size cs)
  All-sort_size none P cs h = h
  All-sort_size (some smallest) P cs h = All-sort_by smaller P cs h
  All-sort_size (some largest) P cs h = All-sort_by larger P cs h
