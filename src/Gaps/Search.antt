-- ===== src/Gaps/Search.antt =====
-- What the searches over a list of partitions and gaps find.
use mathlib.Core.Option.{some-injective}
use subiquity.Base.{
  ltb→lt, ℕ, ◌+◌, ◌≤◌, ◌<◌, ◌≡◌, refl, ap, sym, subst, ◌⊎◌, inl, inr, Bool, true, false, ◌&&◌,
  Option, none, some, List, [], ◌∷◌, arith, ltb, leb, if◌then◌else◌, All, In, Bool-cases,
  Option-cases, all,
}
use subiquity.Base.Ints.{pos_part, neg_part}
use subiquity.Storage.{Partition, PartitionAlignmentData}
use subiquity.Gaps.{PartOrGap, part, gap, Gap, RestGap, split}
use subiquity.Gaps.Find.{
  wanted, largest_from, largest_of, first_gap, includes, after, offset_of, covers_some,
  find_gap_after_removal, size_of,
}

-- The gaps of a list that are wanted are at most `bound` large.
abbrev pub WantedAtMost : Option Bool → ℕ → PartOrGap → Type 0
WantedAtMost ext bound (part p) = Unit
WantedAtMost ext bound (gap g) = wanted ext g ≡ true → g.size ≤ bound

-- `found` is in the list, wanted and not empty, or there is none.
abbrev pub IsFound : Option Bool → List PartOrGap → Option Gap → Type 0
IsFound ext pgs none = Unit
IsFound ext pgs (some g) = In (gap g) pgs × (wanted ext g ≡ true) × (0 < g.size)

abbrev Bound : Option Bool → ℕ → Gap → List PartOrGap → Option Gap → Type 0
Bound ext size g rest found =
    (size ≤ size_of found) × All (WantedAtMost ext (size_of found)) (gap g ∷ rest)

largest_from-ge :
    (ext : Option Bool) (pgs : List PartOrGap) (l : Option Gap) (size : ℕ)
    → size ≡ size_of l
    → (size ≤ size_of (largest_from ext l size pgs))
      × All (WantedAtMost ext (size_of (largest_from ext l size pgs))) pgs
unfolding largest_from
largest_from-ge ext [] l size e = (omega arith, tt)
largest_from-ge ext (part p ∷ rest) l size e =
    let (le, all) = largest_from-ge ext rest l size e in (le, (tt, all))
largest_from-ge ext (gap g ∷ rest) l size e = elim (Bool-cases (wanted ext g && ltb size g.size)) [
  | inl larger ↦
      let (le, all) = largest_from-ge ext rest (some g) g.size refl in
      subst (Bound ext size g rest) {x = largest_from ext (some g) g.size rest}
        {y = largest_from ext l size (gap g ∷ rest)} (rw larger refl)
        (ground arith, ((λ w. le), all))
  | inr smaller ↦
      let (le, all) = largest_from-ge ext rest l size e in
      subst (Bound ext size g rest) {x = largest_from ext l size rest}
        {y = largest_from ext l size (gap g ∷ rest)} (rw smaller refl)
        (le, ((λ w. ground arith), all))
]

IsFound-cons :
    (ext : Option Bool) (x : PartOrGap) (pgs : List PartOrGap) (o : Option Gap)
    → IsFound ext pgs o
    → IsFound ext (x ∷ pgs) o
IsFound-cons ext x pgs none h = tt
IsFound-cons ext x pgs (some g) h = (inr h.0, h.1, h.2)

largest_from-cases :
    (ext : Option Bool) (pgs : List PartOrGap) (l : Option Gap) (size : ℕ)
    → (largest_from ext l size pgs ≡ l) ⊎ IsFound ext pgs (largest_from ext l size pgs)
unfolding largest_from
largest_from-cases ext [] l size = inl refl
largest_from-cases ext (part p ∷ rest) l size = elim (largest_from-cases ext rest l size) [
  | inl same ↦ inl same
  | inr found ↦ inr (IsFound-cons ext (part p) rest _ found)
]
largest_from-cases ext (gap g ∷ rest) l size = elim (Bool-cases (wanted ext g && ltb size g.size)) [
  | inl larger ↦ rw larger (elim (largest_from-cases ext rest (some g) g.size) [
    | inl same ↦ inr (rw same (inl refl, ground arith, ground arith))
    | inr found ↦ inr (IsFound-cons ext (gap g) rest _ found)
  ])
  | inr smaller ↦ rw smaller (elim (largest_from-cases ext rest l size) [
    | inl same ↦ inl same
    | inr found ↦ inr (IsFound-cons ext (gap g) rest _ found)
  ])
]

-- The largest gap is a gap of the list of the wanted kind, and no gap of that kind is larger; where
-- none is returned, all of them are empty.
pub largest_of-max :
    (ext : Option Bool) (pgs : List PartOrGap)
    → IsFound ext pgs (largest_of ext pgs)
      × All (WantedAtMost ext (size_of (largest_of ext pgs))) pgs
unfolding largest_of
largest_of-max ext pgs = (
  elim (largest_from-cases ext pgs none 0) [ inl same ↦ rw same tt | inr found ↦ found ],
  (largest_from-ge ext pgs none 0 refl).1,
)

-- The gaps of a list fail a test up to the one that is found.
abbrev pub IsFirst : (Gap → Bool) → List PartOrGap → Option Gap → Type 0
IsFirst test [] none = Unit
IsFirst test [] (some g) = ⊥
IsFirst test (part p ∷ rest) o = IsFirst test rest o
IsFirst test (gap k ∷ rest) none = (test k ≡ false) × IsFirst test rest none
IsFirst test (gap k ∷ rest) (some g) =
    ((test k ≡ true) × (g ≡ k)) ⊎ ((test k ≡ false) × IsFirst test rest (some g))

skipped :
    (test : Gap → Bool) (k : Gap) (rest : List PartOrGap)
    → test k ≡ false
    → (o : Option Gap) → IsFirst test rest o
    → IsFirst test (gap k ∷ rest) o
skipped test k rest fails none h = (fails, h)
skipped test k rest fails (some g) h = inr (fails, h)

-- The linear searches return the first gap that passes their test, and none where none passes.
first_gap-IsFirst :
    (test : Gap → Bool) (pgs : List PartOrGap) → IsFirst test pgs (first_gap test pgs)
unfolding first_gap
first_gap-IsFirst test [] = tt
first_gap-IsFirst test (part p ∷ rest) = first_gap-IsFirst test rest
first_gap-IsFirst test (gap k ∷ rest) = elim (Bool-cases (test k)) [
  | inl passes ↦ rw passes (inl (passes, refl))
  | inr fails ↦
      rw fails (skipped test k rest fails (first_gap test rest) (first_gap-IsFirst test rest))
]

pub first_gap-In :
    (test : Gap → Bool) (pgs : List PartOrGap) (g : Gap)
    → first_gap test pgs ≡ some g
    → In (gap g) pgs × (test g ≡ true)
unfolding first_gap
first_gap-In test [] g e = cc
first_gap-In test (part p ∷ rest) g e = let (m, t) = first_gap-In test rest g e in (inr m, t)
first_gap-In test (gap k ∷ rest) g e = elim (Bool-cases (test k)) [
  | inl passes ↦
      let same : k ≡ g = some-injective _ _ (rw passes at e) in
      (inl (ap gap (sym same)), subst (λ x. test x ≡ true) same passes)
  | inr fails ↦ let (m, t) = first_gap-In test rest g (rw fails at e) in (inr m, t)
]

after-In :
    (offset : ℕ) (pgs : List PartOrGap) (x : PartOrGap)
    → after offset pgs ≡ some x
    → In x pgs × (offset < offset_of x)
unfolding after
after-In offset [] x e = cc
after-In offset (y ∷ rest) x e = elim (Bool-cases (ltb offset (offset_of y))) [
  | inl passes ↦
      let same : y ≡ x = some-injective _ _ (rw passes at e) in
      (inl (sym same), subst (λ z. offset < offset_of z) same (ltb→lt _ _ passes))
  | inr fails ↦ let (m, t) = after-In offset rest x (rw fails at e) in (inr m, t)
]

abbrev around : ℕ → Gap → Bool
around offset g = leb g.offset offset && ltb offset (g.offset + g.size)

abbrev pub Touches : Partition → List PartOrGap → Gap → Type 0
Touches removed pgs g =
    In (gap g) pgs
    × (g.offset < removed.offset + removed.size)
    × (removed.offset < g.offset + g.size)

after-Touches :
    (removed : Partition) (pgs : List PartOrGap) (g : Gap) (x : PartOrGap)
    → 0 < g.size
    → after removed.offset pgs ≡ some x
    → covers_some removed (some x) ≡ some g
    → Touches removed pgs g
after-Touches removed pgs g (part p) wide found e = cc
after-Touches removed pgs g (gap k) wide found e =
    let (m, t) = after-In removed.offset pgs (gap k) found in
    let same : k ≡ g = ground arith in
    subst (Touches removed pgs) same (m, ground arith, ground arith)

-- The gap that is found after a partition is removed is a gap of the list and shares space with what
-- the partition held, as long as neither is empty.
pub find_gap_after_removal-touches :
    (removed : Partition) (pgs : List PartOrGap) (g : Gap)
    → 0 < removed.size
    → 0 < g.size
    → find_gap_after_removal removed pgs ≡ some g
    → In (gap g) pgs
      × (g.offset < removed.offset + removed.size)
      × (removed.offset < g.offset + g.size)
unfolding find_gap_after_removal
find_gap_after_removal-touches removed pgs g full wide e =
    elim (Option-cases (includes removed.offset pgs)) [
      | inr (k, found) ↦
          let (m, t) = first_gap-In (around removed.offset) pgs k (unfold includes in found) in
          let same : k ≡ g = some-injective _ _ (rw found at e) in
          subst (Touches removed pgs) same (m, ground arith, ground arith)
      | inl missed ↦
          let e' : covers_some removed (after removed.offset pgs) ≡ some g = rw missed at e in
          elim (Option-cases (after removed.offset pgs)) [
            | inl nothing ↦ cc (rw nothing at e')
            | inr (x, found) ↦ after-Touches removed pgs g x wide found (rw found at e')
          ]
    ]

-- What a split of the gap `g` may return.
abbrev pub Divides : PartitionAlignmentData → Gap → ℕ → Option (Gap × Option RestGap) → Type 0
Divides info g size none = g.size < size
Divides info g size (some (front, none)) = (size ≡ g.size) × (front ≡ g)
Divides info g size (some (front, some rest)) =
    (size < g.size)
    × (front ≡ record g { size = size })
    × (rest.offset ≡ front.offset + front.size + (if g.in_extended then info.ebr_space else 0))
    × (rest.offset + pos_part rest.size ≡ g.offset + g.size + neg_part rest.size)
    × (rest.in_extended ≡ g.in_extended)
    × (rest.usable ≡ g.usable)

-- A split takes the front of the gap; the rest ends where the gap ended, and begins behind the front
-- and, in an extended partition, one EBR. It fails exactly for a size above that of the gap, and
-- leaves no rest exactly where the size is that of the gap.
pub split-Divides :
    (info : PartitionAlignmentData) (g : Gap) (size : ℕ) → Divides info g size (split info g size)
unfolding split
split-Divides info g size = ground arith
