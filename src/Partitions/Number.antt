-- ===== src/Partitions/Number.antt =====
-- Which number a new partition gets.
use subiquity.Base.{
  ℕ, zero, suc, ◌+◌, ◌≤◌, ◌<◌, ◌≡◌, refl, subst, inl, inr, ◌⊎◌, Bool, true, false, ◌==◌, ◌-◌,
  ==_iff, Option, none, some, List, [], ◌∷◌, In, arith, any, Bool-cases,
}
use subiquity.Storage.{
  Flag, logical, flag_eq, PTable, PartitionAlignmentData, Partition, is_logical,
}
use subiquity.Partitions.{same_bool, used_nums, first_unused, possible_nums, choose_number}

abbrev IsUsed : List ℕ → ℕ → Type 0
IsUsed used k = any (λ j. j == k) used ≡ true

-- The `count` numbers from `num` on: all used, or the first that is not.
abbrev IsFirstUnused : List ℕ → (num count : ℕ) → Option ℕ → Type 0
IsFirstUnused used num zero none = Unit
IsFirstUnused used num zero (some n) = ⊥
IsFirstUnused used num (suc count) none = IsUsed used num × IsFirstUnused used (suc num) count none
IsFirstUnused used num (suc count) (some n) =
    ((any (λ j. j == num) used ≡ false) × (n ≡ num))
    ⊎ (IsUsed used num × IsFirstUnused used (suc num) count (some n))

IsFirstUnused-in_range :
    (used : List ℕ) (num count n : ℕ)
    → IsFirstUnused used num count (some n)
    → (num ≤ n) × (n < num + count) × (any (λ j. j == n) used ≡ false)
IsFirstUnused-in_range used num zero n h = absurd h
IsFirstUnused-in_range used num (suc count) n (inl (free, e)) =
    (omega arith, omega arith, rw e free)
IsFirstUnused-in_range used num (suc count) n (inr (taken, rest)) =
    let (low, high, free) = IsFirstUnused-in_range used (suc num) count n rest in
    (omega arith, omega arith, free)

passed :
    (used : List ℕ) (num count : ℕ) (o : Option ℕ)
    → IsUsed used num
    → IsFirstUnused used (suc num) count o
    → IsFirstUnused used num (suc count) o
passed used num count none taken h = (taken, h)
passed used num count (some n) taken h = inr (taken, h)

first_unused-IsFirstUnused :
    (used : List ℕ) (num count : ℕ) → IsFirstUnused used num count (first_unused used num count)
unfolding first_unused
first_unused-IsFirstUnused used num zero = tt
first_unused-IsFirstUnused used num (suc count) = elim (Bool-cases (any (λ j. j == num) used)) [
  | inl taken ↦
      rw taken (passed used num count _ taken (first_unused-IsFirstUnused used (suc num) count))
  | inr free ↦ rw free (inl (free, refl))
]

earlier-IsUsed :
    (used : List ℕ) (num count n : ℕ)
    → IsFirstUnused used num count (some n)
    → (k : ℕ) → num ≤ k
    → k < n
    → IsUsed used k
earlier-IsUsed used num zero n h k low high = absurd h
earlier-IsUsed used num (suc count) n (inl (free, e)) k low high = absurd (omega arith)
earlier-IsUsed used num (suc count) n (inr (taken, rest)) k low high =
    elim (Bool-cases (num == k)) [
      | inl here ↦ let e : num ≡ k = (==_iff num k).0 here in subst (IsUsed used) e taken
      | inr later ↦ earlier-IsUsed used (suc num) count n rest k (ground arith) high
    ]

all-IsUsed :
    (used : List ℕ) (num count : ℕ)
    → IsFirstUnused used num count none
    → (k : ℕ) → num ≤ k
    → k < num + count
    → IsUsed used k
all-IsUsed used num zero h k low high = absurd (omega arith)
all-IsUsed used num (suc count) (taken, rest) k low high = elim (Bool-cases (num == k)) [
  | inl here ↦ let e : num ≡ k = (==_iff num k).0 here in subst (IsUsed used) e taken
  | inr later ↦ all-IsUsed used (suc num) count rest k (ground arith) (omega arith)
]

-- A partition of the same sort, logical or not, has the number.
abbrev pub IsTaken : Option PTable → Bool → List Partition → ℕ → Type 0
IsTaken ptable new_logical ps n =
    (p : Partition) × In p ps × (is_logical ptable p ≡ new_logical) × (p.number ≡ n)

same_bool-eq : (a b : Bool) → same_bool a b ≡ true → a ≡ b
same_bool-eq true true h = refl
same_bool-eq true false h = cc
same_bool-eq false true h = cc
same_bool-eq false false h = refl

same_bool_refl : (a : Bool) → same_bool a a ≡ true
same_bool_refl true = refl
same_bool_refl false = refl

used-IsTaken :
    (ptable : Option PTable) (l : Bool) (ps : List Partition) (n : ℕ)
    → IsUsed (used_nums ptable l ps) n
    → IsTaken ptable l ps n
unfolding used_nums
used-IsTaken ptable l [] n h = cc
used-IsTaken ptable l (p ∷ ps) n h = elim (Bool-cases (same_bool (is_logical ptable p) l)) [
  | inr other ↦
      let (q, there, sort, number) = used-IsTaken ptable l ps n (rw other at h) in
      (q, inr there, sort, number)
  | inl alike ↦
      let k : any (λ j. j == n) (p.number ∷ used_nums ptable l ps) ≡ true = rw alike at h in
      elim (Bool-cases (p.number == n)) [
        | inl here ↦
            (p, inl refl, same_bool-eq (is_logical ptable p) l alike, (==_iff p.number n).0 here)
        | inr later ↦
            let (q, there, sort, number) = used-IsTaken ptable l ps n (rw later at k) in
            (q, inr there, sort, number)
      ]
]

taken-IsUsed :
    (ptable : Option PTable) (l : Bool) (ps : List Partition) (n : ℕ)
    → IsTaken ptable l ps n
    → IsUsed (used_nums ptable l ps) n
unfolding used_nums
taken-IsUsed ptable l [] n (p, there, sort, number) = absurd there
taken-IsUsed ptable l (q ∷ ps) n (p, inl e, sort, number) =
    let alike : same_bool (is_logical ptable q) l ≡ true =
      subst (λ x. same_bool (is_logical ptable x) l ≡ true) e (rw sort (same_bool_refl l)) in
    let same : (q.number == n) ≡ true =
      subst (λ x. (x.number == n) ≡ true) e ((==_iff p.number n).1 number) in
    rw alike (rw same refl)
taken-IsUsed ptable l (q ∷ ps) n (p, inr there, sort, number) =
    let rest = taken-IsUsed ptable l ps n (p, there, sort, number) in
    elim (Bool-cases (same_bool (is_logical ptable q) l)) [
      | inl alike ↦ rw alike (ground arith)
      | inr other ↦ rw other rest
    ]

-- The numbers of logical partitions are those from the limit of primary ones on, up to 128.
abbrev pub InRange : PartitionAlignmentData → (new_logical : Bool) → ℕ → Type 0
InRange info true n = (info.primary_part_limit < n) × (n ≤ 128)
InRange info false n = (1 ≤ n) × (n ≤ info.primary_part_limit)

abbrev pub IsLowestFree :
    PartitionAlignmentData → Option PTable → Bool → List Partition → Option ℕ → Type 0
IsLowestFree info ptable l ps none = (k : ℕ) → InRange info l k → IsTaken ptable l ps k
IsLowestFree info ptable l ps (some n) =
    InRange info l n
    × (IsTaken ptable l ps n → ⊥)
    × ((k : ℕ) → InRange info l k → k < n → IsTaken ptable l ps k)

lowest_free :
    (info : PartitionAlignmentData) (ptable : Option PTable) (l : Bool) (ps : List Partition)
    (num count : ℕ)
    → ((k : ℕ) → num ≤ k → k < num + count → InRange info l k)
    → ((k : ℕ) → InRange info l k → (num ≤ k) × (k < num + count))
    → (o : Option ℕ) → IsFirstUnused (used_nums ptable l ps) num count o
    → IsLowestFree info ptable l ps o
lowest_free info ptable l ps num count inside outside none h = λ k there.
    let (low, high) = outside k there in
    used-IsTaken ptable l ps k (all-IsUsed (used_nums ptable l ps) num count h k low high)
lowest_free info ptable l ps num count inside outside (some n) h =
    let (low, high, free) = IsFirstUnused-in_range (used_nums ptable l ps) num count n h in
    (
      inside n low high,
      λ taken. let used = taken-IsUsed ptable l ps n taken in cc,
      λ k there below.
          used-IsTaken ptable l ps k
            (earlier-IsUsed (used_nums ptable l ps) num count n h k (outside k there).0 below),
    )

-- A new partition gets the lowest number that no partition of its sort, logical or not, has: of 1 up to
-- the limit of primary partitions, or for a logical one of the numbers above that limit up to 128. The
-- exception is raised only where each number of that range is taken.
pub choose_number-IsLowestFree :
    (info : PartitionAlignmentData) (ptable : Option PTable) (flag : Flag) (ps : List Partition)
    → IsLowestFree info ptable (flag_eq flag logical) ps (choose_number info ptable flag ps)
unfolding choose_number
choose_number-IsLowestFree info ptable flag ps = go (flag_eq flag logical)
  where
    go :
        (l : Bool)
        → let (lowest, count) = possible_nums info l in
          IsLowestFree info ptable l ps (first_unused (used_nums ptable l ps) lowest count)
    go true =
        let lowest = info.primary_part_limit + 1 in
        let count = 128 - info.primary_part_limit in
        lowest_free info ptable true ps lowest count (λ k low high. (omega arith, omega arith))
          (λ k there. (omega (arith, there.0), omega (arith, there.0, there.1))) _
          (first_unused-IsFirstUnused (used_nums ptable true ps) lowest count)
    go false =
        lowest_free info ptable false ps 1 info.primary_part_limit
          (λ k low high. (omega arith, omega arith)) (λ k there. (there.0, omega (arith, there.1)))
          _ (first_unused-IsFirstUnused (used_nums ptable false ps) 1 info.primary_part_limit)
