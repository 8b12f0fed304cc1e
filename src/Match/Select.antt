-- ===== src/Match/Select.antt =====
-- `disk_for_match`: what is selected from a list of directives.
use Prim.Native.String.{String}
use subiquity.Base.{
  ◌≡◌, refl, ap, sym, subst, ◌⊎◌, inl, inr, Bool, Option, none, some, List, [], ◌∷◌, All, In,
}
use subiquity.Match.{
  Candidate, MatchDirective, filtered, sort_by, sort_size, make_matchers, sorted_matches,
  candidates, matching_disks, first_of, disk_for_match,
}
use subiquity.Match.Sort.{IsOrder, In-sort_by, All-sort_by}
use subiquity.Match.Best.{
  Fits, some_inj, filtered-In, filtered-All, IsNotBefore, head_best, In-sort_size, All-sort_size,
}

abbrev list_or : List Candidate → Option (List Candidate × Option MatchDirective) → List Candidate
list_or ds none = ds
list_or ds (some r) = r.0

module _ (fnmatchcase : String → String → Bool) (key_lt : Candidate → Candidate → Bool) where
  abbrev FitsIn : MatchDirective → Candidate → Type 0
  FitsIn m c = Fits (make_matchers fnmatchcase key_lt m) c

  -- `d` satisfies the directive, and no disk that does comes before it.
  abbrev pub IsBest : MatchDirective → Candidate → List Candidate → Type 0
  IsBest m d disks =
      In d disks
      × FitsIn m d
      × ((c : Candidate) → In c disks → FitsIn m c → IsNotBefore key_lt m.size c d)

  -- Nothing, where no directive is satisfied, and else the best disk for the first one that is.
  abbrev pub Answers : Option Candidate → List Candidate → List MatchDirective → Type 0
  Answers r disks [] = r ≡ none
  Answers r disks (m ∷ ms) =
      ((d : Candidate) × (r ≡ some d) × IsBest m d disks)
      ⊎ (((c : Candidate) → In c disks → FitsIn m c → ⊥) × Answers r disks ms)

  sorted_from :
      (m : MatchDirective) (found : Option (List Candidate)) (ds : List Candidate)
      → (elim found [ none ↦ none | some cs ↦ some (sorted_matches fnmatchcase key_lt m cs) ])
        ≡ some ds
      → (cs : List Candidate) × (found ≡ some cs) × (sort_size m.size (sort_by key_lt cs) ≡ ds)
  unfolding sorted_matches
  sorted_from m none ds e = cc
  sorted_from m (some cs) ds e = (cs, refl, some_inj e)

  first_or_later :
      (m : MatchDirective) (r : Option (List Candidate))
      (rest : Option (List Candidate × Option MatchDirective))
      (out : List Candidate × Option MatchDirective)
      → (elim r [ none ↦ none | some [] ↦ rest | some (c ∷ cs) ↦ some (c ∷ cs, some m) ]) ≡ some out
      → ((c : Candidate) × (cs : List Candidate) × (r ≡ some (c ∷ cs)) × (out.0 ≡ c ∷ cs))
        ⊎ ((r ≡ some []) × (rest ≡ some out))
  first_or_later m none rest out e = cc
  first_or_later m (some []) rest out e = inr (refl, e)
  first_or_later m (some (c ∷ cs)) rest out e = inl (c, cs, refl, sym (ap (list_or []) e))

  module _ (order : IsOrder key_lt) where
    best :
        (m : MatchDirective) (disks ds : List Candidate) (d : Candidate)
        → candidates fnmatchcase key_lt m disks ≡ some (d ∷ ds)
        → IsBest m d disks
    best m disks ds d e =
        let (cs, found, sorted) =
          sorted_from m (filtered (make_matchers fnmatchcase key_lt m) disks) (d ∷ ds) e in
        let all_fit : All (λ c. In c disks × FitsIn m c) (d ∷ ds) =
          subst (All (λ c. In c disks × FitsIn m c)) sorted (
            All-sort_size key_lt order m.size (λ c. In c disks × FitsIn m c) (sort_by key_lt cs)
              (All-sort_by key_lt (λ c. In c disks × FitsIn m c) cs
                (filtered-All (make_matchers fnmatchcase key_lt m) disks cs found))) in
        (
          all_fit.0.0,
          all_fit.0.1,
          λ c there fits. head_best key_lt order m.size cs d ds c sorted (
              subst (In c) sorted (
                In-sort_size key_lt order m.size c (sort_by key_lt cs) (
                  In-sort_by key_lt c cs (
                    filtered-In (make_matchers fnmatchcase key_lt m) disks cs c found there
                      fits)))),
        )

    none_fit :
        (m : MatchDirective) (disks : List Candidate)
        → candidates fnmatchcase key_lt m disks ≡ some []
        → (c : Candidate) → In c disks
        → FitsIn m c
        → ⊥
    none_fit m disks e c there fits =
        let (cs, found, sorted) =
          sorted_from m (filtered (make_matchers fnmatchcase key_lt m) disks) [] e in
        subst (In c) sorted (
          In-sort_size key_lt order m.size c (sort_by key_lt cs) (
            In-sort_by key_lt c cs
              (filtered-In (make_matchers fnmatchcase key_lt m) disks cs c found there fits)))

    answered :
        (disks : List Candidate) (ms : List MatchDirective)
        (out : List Candidate × Option MatchDirective)
        → matching_disks fnmatchcase key_lt disks ms ≡ some out
        → Answers (first_of fnmatchcase key_lt out.0) disks ms
    unfolding matching_disks
    answered disks [] out e = ap (λ r. first_of fnmatchcase key_lt (list_or [] r)) (sym e)
    answered disks (m ∷ ms) out e =
        elim (first_or_later m (candidates fnmatchcase key_lt m disks)
          (matching_disks fnmatchcase key_lt disks ms) out e) [
            | inl (d, ds, found, same) ↦
                inl (d, ap (first_of fnmatchcase key_lt) same, best m disks ds d found)
            | inr (nothing, later) ↦ inr (none_fit m disks nothing, answered disks ms out later)
          ]

    taken :
        (disks : List Candidate) (ms : List MatchDirective) (found : Option Candidate)
        (r : Option (List Candidate × Option MatchDirective))
        → matching_disks fnmatchcase key_lt disks ms ≡ r
        → (elim r [ none ↦ none | some r' ↦ some (first_of fnmatchcase key_lt r'.0) ]) ≡ some found
        → Answers found disks ms
    taken disks ms found none e h = cc
    taken disks ms found (some out) e h =
        subst (λ x. Answers x disks ms) (some_inj h) (answered disks ms out e)

    -- Where the order of the sort keys is one: if `disk_for_match` returns a disk, it satisfies the first
    -- directive that any of the disks satisfies, and no other one that satisfies it has a size that is
    -- wanted more, or a smaller sort key and the same size or no size is wanted; if it returns None, no
    -- disk satisfies any of the directives.
    pub disk_for_match-Answers :
        (disks : List Candidate) (ms : List MatchDirective) (found : Option Candidate)
        → disk_for_match fnmatchcase key_lt disks ms ≡ some found
        → Answers found disks ms
    unfolding disk_for_match
    disk_for_match-Answers disks ms found h =
        taken disks ms found (matching_disks fnmatchcase key_lt disks ms) refl h
