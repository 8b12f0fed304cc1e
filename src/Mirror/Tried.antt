-- ===== src/Mirror/Tried.antt =====
-- The candidate that is elected is the first one to pass a test.
use subiquity.Mirror.Elect.{result_cases}
use subiquity.Base.{
  ℕ, zero, suc, ◌+◌, ◌<◌, ◌≡◌, refl, ap, ◌∙◌, inl, inr, true, Option, none, some, List, [], ◌∷◌,
  length, is_some, Bool-cases, arith,
}
use subiquity.Mirror.{
  Entry, uri_of, MirrorModel, stage, has_network, compatible_primary_candidates, Tests, passed,
  failed, errored, test_twice, Outcome, ok, no_usable_mirror, runtime_error, test_error,
  try_candidates, find_and_elect_candidate_mirror,
}

abbrev pub number : ℕ → List Entry → Option Entry
number i [] = none
number zero (e ∷ es) = some e
number (suc i) (e ∷ es) = number i es

-- Of the first `n` candidates, those with a URI failed both tests; they are numbered from `idx` on.
abbrev pub AllFail : Tests → ℕ → List Entry → ℕ → Type 0
AllFail tests idx es n =
    (i : ℕ) (e : Entry)
    → i < n
    → number i es ≡ some e
    → is_some (uri_of e) ≡ true
    → test_twice tests (idx + i) ≡ failed

abbrev pub Tried : Tests → ℕ → List Entry → Outcome → Type 0
Tried tests idx es (ok m) =
    (i : ℕ) × (e : Entry) × (number i es ≡ some e)
    × (is_some (uri_of e) ≡ true)
    × (test_twice tests (idx + i) ≡ passed)
    × AllFail tests idx es i
    × (m.primary_elected ≡ some e)
    × (m.primary_staged ≡ some e)
Tried tests idx es (no_usable_mirror m) = AllFail tests idx es (length es)
Tried tests idx es runtime_error = ⊥
Tried tests idx es test_error =
    (i : ℕ) × (e : Entry) × (number i es ≡ some e)
    × (is_some (uri_of e) ≡ true)
    × (test_twice tests (idx + i) ≡ errored)
    × AllFail tests idx es i

abbrev entry_or : Entry → Option Entry → Entry
entry_or e none = e
entry_or e (some x) = x

one_failed :
    (tests : Tests) (idx : ℕ) (e : Entry) (es : List Entry) (n : ℕ)
    → (is_some (uri_of e) ≡ true → test_twice tests idx ≡ failed)
    → AllFail tests (suc idx) es n
    → AllFail tests idx (e ∷ es) (suc n)
one_failed tests idx e es n first rest zero x less at_i uri =
    let same : e ≡ x = ap (entry_or e) at_i in
    let here : idx + 0 ≡ idx = omega arith in
    ap (test_twice tests) here ∙ first (ap (λ y. is_some (uri_of y)) same ∙ uri)
one_failed tests idx e es n first rest (suc i) x less at_i uri =
    let shift : idx + suc i ≡ suc idx + i = omega arith in
    ap (test_twice tests) shift ∙ rest i x (omega arith) at_i uri

one_more :
    (tests : Tests) (idx : ℕ) (e : Entry) (es : List Entry) (o : Outcome)
    → (is_some (uri_of e) ≡ true → test_twice tests idx ≡ failed)
    → Tried tests (suc idx) es o
    → Tried tests idx (e ∷ es) o
one_more tests idx e es (ok m) first (i, x, at_i, uri, passes, fails, elected, staged) =
    let shift : idx + suc i ≡ suc idx + i = omega arith in
    (
      suc i,
      x,
      at_i,
      uri,
      ap (test_twice tests) shift ∙ passes,
      one_failed tests idx e es i first fails,
      elected,
      staged,
    )
one_more tests idx e es (no_usable_mirror m) first h = one_failed tests idx e es (length es) first h
one_more tests idx e es runtime_error first h = absurd h
one_more tests idx e es test_error first (i, x, at_i, uri, errs, fails) =
    let shift : idx + suc i ≡ suc idx + i = omega arith in
    (
      suc i,
      x,
      at_i,
      uri,
      ap (test_twice tests) shift ∙ errs,
      one_failed tests idx e es i first fails,
    )

try_candidates-Tried :
    (tests : Tests) (idx : ℕ) (es : List Entry) (m : MirrorModel)
    → Tried tests idx es (try_candidates tests idx es m)
unfolding try_candidates
try_candidates-Tried tests idx [] m = λ i e less. absurd (omega arith)
try_candidates-Tried tests idx (e ∷ es) m = elim (Bool-cases (is_some (uri_of e))) [
  | inr no_uri ↦ rw no_uri (
      one_more tests idx e es (try_candidates tests (suc idx) es m) (λ uri. cc)
        (try_candidates-Tried tests (suc idx) es m))
  | inl has_uri ↦
      let here : idx + 0 ≡ idx = omega arith in
      elim (result_cases (test_twice tests idx)) [
        | inl passes ↦
            rw (has_uri, passes)
              (
                0,
                e,
                refl,
                has_uri,
                ap (test_twice tests) here ∙ passes,
                (λ i x less. absurd (omega arith)),
                refl,
                refl,
              )
        | inr (inl fails) ↦
            rw (has_uri, fails)
              (one_more tests idx e es (try_candidates tests (suc idx) es (stage e m))
                (λ uri. fails) (try_candidates-Tried tests (suc idx) es (stage e m)))
        | inr (inr errs) ↦
            rw (has_uri, errs)
              (
                0,
                e,
                refl,
                has_uri,
                ap (test_twice tests) here ∙ errs,
                (λ i x less. absurd (omega arith)),
              )
      ]
]

-- With a network, the candidate that is elected, and staged, is the first compatible one that has a URI
-- and passes one of its two tests; where a test ends with another exception than AptConfigCheckError, the
-- compatible candidates with a URI in front of the one that is tested failed both; that no mirror is
-- usable is raised where each compatible candidate with a URI fails both.
pub find_and_elect_candidate_mirror-Tried :
    (tests : Tests) (m : MirrorModel)
    → has_network m ≡ true
    → Tried tests 0 (compatible_primary_candidates m) (find_and_elect_candidate_mirror tests m)
unfolding find_and_elect_candidate_mirror
find_and_elect_candidate_mirror-Tried tests m online =
    rw online (try_candidates-Tried tests 0 (compatible_primary_candidates m) m)
