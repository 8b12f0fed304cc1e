-- ===== src/Mirror/Elect.antt =====
-- Which candidate is elected, and that there is a configuration for apt after the selection.
use Prim.Native.String.{String}
use subiquity.Base.{
  ℕ, suc, ◌≡◌, ◌⊎◌, refl, subst, inl, inr, Bool, true, false, Option, none, some, List, [], ◌∷◌,
  any, find, is_some, Bool-cases, arith,
}
use subiquity.Mirror.{
  Entry, primary, legacy, uri_of, Defaults, MirrorModel, stage, elect, has_network, can_serve,
  compatible_primary_candidates, Tests, TestResult, passed, failed, errored, test_twice,
  is_reserved, Outcome, ok, no_usable_mirror, runtime_error, test_error, try_candidates,
  find_and_elect_candidate_mirror, Fallback, abort, continue_anyway, offline_install,
  get_default_primary_candidates, elect_first, apply_fallback, or_fallback,
  run_mirror_selection_or_fallback, AptConfig, get_apt_config_using_candidate, offline_config,
  get_apt_config,
}

-- What is elected has a URI.
abbrev pub IsElectable : Option Entry → Type 0
IsElectable none = Unit
IsElectable (some e) = is_some (uri_of e) ≡ true

abbrev HasConfig : List String → MirrorModel → Type 0
HasConfig keys m = (config : AptConfig) × (get_apt_config keys true (has_network m) m ≡ some config)

-- The result of two tests is that of one of them.
twice_errored :
    (tests : Tests) (idx : ℕ) → test_twice tests idx ≡ errored → (i a : ℕ) × (tests i a ≡ errored)
unfolding test_twice
twice_errored tests idx h = go (tests idx 0) refl h
  where
    go :
        (r : TestResult)
        → tests idx 0 ≡ r
        → (elim r [ passed ↦ passed | failed ↦ tests idx 1 | errored ↦ errored ]) ≡ errored
        → (i a : ℕ) × (tests i a ≡ errored)
    go passed e k = cc
    go failed e k = (idx, 1, k)
    go errored e k = (idx, 0, e)

pub result_cases : (r : TestResult) → (r ≡ passed) ⊎ ((r ≡ failed) ⊎ (r ≡ errored))
result_cases passed = inl refl
result_cases failed = inr (inl refl)
result_cases errored = inr (inr refl)

candidate_config :
    (keys : List String) (no_security : Bool) (e : Entry)
    → any is_reserved keys ≡ false
    → is_some (uri_of e) ≡ true
    → (config : AptConfig) × (get_apt_config_using_candidate keys no_security e ≡ some config)
candidate_config keys no_security (primary none arches country) plain h = cc
candidate_config keys no_security (primary (some uri) arches country) plain h = rw plain (_, refl)
candidate_config keys no_security (legacy uri) plain h = rw plain (_, refl)

find_server : (arch : String) (es : List Entry) → IsElectable (find (can_serve arch) es)
find_server arch [] = tt
find_server arch (e ∷ es) = elim (Bool-cases (can_serve arch e)) [
  | inl usable ↦ rw usable (ground arith)
  | inr not_usable ↦ rw not_usable (find_server arch es)
]

abbrev pub is_offline_install : Fallback → Bool
is_offline_install offline_install = true
is_offline_install _ = false

-- How the selection ends.
abbrev pub IsSelected : List String → Tests → Fallback → Outcome → Type 0
IsSelected keys tests f (ok m) = HasConfig keys m
IsSelected keys tests f (no_usable_mirror m) = ⊥
IsSelected keys tests f runtime_error = is_offline_install f ≡ false
IsSelected keys tests f test_error = (i a : ℕ) × (tests i a ≡ errored)

module _ (keys : List String) (plain : any is_reserved keys ≡ false) (tests : Tests) where
  -- How the loop ends: with an exception of a test, or a model that gives a configuration, or one to
  -- apply the fallback to that was set.
  abbrev Configured : Fallback → Outcome → Type 0
  Configured f (ok m) = HasConfig keys m
  Configured f (no_usable_mirror m) = IsElectable m.primary_elected × (m.fallback ≡ f)
  Configured f runtime_error = ⊥
  Configured f test_error = (i a : ℕ) × (tests i a ≡ errored)

  offline_has_config :
      (elected first : Option Entry)
      → IsElectable elected
      → IsElectable first
      → (config : AptConfig) × (offline_config keys elected first ≡ some config)
  offline_has_config (some e) first h k = candidate_config keys false e plain h
  offline_has_config none (some e) h k = candidate_config keys false e plain k
  offline_has_config none none h k = rw plain (_, refl)

  offline_HasConfig :
      (m : MirrorModel) → has_network m ≡ false → IsElectable m.primary_elected → HasConfig keys m
  unfolding get_apt_config
  offline_HasConfig m offline h = rw offline (
      offline_has_config m.primary_elected (find (can_serve m.architecture) m.primary_candidates) h
        (find_server m.architecture m.primary_candidates))

  elected-HasConfig :
      (online : Bool) (e : Entry) (m : MirrorModel)
      → is_some (uri_of e) ≡ true
      → (config : AptConfig) × (get_apt_config keys true online (elect e m) ≡ some config)
  unfolding get_apt_config
  elected-HasConfig true e m h = candidate_config keys false e plain h
  elected-HasConfig false e m h = candidate_config keys false e plain h

  tried-Configured :
      (idx : ℕ) (es : List Entry) (m : MirrorModel)
      → IsElectable m.primary_elected
      → Configured m.fallback (try_candidates tests idx es m)
  unfolding try_candidates
  tried-Configured idx [] m h = (h, refl)
  tried-Configured idx (e ∷ es) m h = elim (Bool-cases (is_some (uri_of e))) [
    | inr no_uri ↦ rw no_uri (tried-Configured (suc idx) es m h)
    | inl has_uri ↦ elim (result_cases (test_twice tests idx)) [
      | inl passes ↦ rw (has_uri, passes) (elected-HasConfig (has_network m) e (stage e m) has_uri)
      | inr (inl fails) ↦ rw (has_uri, fails) (tried-Configured (suc idx) es (stage e m) h)
      | inr (inr errs) ↦ rw (has_uri, errs) (twice_errored tests idx errs)
    ]
  ]

  elected-IsSelected :
      (first other : Option Entry) (m : MirrorModel)
      → IsElectable first
      → IsElectable other
      → IsSelected keys tests continue_anyway (elect_first first other m)
  elected-IsSelected (some e) other m k l = elected-HasConfig (has_network m) e m k
  elected-IsSelected none (some e) m k l = elected-HasConfig (has_network m) e m l
  elected-IsSelected none none m k l = refl

  applied-IsSelected :
      (defaults : List Entry) (f : Fallback) (m : MirrorModel)
      → IsElectable m.primary_elected
      → IsSelected keys tests f (apply_fallback defaults f m)
  unfolding apply_fallback
  applied-IsSelected defaults abort m h = refl
  applied-IsSelected defaults offline_install m h =
      offline_HasConfig (record m { force_offline = true }) (ground arith) h
  applied-IsSelected defaults continue_anyway m h =
      elected-IsSelected (find (can_serve m.architecture) m.primary_candidates)
        (find (can_serve m.architecture) defaults) m
        (find_server m.architecture m.primary_candidates) (find_server m.architecture defaults)

  selected :
      (defaults : List Entry) (f : Fallback) (o : Outcome)
      → Configured f o
      → IsSelected keys tests f (or_fallback defaults o)
  selected defaults f (ok m) h = h
  selected defaults f (no_usable_mirror m) h =
      subst (λ g. IsSelected keys tests g (apply_fallback defaults m.fallback m)) h.1
        (applied-IsSelected defaults m.fallback m h.0)
  selected defaults f runtime_error h = absurd h
  selected defaults f test_error h = h

-- Where an entry that was elected before has a URI, and the configuration that was loaded has none of
-- the three keys that `_get_apt_config_common` asserts absent, the selection ends in one of three ways:
-- with the exception of a test that ended with another one than AptConfigCheckError; with a RuntimeError,
-- which it never does if the fallback is to install offline; or with a model that gives a configuration
-- for apt, with the network as it then is, so that no assertion fails.
pub run_mirror_selection_or_fallback-IsSelected :
    (keys : List String) (c : Defaults) (default_mirror : String) (tests : Tests) (m : MirrorModel)
    → any is_reserved keys ≡ false
    → IsElectable m.primary_elected
    → IsSelected keys tests m.fallback (run_mirror_selection_or_fallback c default_mirror tests m)
unfolding run_mirror_selection_or_fallback find_and_elect_candidate_mirror
run_mirror_selection_or_fallback-IsSelected keys c default_mirror tests m plain h =
    elim (Bool-cases (has_network m)) [
      | inr offline ↦ rw offline (offline_HasConfig keys plain tests m offline h)
      | inl online ↦ rw online (
          selected keys plain tests
            (get_default_primary_candidates c default_mirror m.legacy_primary) m.fallback
            (try_candidates tests 0 (compatible_primary_candidates m) m)
            (tried-Configured keys plain tests 0 (compatible_primary_candidates m) m h))
    ]
