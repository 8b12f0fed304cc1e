-- ===== src/Mirror.antt =====
-- subiquity/models/mirror.py and the selection of subiquity/server/controllers/mirror.py: the candidates
-- for the primary mirror, testing and electing one of them, and the configuration for apt.
pub mod Elect
pub mod Tried
pub mod Load
pub mod Example
use Prim.Native.String.{String}
use text.Mathlib.Text.{◌==◌ as str_eq}
use subiquity.Base.{
  ℕ, suc, Bool, true, false, not, ◌&&◌, ◌||◌, Option, none, some, List, [], ◌∷◌, if◌then◌else◌, any,
  find, filter, is_some,
}

-- PrimaryEntry, and LegacyPrimaryEntry with the URI that curtin finds in its section.
pub data Entry : Type 0 where
  primary : (uri : Option String) (arches : Option (List String)) (country_mirror : Bool) → Entry
  legacy : (uri : String) → Entry

abbrev pub uri_of : Entry → Option String
uri_of (primary uri arches country) = uri
uri_of (legacy uri) = some uri

abbrev pub supports_arch : String → Entry → Bool
supports_arch arch (primary uri none country) = true
supports_arch arch (primary uri (some arches) country) = any (str_eq arch) arches
supports_arch arch (legacy uri) = true

pub data Fallback : Type 0 where
  abort continue_anyway offline_install : Fallback

-- What the default entries are made of: constants of curtin.
pub record Defaults : Type 0 where
  pub supported_arches_uri : String
  pub ports_arches_uri : String
  pub primary_arches : List String
  pub ports_arches : List String

-- MirrorModel, and `_has_network` and `force_offline` of the network model. Of the configuration for
-- apt, what does not depend on the candidates is left out.
pub record MirrorModel : Type 0 where
  pub legacy_primary : Bool
  pub primary_candidates : List Entry
  pub primary_staged : Option Entry
  pub primary_elected : Option Entry
  pub architecture : String
  pub fallback : Fallback
  pub network_up : Bool
  pub force_offline : Bool

abbrev pub stage : Entry → MirrorModel → MirrorModel
stage e m = record m { primary_staged = some e }

abbrev pub elect : Entry → MirrorModel → MirrorModel
elect e m = record m { primary_elected = some e }

-- `has_network` of the network model
abbrev pub has_network : MirrorModel → Bool
has_network m = m.network_up && not m.force_offline

abbrev pub compatible_primary_candidates : MirrorModel → List Entry
compatible_primary_candidates m = filter (supports_arch m.architecture) m.primary_candidates

-- The two filters of `get_apt_config` and of `apply_fallback`
abbrev pub can_serve : String → Entry → Bool
can_serve arch e = is_some (uri_of e) && supports_arch arch e

-- A test passes, fails with AptConfigCheckError, or ends with another exception.
pub data TestResult : Type 0 where
  passed failed errored : TestResult

-- What tests of candidates end with: the number of the candidate among the compatible ones, and of the
-- attempt.
abbrev pub Tests : Type 0
Tests = (candidate attempt : ℕ) → TestResult

-- A test that fails is made a second time.
unfoldable pub test_twice : Tests → ℕ → TestResult
test_twice tests idx = elim (tests idx 0) [
  | passed ↦ passed
  | failed ↦ tests idx 1
  | errored ↦ errored
]

pub data Outcome : Type 0 where
  ok : MirrorModel → Outcome
  no_usable_mirror : MirrorModel → Outcome
  -- RuntimeError, which a StopIteration of a coroutine becomes too
  runtime_error : Outcome
  -- The exception that a test ended with
  test_error : Outcome

abbrev pub after_tests : TestResult → (elected given_up : Outcome) → Outcome
after_tests passed elected given_up = elected
after_tests failed elected given_up = given_up
after_tests errored elected given_up = test_error

-- The loop of `find_and_elect_candidate_mirror`, from candidate number `idx` on.
unfoldable pub try_candidates : Tests → ℕ → List Entry → MirrorModel → Outcome
unfolding test_twice
try_candidates tests idx [] m = no_usable_mirror m
try_candidates tests idx (e ∷ es) m =
    let skipped = try_candidates tests (suc idx) es m in
    let given_up = try_candidates tests (suc idx) es (stage e m) in
    if is_some (uri_of e)
    then after_tests (test_twice tests idx) (ok (elect e (stage e m))) given_up
    else skipped

unfoldable pub find_and_elect_candidate_mirror : Tests → MirrorModel → Outcome
unfolding try_candidates
find_and_elect_candidate_mirror tests m =
    if has_network m then try_candidates tests 0 (compatible_primary_candidates m) m else ok m

abbrev pub default_primary_entries : Defaults → List Entry
default_primary_entries c =
    primary none none true
    ∷ primary (some c.supported_arches_uri) (some c.primary_arches) false
    ∷ primary (some c.ports_arches_uri) (some c.ports_arches) false
    ∷ []

-- The entry that `LegacyPrimaryEntry.new_from_default` makes has the URI `default_mirror`.
abbrev pub get_default_primary_candidates : Defaults → (default_mirror : String) → Bool → List Entry
get_default_primary_candidates c default_mirror true = legacy default_mirror ∷ []
get_default_primary_candidates c default_mirror false = default_primary_entries c

abbrev pub elect_first : Option Entry → Option Entry → MirrorModel → Outcome
elect_first (some e) other m = ok (elect e m)
elect_first none (some e) m = ok (elect e m)
elect_first none none m = runtime_error

-- `apply_fallback`, with the default candidates
unfoldable pub apply_fallback : List Entry → Fallback → MirrorModel → Outcome
apply_fallback defaults abort m = runtime_error
apply_fallback defaults offline_install m = ok (record m { force_offline = true })
apply_fallback defaults continue_anyway m =
    elect_first (find (can_serve m.architecture) m.primary_candidates)
      (find (can_serve m.architecture) defaults) m

abbrev pub or_fallback : List Entry → Outcome → Outcome
or_fallback defaults (ok m) = ok m
or_fallback defaults (no_usable_mirror m) = apply_fallback defaults m.fallback m
or_fallback defaults runtime_error = runtime_error
or_fallback defaults test_error = test_error

unfoldable pub run_mirror_selection_or_fallback :
    Defaults → (default_mirror : String) → Tests → MirrorModel → Outcome
unfolding find_and_elect_candidate_mirror apply_fallback
run_mirror_selection_or_fallback c default_mirror tests m =
    or_fallback (get_default_primary_candidates c default_mirror m.legacy_primary)
      (find_and_elect_candidate_mirror tests m)

-- The primary section of the configuration for apt, and whether the security suite is disabled.
pub record AptConfig : Type 0 where
  pub primary_uri : Option String
  pub no_security : Bool

abbrev pub is_reserved : String → Bool
is_reserved key = str_eq key "disable_components" || str_eq key "primary" || str_eq key "fallback"

-- `_get_apt_config_common`, and the primary section; `keys` are those of the configuration that was
-- loaded, and `none` is one of its three AssertionErrors.
abbrev pub get_apt_config_common : List String → Bool → Option String → Option AptConfig
get_apt_config_common keys no_security uri =
    if any is_reserved keys
    then none
    else some (record { primary_uri = uri; no_security = no_security })

-- `_get_apt_config_using_candidate`; `none` is the AssertionError of an entry without a URI, too.
abbrev pub get_apt_config_using_candidate : List String → Bool → Entry → Option AptConfig
get_apt_config_using_candidate keys no_security (primary none arches country) = none
get_apt_config_using_candidate keys no_security (primary (some uri) arches country) =
    get_apt_config_common keys no_security (some uri)
get_apt_config_using_candidate keys no_security (legacy uri) =
    get_apt_config_common keys no_security (some uri)

-- `get_apt_config_staged` and `get_apt_config_elected`; `none` is their AssertionError.
abbrev pub using : List String → Bool → Option Entry → Option AptConfig
using keys no_security none = none
using keys no_security (some e) = get_apt_config_using_candidate keys no_security e

abbrev pub offline_config : List String → Option Entry → Option Entry → Option AptConfig
offline_config keys (some elected) first = get_apt_config_using_candidate keys false elected
offline_config keys none (some e) = get_apt_config_using_candidate keys false e
offline_config keys none none = get_apt_config_common keys false none

unfoldable pub get_apt_config : List String → (final online : Bool) → MirrorModel → Option AptConfig
get_apt_config keys false online m = using keys true m.primary_staged
get_apt_config keys true true m = using keys false m.primary_elected
get_apt_config keys true false m =
    offline_config keys m.primary_elected (find (can_serve m.architecture) m.primary_candidates)
