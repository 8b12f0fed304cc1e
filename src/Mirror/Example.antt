-- ===== src/Mirror/Example.antt =====
-- Three candidates: the country mirror, not resolved yet, one that fails, and one that works.
use subiquity.Base.{◌≡◌, refl, true, false, none, some, [], ◌∷◌, ◌==◌, ◌&&◌, if◌then◌else◌, map}
use subiquity.Mirror.{
  primary, Defaults, MirrorModel, Tests, passed, failed, errored, test_twice, test_error, ok,
  runtime_error, abort, offline_install, try_candidates, find_and_elect_candidate_mirror,
  apply_fallback, run_mirror_selection_or_fallback, compatible_primary_candidates,
}
use subiquity.Mirror.Elect.{IsSelected, run_mirror_selection_or_fallback-IsSelected}
use subiquity.Mirror.Tried.{Tried, find_and_elect_candidate_mirror-Tried}
use subiquity.Mirror.Load.{
  load_autoinstall_data, make_autoinstall, unresolved, load_autoinstall_data-make_autoinstall,
}

abbrev defaults : Defaults
defaults = record {
  supported_arches_uri = "http://archive.ubuntu.com/ubuntu";
  ports_arches_uri = "http://ports.ubuntu.com/ubuntu-ports";
  primary_arches = "amd64" ∷ "i386" ∷ [];
  ports_arches = "arm64" ∷ [];
}

abbrev model : MirrorModel
model = record {
  legacy_primary = false;
  primary_candidates =
      primary none none true
      ∷ primary (some "http://a") (some ("amd64" ∷ [])) false
      ∷ primary (some "http://arm") (some ("arm64" ∷ [])) false
      ∷ primary (some "http://b") none false
      ∷ [];
  primary_staged = none;
  primary_elected = none;
  architecture = "amd64";
  fallback = offline_install;
  network_up = true;
  force_offline = false;
}

-- The candidate with the number 2 passes its second test.
abbrev second_test : Tests
second_test i attempt = if i == 2 && attempt == 1 then passed else failed

abbrev no_test : Tests
no_test i attempt = failed

last_is_elected :
    find_and_elect_candidate_mirror second_test model
    ≡ ok (record model {
      primary_staged = some (primary (some "http://b") none false);
      primary_elected = some (primary (some "http://b") none false);
    })
unfolding find_and_elect_candidate_mirror try_candidates test_twice
last_is_elected = refl

find_and_elect_candidate_mirror-Tried_example :
    Tried second_test 0
      (compatible_primary_candidates model)
      (find_and_elect_candidate_mirror second_test model)
find_and_elect_candidate_mirror-Tried_example =
    find_and_elect_candidate_mirror-Tried second_test model refl

run_mirror_selection_or_fallback-IsSelected_example :
    IsSelected
      ("preserve_sources_list" ∷ [])
      no_test
      offline_install
      (run_mirror_selection_or_fallback defaults "http://default" no_test model)
run_mirror_selection_or_fallback-IsSelected_example =
    run_mirror_selection_or_fallback-IsSelected ("preserve_sources_list" ∷ []) defaults
      "http://default" no_test model refl tt

-- An exception of a test other than AptConfigCheckError is not caught.
test_of_error :
    run_mirror_selection_or_fallback defaults "http://default" (λ i attempt. errored) model
    ≡ test_error
unfolding run_mirror_selection_or_fallback find_and_elect_candidate_mirror try_candidates test_twice
test_of_error = refl

aborted :
    run_mirror_selection_or_fallback defaults "http://default" no_test
      (record model { fallback = abort })
    ≡ runtime_error
unfolding run_mirror_selection_or_fallback find_and_elect_candidate_mirror try_candidates
    apply_fallback test_twice
aborted = refl

load_autoinstall_data-make_autoinstall_example :
    load_autoinstall_data defaults "http://default"
      (make_autoinstall model)
      (record model { fallback = abort })
    ≡ some (record model { primary_candidates = map unresolved model.primary_candidates })
load_autoinstall_data-make_autoinstall_example =
    load_autoinstall_data-make_autoinstall defaults "http://default" model
      (record model { fallback = abort }) (tt, (refl, (refl, (refl, tt))))
