-- ===== src/Match/Example.antt =====
-- Disks, and directives that select one of them. The sort key is the number.
use text.Mathlib.Text.{◌==◌ as str_eq}
use subiquity.Base.{ℕ, ◌≡◌, refl, Bool, true, false, none, some, List, [], ◌∷◌, ltb, arith}
use subiquity.Match.{
  Candidate, MatchDirective, largest, all_match, filtered, insert_by, sort_by, make_matchers,
  sorted_matches, matching_disks, disk_for_match,
}
use subiquity.Match.Sort.{IsOrder}
use subiquity.Match.Select.{Answers, disk_for_match-Answers}

abbrev by_number : Candidate → Candidate → Bool
by_number c d = ltb c.id d.id

by_number-IsOrder : IsOrder by_number
by_number-IsOrder = record { asym = λ a b h. ground arith; apart = λ a b c h k. ground arith }

abbrev a_disk : ℕ → ℕ → Candidate
a_disk n size = record {
  id = n;
  size = size;
  path = some "/dev/sda";
  udev = λ key. "";
  is_ssd = some true;
  has_in_use_partition = false;
}

abbrev anything : MatchDirective
anything = record {
  serial = none;
  model = none;
  vendor = none;
  path = none;
  id_path = none;
  devpath = none;
  ssd = none;
  size = none;
  install_media = false;
}

-- The disk with that serial, or else the largest one.
abbrev directives : List MatchDirective
directives = record anything { serial = some "s7" } ∷ record anything { size = some largest } ∷ []

abbrev three_disks : List Candidate
three_disks = a_disk 2 20 ∷ a_disk 3 10 ∷ a_disk 1 20 ∷ []

largest_is_found :
    disk_for_match str_eq by_number three_disks directives ≡ some (some (a_disk 1 20))
unfolding disk_for_match matching_disks filtered all_match make_matchers sorted_matches sort_by
    insert_by
largest_is_found = refl

disk_for_match-Answers_example :
    Answers str_eq by_number (some (a_disk 1 20)) three_disks directives
disk_for_match-Answers_example =
    disk_for_match-Answers str_eq by_number by_number-IsOrder three_disks directives
      (some (a_disk 1 20)) largest_is_found

-- Matching the path of a disk that has none raises a TypeError.
disk_without_path :
    disk_for_match str_eq by_number
      (record (a_disk 1 20) { path = none } ∷ [])
      (record anything { path = some "/dev/*" } ∷ [])
    ≡ none
unfolding disk_for_match matching_disks filtered all_match make_matchers sorted_matches sort_by
    insert_by
disk_without_path = refl
