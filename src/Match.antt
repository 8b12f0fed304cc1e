-- ===== src/Match.antt =====
-- Which disks an autoinstall match directive selects: `_make_matchers`, `_filtered_matches`,
-- `_sorted_matches` and `_matching_disks` of FilesystemModel in subiquity/models/filesystem.py, for disks;
-- a RAID that `potential_boot_disks` offers is left out.
pub mod Sort
pub mod Best
pub mod Select
pub mod Returns
pub mod Example
use Prim.Native.String.{String}
use subiquity.Base.{
  ℕ, Bool, true, false, not, ◌||◌, Option, none, some, List, [], ◌∷◌, ◌++◌, ◌==◌, ltb,
  if◌then◌else◌, any, is_some, bool_eq,
}

-- What the matchers read of a disk; `udev` gives a property of the probe data, which is loaded, or "".
pub record Candidate : Type 0 where
  pub id : ℕ
  pub size : ℕ
  pub path : Option String
  pub udev : String → String
  -- `info_for_display()["rotational"] == "false"`; `none` is its exception on a disk that was not probed
  -- (`_info` is None), or has neither a DEVPATH nor a path.
  pub is_ssd : Option Bool
  pub has_in_use_partition : Bool

pub data SizeWanted : Type 0 where
  smallest largest : SizeWanted

pub record MatchDirective : Type 0 where
  pub serial : Option String
  pub model : Option String
  pub vendor : Option String
  pub path : Option String
  pub id_path : Option String
  pub devpath : Option String
  pub ssd : Option Bool
  pub size : Option SizeWanted
  pub install_media : Bool

-- A test of a candidate; `none` is an exception.
abbrev pub Matcher : Type 0
Matcher = Candidate → Option Bool

abbrev pub match_ssd : Bool → Matcher
match_ssd wanted c = elim c.is_ssd [ none ↦ none | some ssd ↦ some (bool_eq ssd wanted) ]

abbrev pub matcher_for : {A : Type 0} → Option A → (A → Matcher) → List Matcher
matcher_for none f = []
matcher_for (some a) f = f a ∷ []

abbrev pub matcher_if : Bool → Matcher → List Matcher
matcher_if true m = m ∷ []
matcher_if false m = []

-- `all(match_fn(disk) for match_fn in matchers)`
unfoldable pub all_match : List Matcher → Candidate → Option Bool
all_match [] c = some true
all_match (m ∷ ms) c =
    let rest = all_match ms c in
    elim (m c) [ none ↦ none | some b ↦ if b then rest else some false ]

unfoldable pub filtered : List Matcher → List Candidate → Option (List Candidate)
unfolding all_match
filtered ms [] = some []
filtered ms (c ∷ cs) =
    let rest = filtered ms cs in
    elim (all_match ms c) [
      | none ↦ none
      | some b ↦ elim rest [ none ↦ none | some ds ↦ if b then some (c ∷ ds) else some ds ]
    ]

-- In front of the first element that is not before `x`.
unfoldable pub insert_by : {A : Type 0} → (A → A → Bool) → A → List A → List A
insert_by lt x [] = x ∷ []
insert_by lt x (y ∷ ys) = let rest = insert_by lt x ys in if lt y x then y ∷ rest else x ∷ y ∷ ys

-- `list.sort`, which is stable, also with `reverse=True`
unfoldable pub sort_by : {A : Type 0} → (A → A → Bool) → List A → List A
unfolding insert_by
sort_by lt [] = []
sort_by lt (x ∷ xs) = insert_by lt x (sort_by lt xs)

abbrev pub smaller : Candidate → Candidate → Bool
smaller c d = ltb c.size d.size

abbrev pub larger : Candidate → Candidate → Bool
larger c d = ltb d.size c.size

abbrev pub sort_size : Option SizeWanted → List Candidate → List Candidate
sort_size none cs = cs
sort_size (some smallest) cs = sort_by smaller cs
sort_size (some largest) cs = sort_by larger cs

-- `fnmatch.fnmatchcase`, and `<` of the `sort_key` of two disks: tuples of texts.
module _ (fnmatchcase : String → String → Bool) (key_lt : Candidate → Candidate → Bool) where
  abbrev pub match_udev : String → String → Matcher
  match_udev key pattern_text c = some (fnmatchcase (c.udev key) pattern_text)

  -- `fnmatchcase` raises a TypeError for a disk without a path.
  abbrev pub match_path : String → Matcher
  match_path pattern_text c = elim c.path [
    | none ↦ none
    | some path ↦ some (fnmatchcase path pattern_text)
  ]

  -- `_make_matchers`
  unfoldable pub make_matchers : MatchDirective → List Matcher
  make_matchers m =
      (λ c. some (not (c.size == 0)))
        ∷ matcher_if m.install_media (λ c. some c.has_in_use_partition)
      ++ matcher_for m.serial (match_udev "ID_SERIAL")
      ++ matcher_for m.model (match_udev "ID_MODEL")
      ++ matcher_for m.vendor (match_udev "ID_VENDOR")
      ++ matcher_for m.path match_path
      ++ matcher_for m.id_path (match_udev "ID_PATH")
      ++ matcher_for m.devpath (match_udev "DEVPATH")
      ++ matcher_for m.ssd match_ssd
      ++ matcher_if (is_some m.size || is_some m.ssd) (λ c. some (not c.has_in_use_partition))

  -- `_sorted_matches`
  unfoldable pub sorted_matches : MatchDirective → List Candidate → List Candidate
  unfolding sort_by
  sorted_matches m cs = sort_size m.size (sort_by key_lt cs)

  -- `_filtered_matches`, and `_sorted_matches` of the result
  abbrev pub candidates : MatchDirective → List Candidate → Option (List Candidate)
  candidates m disks = elim (filtered (make_matchers m) disks) [
    | none ↦ none
    | some cs ↦ some (sorted_matches m cs)
  ]

  -- `_matching_disks`: the candidates for the first directive that has any, and that directive
  unfoldable pub matching_disks :
      List Candidate → List MatchDirective → Option (List Candidate × Option MatchDirective)
  unfolding filtered make_matchers sorted_matches
  matching_disks disks [] = some ([], none)
  matching_disks disks (m ∷ ms) =
      let rest = matching_disks disks ms in
      elim (candidates m disks) [
        | none ↦ none
        | some [] ↦ rest
        | some (c ∷ cs) ↦ some (c ∷ cs, some m)
      ]

  abbrev pub first_of : List Candidate → Option Candidate
  first_of [] = none
  first_of (c ∷ cs) = some c

  -- `disks_for_match`
  unfoldable pub disks_for_match : List Candidate → List MatchDirective → Option (List Candidate)
  unfolding matching_disks
  disks_for_match disks ms = elim (matching_disks disks ms) [ none ↦ none | some r ↦ some r.0 ]

  unfoldable pub disk_for_match : List Candidate → List MatchDirective → Option (Option Candidate)
  unfolding matching_disks
  disk_for_match disks ms = elim (matching_disks disks ms) [
    | none ↦ none
    | some r ↦ some (first_of r.0)
  ]
