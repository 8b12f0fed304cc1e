-- ===== src/Mirror/Load.antt =====
-- The autoinstall section of the mirror model: `load_autoinstall_data` and `make_autoinstall`. What
-- `make_autoinstall` writes in the legacy format is a section of curtin, and is left out.
use Prim.Native.String.{String}
use subiquity.Base.{
  ◌≡◌, refl, ap, ◌∙◌, true, false, Option, none, some, List, [], ◌∷◌, map, All, is_some,
}
use subiquity.Mirror.{
  Entry, primary, legacy, Defaults, MirrorModel, Fallback, get_default_primary_candidates,
}

-- "country-mirror", a dict, or a section of the legacy format, which is a list.
pub data EntryConfig : Type 0 where
  country : EntryConfig
  entry : (uri : Option String) (arches : Option (List String)) → EntryConfig
  legacy_section : (uri : String) → EntryConfig

-- The keys "primary" (with the URI that curtin finds in it), "mirror-selection" with its key "primary",
-- and "fallback".
pub record AptSection : Type 0 where
  pub legacy_uri : Option String
  pub selection : Option (Option (List EntryConfig))
  pub fallback : Option Fallback

-- `PrimaryEntry.from_config`; `none` is the ValueError of a missing URI, and the AttributeError of a
-- list, which has no `get`.
abbrev pub from_config : EntryConfig → Option Entry
from_config country = some (primary none none true)
from_config (entry none arches) = none
from_config (entry (some uri) arches) = some (primary (some uri) arches false)
from_config (legacy_section uri) = none

abbrev pub and_entry : Option Entry → Option (List Entry) → Option (List Entry)
and_entry (some e) (some es) = some (e ∷ es)
and_entry (some e) none = none
and_entry none es = none

unfoldable pub from_configs : List EntryConfig → Option (List Entry)
from_configs [] = some []
from_configs (c ∷ cs) = and_entry (from_config c) (from_configs cs)

-- `serialize_for_ai` of both sorts of entries
abbrev pub serialize_for_ai : Entry → EntryConfig
serialize_for_ai (primary uri arches true) = country
serialize_for_ai (primary uri arches false) = entry uri arches
serialize_for_ai (legacy uri) = legacy_section uri

abbrev pub or_set : Fallback → Option Fallback → Fallback
or_set f none = f
or_set f (some g) = g

-- The candidates that a section gives; `none` is an exception.
abbrev pub loaded_candidates :
    Defaults
    → (default_mirror : String) → Option String
    → Option (Option (List EntryConfig))
    → Option (List Entry)
loaded_candidates c default_mirror (some uri) none = some (legacy uri ∷ [])
loaded_candidates c default_mirror (some uri) (some selection) = none
loaded_candidates c default_mirror none (some (some configs)) = from_configs configs
loaded_candidates c default_mirror none (some none) =
    some (get_default_primary_candidates c default_mirror false)
loaded_candidates c default_mirror none none =
    some (get_default_primary_candidates c default_mirror false)

unfoldable pub load_autoinstall_data :
    Defaults → (default_mirror : String) → AptSection → MirrorModel → Option MirrorModel
unfolding from_configs
load_autoinstall_data c default_mirror d m =
    elim (loaded_candidates c default_mirror d.legacy_uri d.selection) [
      | none ↦ none
      | some es ↦ some (record m {
        legacy_primary = is_some d.legacy_uri;
        primary_candidates = es;
        fallback = or_set m.fallback d.fallback;
      })
    ]

-- `make_autoinstall`, where `legacy_primary` is False
unfoldable pub make_autoinstall : MirrorModel → AptSection
make_autoinstall m = record {
  legacy_uri = none;
  selection = some (some (map serialize_for_ai m.primary_candidates));
  fallback = some m.fallback;
}

-- The entries of the modern format: for the country mirror, or with a URI.
abbrev pub IsModern : Entry → Type 0
IsModern (primary uri arches true) = Unit
IsModern (primary uri arches false) = is_some uri ≡ true
IsModern (legacy uri) = ⊥

-- What the section says of an entry: it does not keep the URI of the country mirror.
abbrev pub unresolved : Entry → Entry
unresolved (primary uri arches true) = primary none none true
unresolved (primary uri arches false) = primary uri arches false
unresolved (legacy uri) = legacy uri

from_config-serialize_for_ai :
    (e : Entry) → IsModern e → from_config (serialize_for_ai e) ≡ some (unresolved e)
from_config-serialize_for_ai (primary uri arches true) h = refl
from_config-serialize_for_ai (primary (some uri) arches false) h = refl
from_config-serialize_for_ai (primary none arches false) h = cc
from_config-serialize_for_ai (legacy uri) h = absurd h

from_configs-map :
    (es : List Entry)
    → All IsModern es
    → from_configs (map serialize_for_ai es) ≡ some (map unresolved es)
unfolding from_configs
from_configs-map [] h = refl
from_configs-map (e ∷ es) h =
    ap (λ o. and_entry o (from_configs (map serialize_for_ai es)))
      (from_config-serialize_for_ai e h.0)
    ∙ ap (and_entry (some (unresolved e))) (from_configs-map es h.1)

-- What `make_autoinstall` writes for candidates of the modern format loads without an error in any model,
-- and gives the same candidates, the country mirror without the URI that was found for it, and the same
-- fallback.
pub load_autoinstall_data-make_autoinstall :
    (c : Defaults) (default_mirror : String) (m fresh : MirrorModel)
    → All IsModern m.primary_candidates
    → load_autoinstall_data c default_mirror (make_autoinstall m) fresh
      ≡ some (record fresh {
        legacy_primary = false;
        primary_candidates = map unresolved m.primary_candidates;
        fallback = m.fallback;
      })
unfolding load_autoinstall_data make_autoinstall
load_autoinstall_data-make_autoinstall c default_mirror m fresh h =
    ap
      (λ o. elim o [
        | none ↦ none
        | some es ↦ some (record fresh {
          legacy_primary = false;
          primary_candidates = es;
          fallback = m.fallback;
        })
      ])
      (from_configs-map m.primary_candidates h)
