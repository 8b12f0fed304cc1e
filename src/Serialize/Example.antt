-- ===== src/Serialize/Example.antt =====
-- The choices of a guided installation: an object with an optional text, a list, a union of two
-- classes, an enum, and a dict whose keys are numbers.
use subiquity.Base.{◌≡◌, refl, inl, inr, true, false, none, some, [], ◌∷◌}
use subiquity.Base.Ints.{pos}
use subiquity.Serialize.{
  Value, none_value, bool_value, int_value, str_value, list_value, dict_value, member, object, nil,
  cons, Pairs, end, pair, Enum, Ann, none_ann, int_ann, str_ann, bool_ann, list_of, dict_of, union,
  class, enum, no_args, arg, no_fields, field, Config, int_type, is_not_a, ok, failed, ◌>>=◌,
  asserted, lookup, set_pair,
}
use subiquity.Serialize.Out.{serialize, serialize_at, member_value}
use subiquity.Serialize.Back.{
  deserialize, deserialize_at, deserialize_field, constructed, read_items, member_with,
}
use subiquity.Serialize.Typed.{IsMember, HasType, HasOnly, HasClass, HasFields}
use subiquity.Serialize.Round.{deserialize-serialize}
use subiquity.Serialize.Unknown.{deserialize_unknown_key}

abbrev by_names : Config
by_names = record { compact = false; ignore_unknown_fields = false; enums_by_name = true }

abbrev in_lists : Config
in_lists = record { compact = true; ignore_unknown_fields = false; enums_by_name = false }

abbrev wipe : Enum
wipe = record {
  name = "Wipe";
  members = ("ZERO", str_value "zero") ∷ ("SHRED", str_value "shred") ∷ [];
}

abbrev reformat_class : Ann
reformat_class = class "Reformat" (field "disk_id" "disk-id" str_ann none no_fields)

abbrev use_gap_class : Ann
use_gap_class = class "UseGap" (field "size" "size" int_ann none no_fields)

abbrev choice : Ann
choice = class "Choice" (
    field "target" "target" (union (arg reformat_class (arg use_gap_class no_args))) none (
      field "password" "password" (union (arg str_ann (arg none_ann no_args))) (some none_value) (
        field "sizes" "sizes" (list_of int_ann) none (
          field "wipe" "wipe" (enum wipe) none
            (field "counts" "counts" (dict_of int_ann bool_ann) none no_fields)))))

abbrev chosen : Value
chosen = object "Choice" (
    pair (str_value "target") (object "UseGap" (pair (str_value "size") (int_value (pos 7)) end)) (
      pair (str_value "password") none_value (
        pair (str_value "sizes")
          (list_value (cons (int_value (pos 1)) (cons (int_value (pos 2)) nil)))
          (pair (str_value "wipe") (member "Wipe" "SHRED") (
            pair (str_value "counts") (dict_value (pair (int_value (pos 4)) (bool_value true) end))
              end)))))

shred_IsMember : IsMember wipe "Wipe" "SHRED"
unfolding member_value member_with
shred_IsMember = record {
  same_class = refl;
  value = str_value "shred";
  value_of = refl;
  only_one = refl;
  not_none = refl;
}

chosen-HasType : (cfg : Config) → HasType cfg choice chosen
unfolding HasType HasClass HasOnly HasFields
chosen-HasType cfg = (
  refl,
  (
    refl,
    refl,
    refl,
    (refl, refl, refl, (refl, refl, refl, (refl, refl, refl, (refl, refl, refl, tt)))),
  ),
  (
    refl,
    inr (
      refl,
      inr (refl, inl (refl, inr (refl, inl (refl, ((refl, refl, refl, tt), (refl, tt, tt)))))),
    ),
    (
      refl,
      inl (refl, tt),
      (
        refl,
        (tt, (tt, tt)),
        (refl, shred_IsMember, (refl, (tt, (refl, tt, tt), (tt, tt, tt)), tt)),
      ),
    ),
  ),
)

deserialize-serialize_example :
    (w : Value) × (serialize by_names choice chosen ≡ ok w)
    × (deserialize by_names choice w ≡ ok chosen)
deserialize-serialize_example =
    deserialize-serialize by_names choice chosen (chosen-HasType by_names)

-- A compact union has the class's name in front.
compact_union :
    serialize in_lists
      (union (arg reformat_class (arg use_gap_class no_args)))
      (object "UseGap" (pair (str_value "size") (int_value (pos 7)) end))
    ≡ ok (list_value (cons (str_value "UseGap") (cons (int_value (pos 7)) nil)))
unfolding serialize serialize_at ◌>>=◌ lookup asserted
compact_union = refl

-- `isinstance(True, int)` holds, so that the int of a union takes a bool, and refuses it.
bool_in_union :
    serialize by_names (union (arg int_ann (arg bool_ann no_args))) (bool_value true)
    ≡ failed [] (is_not_a int_type)
unfolding serialize serialize_at asserted
bool_in_union = refl

abbrev size_3 : Pairs
size_3 = pair (str_value "size") (int_value (pos 3)) end

size_3_is_read :
    deserialize by_names use_gap_class (dict_value size_3) ≡ ok (object "UseGap" size_3)
unfolding deserialize deserialize_at ◌>>=◌ lookup asserted read_items constructed set_pair
    deserialize_field
size_3_is_read = refl

deserialize_unknown_key_example :
    deserialize by_names use_gap_class (
      dict_value (
        pair
          (str_value "size")
          (int_value (pos 3))
          (pair (str_value "$type") (str_value "UseGap") end)))
    ≡ ok (object "UseGap" size_3)
deserialize_unknown_key_example =
    deserialize_unknown_key by_names "UseGap" (field "size" "size" int_ann none no_fields) size_3
      "$type" (str_value "UseGap") (object "UseGap" size_3) refl refl size_3_is_read
