-- ===== src/Serialize/Out.antt =====
-- `serialize` of subiquity/common/serialize.py.
use Prim.Native.String.{String}
use text.Mathlib.Text.{◌==◌ as str_eq}
use subiquity.Base.{
  Bool, true, false, ◌&&◌, ◌||◌, Option, none, some, List, [], ◌∷◌, ◌++◌, ◌==◌, if◌then◌else◌,
}
use subiquity.Serialize.{
  Value, str_value, list_value, dict_value, member, Values, nil, cons, Pairs, end, pair, Enum, Ann,
  none_ann, any_ann, int_ann, str_ann, bool_ann, bare_list, bare_dict, unknown_ann, list_of,
  dict_of, union, class, enum, non_exhaustive, Anns, no_args, arg, Fields, no_fields, field, Config,
  item, key, at, attribute, ContextPath, none_type, int_type, str_type, bool_type, list_type,
  dict_type, type_not_found, cannot_serialize, unknown_annotation, type_error, attribute_error,
  Result, ok, failed, raised, ◌>>=◌, from_option, asserted, lookup, set_pair, to_dict,
  get_attribute, elements, items, each_value, each_pair, is_none, has_none, count_args, all_classes,
  all_scalars, is_instance, is_object_of, has_str_values, class_type,
}

-- `_ann_ok_as_dict_key`
abbrev pub enum_ok_as_key : Config → Enum → Bool
enum_ok_as_key cfg e = cfg.enums_by_name || has_str_values e

abbrev pub ok_as_key : Config → Ann → Bool
ok_as_key cfg str_ann = true
ok_as_key cfg (enum e) = enum_ok_as_key cfg e
ok_as_key cfg (non_exhaustive e) = enum_ok_as_key cfg e
ok_as_key cfg _ = false

-- The value of a member; the members of a value's own enum are known.
unfoldable pub member_value : String → List (String × Value) → Option Value
member_value n [] = none
member_value n ((m, v) ∷ ms) = let rest = member_value n ms in if str_eq n m then some v else rest

-- `_serialize_enum`
unfoldable pub serialize_enum : Config → Enum → ContextPath → Value → Result Value
unfolding asserted member_value
serialize_enum cfg e p (member c n) = asserted (class_type e.name) p (member c n) >>= λ _.
    if cfg.enums_by_name
    then ok (str_value n)
    else from_option attribute_error (member_value n e.members)
serialize_enum cfg e p v = asserted (class_type e.name) p v

-- `_walk_NonExhaustive`
abbrev pub serialize_non_exhaustive : Config → Enum → ContextPath → Value → Result Value
serialize_non_exhaustive cfg e p (member c n) =
    if str_eq c e.name then serialize_enum cfg e p (member c n) else ok (member c n)
serialize_non_exhaustive cfg e p v = ok v

-- The test of `_serialize_dict` on each key
unfoldable pub all_str_keys : ContextPath → Pairs → Pairs → Result Value
unfolding asserted
all_str_keys p all end = ok (dict_value all)
all_str_keys p all (pair k v ps) =
    asserted str_type (p ++ key k ∷ []) k >>= λ _. all_str_keys p all ps

abbrev pub check_keys : ContextPath → Value → Result Value
check_keys p (dict_value ps) = all_str_keys p ps ps
check_keys p v = ok v

-- The pairs as lists of two
abbrev pub pairs_as_lists : Pairs → Values
pairs_as_lists end = nil
pairs_as_lists (pair k v ps) = cons (list_value (cons k (cons v nil))) (pairs_as_lists ps)

abbrev pub dict_out : Bool → Pairs → Result Value
dict_out true ps = to_dict end ps >>= λ d. ok (dict_value d)
dict_out false ps = ok (list_value (pairs_as_lists ps))

abbrev pub values_of : Pairs → Values
values_of end = nil
values_of (pair k v ps) = cons v (values_of ps)

-- What `_serialize_attr` makes of the pairs of its fields
abbrev pub class_out : Config → Pairs → Result Value
class_out cfg ps =
    if cfg.compact
    then ok (list_value (values_of ps))
    else to_dict end ps >>= λ d. ok (dict_value d)

-- `r.insert(0, a.__name__)` and `r["$type"] = a.__name__`
abbrev pub tagged : String → Value → Result Value
tagged n (list_value vs) = ok (list_value (cons (str_value n) vs))
tagged n (dict_value ps) = ok (dict_value (set_pair (str_value "$type") (str_value n) ps))
tagged n _ = raised type_error

unfoldable mutual
  unfolding asserted to_dict set_pair each_value each_pair lookup serialize_enum all_str_keys

  -- `_serialize`
  pub serialize_at : Config → Ann → ContextPath → Value → Result Value
  serialize_at cfg none_ann p v = asserted none_type p v
  serialize_at cfg any_ann p v = ok v
  serialize_at cfg int_ann p v = asserted int_type p v
  serialize_at cfg str_ann p v = asserted str_type p v
  serialize_at cfg bool_ann p v = asserted bool_type p v
  serialize_at cfg bare_list p v = asserted list_type p v
  serialize_at cfg bare_dict p v = asserted dict_type p v >>= check_keys p
  serialize_at cfg unknown_ann p v = failed p unknown_annotation
  serialize_at cfg (list_of a) p v = from_option type_error (elements v) >>= λ vs.
      each_value (λ i w. serialize_at cfg a (p ++ item i ∷ []) w) 0 vs >>= λ ws. ok (list_value ws)
  serialize_at cfg (dict_of a b) p v = items v >>= λ ps.
      each_pair (λ k. serialize_at cfg a (p ++ key k ∷ []) k)
        (λ k w. serialize_at cfg b (p ++ at k ∷ []) w) ps
      >>= dict_out (ok_as_key cfg a)
  serialize_at cfg (union args) p v =
      if has_none args && is_none v
      then ok v
      else if has_none args && count_args args == 1
      then serialize_only cfg args p v
      else if all_classes args
      then serialize_class cfg args p v
      else if all_scalars args
      then serialize_scalar cfg args p v
      else failed p cannot_serialize
  serialize_at cfg (class n fs) p v = serialize_fields cfg fs p v >>= class_out cfg
  serialize_at cfg (enum e) p v = serialize_enum cfg e p v
  serialize_at cfg (non_exhaustive e) p v = serialize_non_exhaustive cfg e p v

  -- The one argument that is not NoneType
  pub serialize_only : Config → Anns → ContextPath → Value → Result Value
  serialize_only cfg no_args p v = failed p cannot_serialize
  serialize_only cfg (arg none_ann args) p v = serialize_only cfg args p v
  serialize_only cfg (arg a args) p v = serialize_at cfg a p v

  -- The first argument that the object is an instance of
  pub serialize_class : Config → Anns → ContextPath → Value → Result Value
  serialize_class cfg no_args p v = failed p type_not_found
  serialize_class cfg (arg (class n fs) args) p v =
      if is_object_of n v
      then (serialize_fields cfg fs p v >>= class_out cfg) >>= tagged n
      else serialize_class cfg args p v
  serialize_class cfg (arg _ args) p v = serialize_class cfg args p v

  pub serialize_scalar : Config → Anns → ContextPath → Value → Result Value
  serialize_scalar cfg no_args p v = failed p cannot_serialize
  serialize_scalar cfg (arg a args) p v =
      if is_instance a v then serialize_at cfg a p v else serialize_scalar cfg args p v

  -- The pairs of `_serialize_attr`
  pub serialize_fields : Config → Fields → ContextPath → Value → Result Pairs
  serialize_fields cfg no_fields p v = ok end
  serialize_fields cfg (field n k a d fs) p v = get_attribute n v >>= λ x.
      serialize_at cfg a (p ++ attribute n ∷ []) x >>= λ y.
      serialize_fields cfg fs p v >>= λ ps. ok (pair (str_value k) y ps)

-- `Serializer.serialize`
unfoldable pub serialize : Config → Ann → Value → Result Value
unfolding serialize_at
serialize cfg a v = serialize_at cfg a [] v
