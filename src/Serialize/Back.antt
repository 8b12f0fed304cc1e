-- ===== src/Serialize/Back.antt =====
-- `deserialize` of subiquity/common/serialize.py.
use Prim.Native.String.{String}
use subiquity.Base.{
  Bool, true, false, ◌&&◌, ◌||◌, Option, none, some, List, [], ◌∷◌, ◌++◌, ◌==◌, if◌then◌else◌,
}
use subiquity.Base.Ints.{pos}
use subiquity.Serialize.{
  Value, int_value, str_value, list_value, dict_value, member, object, Values, nil, cons, Pairs,
  end, pair, Enum, Ann, none_ann, any_ann, int_ann, str_ann, bool_ann, bare_list, bare_dict,
  unknown_ann, list_of, dict_of, union, class, enum, non_exhaustive, Anns, no_args, arg, Fields,
  no_fields, field, Config, item, key, at, ContextPath, none_type, int_type, str_type, bool_type,
  list_type, dict_type, type_not_found, cannot_serialize, type_error, attribute_error, key_error,
  value_error, index_error, Result, ok, failed, raised, ◌>>=◌, from_option, asserted, key_eq,
  lookup, set_pair, to_dict, elements, items, each_value, each_pair, is_none, has_none, count_args,
  all_classes, all_scalars, is_instance,
}
use subiquity.Serialize.Out.{ok_as_key, member_value}

-- The member with a value
unfoldable pub member_with : Value → List (String × Value) → Option String
member_with v [] = none
member_with v ((n, w) ∷ ms) = let rest = member_with v ms in if key_eq w v then some n else rest

abbrev pub member_named : String → Enum → Option Value → Result Value
member_named n e none = raised attribute_error
member_named n e (some v) = ok (member e.name n)

abbrev pub member_found : Enum → Option String → Result Value
member_found e none = raised value_error
member_found e (some n) = ok (member e.name n)

-- `getattr(annotation, cur)`
abbrev pub by_name : Enum → Value → Result Value
by_name e (str_value s) = member_named s e (member_value s e.members)
by_name e v = raised type_error

-- `_deserialize_enum`
unfoldable pub deserialize_enum : Config → Enum → Value → Result Value
unfolding member_value member_with
deserialize_enum cfg e v =
    if cfg.enums_by_name then by_name e v else member_found e (member_with v e.members)

-- Whether a value is one of the names or values of the members
unfoldable pub is_known : Bool → Value → List (String × Value) → Bool
is_known names v [] = false
is_known names v ((n, w) ∷ ms) = key_eq (if names then str_value n else w) v || is_known names v ms

-- One item of the list that stands for a dict whose keys are no texts: `for k, v in input_items`
abbrev pub two_of : Values → Result (Value × Value)
two_of (cons k (cons v nil)) = ok (k, v)
two_of _ = raised value_error

unfoldable pub unpacked : Values → Result Pairs
unpacked nil = ok end
unpacked (cons v vs) = from_option type_error (elements v) >>= two_of >>= λ kv.
    unpacked vs >>= λ ps. ok (pair kv.0 kv.1 ps)

abbrev pub input_items : Bool → Value → Result Pairs
input_items true v = items v
input_items false v = from_option type_error (elements v) >>= unpacked

-- `del`: the pairs without a key
unfoldable pub without_key : Value → Pairs → Pairs
without_key k end = end
without_key k (pair k' v ps) =
    let rest = without_key k ps in if key_eq k k' then ps else pair k' v rest

-- `cur.pop(0)` and `cur.pop("$type")`: what is popped, and what `cur` is then
abbrev pub pop_tag : Bool → Value → Result (Value × Value)
pop_tag true (list_value (cons v vs)) = ok (v, list_value vs)
pop_tag true (list_value nil) = raised index_error
pop_tag true (dict_value ps) = from_option key_error (lookup (int_value (pos 0)) ps) >>= λ v.
    ok (v, dict_value (without_key (int_value (pos 0)) ps))
pop_tag true v = raised attribute_error
pop_tag false (dict_value ps) = from_option key_error (lookup (str_value "$type") ps) >>= λ v.
    ok (v, dict_value (without_key (str_value "$type") ps))
pop_tag false (list_value vs) = raised type_error
pop_tag false v = raised attribute_error

-- The attributes of a new object, in the order of the fields: an argument, or else a default.
unfoldable pub constructed : Fields → Pairs → Result Pairs
unfolding lookup
constructed no_fields args = ok end
constructed (field n k a d fs) args =
    from_option type_error (elim (lookup (str_value n) args) [ none ↦ d | some v ↦ some v ])
    >>= λ v. constructed fs args >>= λ ps. ok (pair (str_value n) v ps)

-- A key of the input that no field is sent by
abbrev pub is_ignored : Config → Value → Bool
is_ignored cfg k = key_eq k (str_value "$type") || cfg.ignore_unknown_fields

-- The keyword arguments that the items of a dict give. `find` gives the name of the field that is
-- sent by a key, and what its value is read as.
unfoldable pub read_items :
    Config → (Value → Value → Option (String × Result Value)) → Pairs → Pairs → Result Pairs
unfolding set_pair
read_items cfg find args end = ok args
read_items cfg find args (pair k v ps) = elim (find k v) [
  | none ↦ if is_ignored cfg k then read_items cfg find args ps else raised key_error
  | some (n, r) ↦ r >>= λ x. read_items cfg find (set_pair (str_value n) x args) ps
]

abbrev pub object_of : String → Fields → Pairs → Result Value
object_of n fs args = constructed fs args >>= λ ps. ok (object n ps)

-- `_deserialize_attr`: `zip` reads the values of a list in the order of the fields, and `find` one
-- item of a dict.
abbrev pub read_positional :
    String → Fields → ContextPath → (Values → Result Pairs) → Value → Result Value
read_positional n fs p zip (list_value vs) = zip vs >>= object_of n fs
read_positional n fs p zip v = asserted list_type p v

abbrev pub read_keyword :
    Config
    → String
    → Fields
    → ContextPath
    → (Value → Value → Option (String × Result Value))
    → Value
    → Result Value
read_keyword cfg n fs p find (dict_value ps) = read_items cfg find end ps >>= object_of n fs
read_keyword cfg n fs p find v = asserted dict_type p v

abbrev pub read_class :
    Config
    → String
    → Fields
    → ContextPath
    → (Values → Result Pairs)
    → (Value → Value → Option (String × Result Value))
    → Value
    → Result Value
read_class cfg n fs p zip find v =
    if cfg.compact then read_positional n fs p zip v else read_keyword cfg n fs p find v

unfoldable mutual
  unfolding asserted to_dict set_pair each_value each_pair lookup deserialize_enum is_known unpacked
      without_key constructed read_items

  -- `_deserialize`
  pub deserialize_at : Config → Ann → ContextPath → Value → Result Value
  deserialize_at cfg none_ann p v = asserted none_type p v
  deserialize_at cfg any_ann p v = ok v
  deserialize_at cfg int_ann p v = asserted int_type p v
  deserialize_at cfg str_ann p v = asserted str_type p v
  deserialize_at cfg bool_ann p v = asserted bool_type p v
  deserialize_at cfg bare_list p v = asserted list_type p v
  deserialize_at cfg bare_dict p v = asserted dict_type p v
  deserialize_at cfg unknown_ann p v = raised key_error
  deserialize_at cfg (list_of a) p v = from_option type_error (elements v) >>= λ vs.
      each_value (λ i w. deserialize_at cfg a (p ++ item i ∷ []) w) 0 vs >>= λ ws.
      ok (list_value ws)
  deserialize_at cfg (dict_of a b) p v = input_items (ok_as_key cfg a) v >>= λ ps.
      each_pair (λ k. deserialize_at cfg a (p ++ key k ∷ []) k)
        (λ k w. deserialize_at cfg b (p ++ at k ∷ []) w) ps
      >>= λ qs. to_dict end qs >>= λ d. ok (dict_value d)
  deserialize_at cfg (union args) p v =
      if has_none args && is_none v
      then ok v
      else if has_none args && count_args args == 1
      then deserialize_only cfg args p v
      else if all_classes args
      then (pop_tag cfg.compact v >>= λ nv. deserialize_class cfg args p nv.0 nv.1)
      else if all_scalars args
      then deserialize_scalar cfg args p v
      else failed p cannot_serialize
  deserialize_at cfg (class n fs) p v =
      read_class cfg n fs p (λ vs. deserialize_zip cfg fs p vs)
        (λ k w. deserialize_field cfg fs p k w) v
  deserialize_at cfg (enum e) p v = deserialize_enum cfg e v
  deserialize_at cfg (non_exhaustive e) p v =
      if is_known cfg.enums_by_name v e.members then deserialize_enum cfg e v else ok v

  pub deserialize_only : Config → Anns → ContextPath → Value → Result Value
  deserialize_only cfg no_args p v = failed p cannot_serialize
  deserialize_only cfg (arg none_ann args) p v = deserialize_only cfg args p v
  deserialize_only cfg (arg a args) p v = deserialize_at cfg a p v

  -- The argument with the name that was popped
  pub deserialize_class : Config → Anns → ContextPath → (tag : Value) → Value → Result Value
  deserialize_class cfg no_args p tag v = failed p type_not_found
  deserialize_class cfg (arg (class n fs) args) p tag v =
      if key_eq (str_value n) tag
      then read_class cfg n fs p (λ vs. deserialize_zip cfg fs p vs)
          (λ k w. deserialize_field cfg fs p k w) v
      else deserialize_class cfg args p tag v
  deserialize_class cfg (arg _ args) p tag v = deserialize_class cfg args p tag v

  pub deserialize_scalar : Config → Anns → ContextPath → Value → Result Value
  deserialize_scalar cfg no_args p v = failed p cannot_serialize
  deserialize_scalar cfg (arg a args) p v =
      if is_instance a v then deserialize_at cfg a p v else deserialize_scalar cfg args p v

  -- `zip` of the fields and the values: the shorter one ends it.
  pub deserialize_zip : Config → Fields → ContextPath → Values → Result Pairs
  deserialize_zip cfg no_fields p vs = ok end
  deserialize_zip cfg (field n k a d fs) p nil = ok end
  deserialize_zip cfg (field n k a d fs) p (cons v vs) =
      deserialize_at cfg a (p ++ at (str_value n) ∷ []) v >>= λ x.
      deserialize_zip cfg fs p vs >>= λ ps. ok (pair (str_value n) x ps)

  -- The field that is sent by a key
  pub deserialize_field :
      Config → Fields → ContextPath → (key value : Value) → Option (String × Result Value)
  deserialize_field cfg no_fields p k v = none
  deserialize_field cfg (field n k' a d fs) p k v =
      if key_eq k (str_value k')
      then some (n, deserialize_at cfg a (p ++ at k ∷ []) v)
      else deserialize_field cfg fs p k v

-- `Serializer.deserialize`
unfoldable pub deserialize : Config → Ann → Value → Result Value
unfolding deserialize_at
deserialize cfg a v = deserialize_at cfg a [] v
