-- ===== src/Serialize/Round.antt =====
-- What is sent is read back as it was.
use Prim.Native.String.{String}
use text.Mathlib.Text.{◌==◌ as str_eq}
use subiquity.Base.{◌≡◌, refl, ap, sym, subst, ◌∙◌, inl, inr, true, false, ◌&&◌, []}
use subiquity.Serialize.{
  Value, none_value, bool_value, int_value, str_value, list_value, dict_value, member, object,
  Pairs, end, pair, Ann, none_ann, any_ann, int_ann, str_ann, bool_ann, bare_list, bare_dict,
  list_of, dict_of, union, class, enum, non_exhaustive, Anns, no_args, arg, Fields, no_fields,
  field, Config, ContextPath, ok, asserted, is_none, has_none, all_scalars, is_object_of,
}
use subiquity.Serialize.Out.{
  check_keys, serialize_at, serialize_only, serialize_class, serialize_scalar, serialize,
}
use subiquity.Serialize.Back.{
  deserialize_at, deserialize_only, deserialize_class, deserialize_scalar, deserialize,
}
use subiquity.Serialize.Typed.{attributes, HasType, HasOnly, HasClass, HasScalar, HasFields}
use subiquity.Serialize.Dicts.{str_eq_refl}
use subiquity.Serialize.Classes.{bind_ok, FieldsSend}
use subiquity.Serialize.Enums.{if_true, if_false, Round, enum_sent, EnumSends}
use subiquity.Serialize.Lists.{all_str_keys-ok, ValuesRound, values_round, SentPairs, pairs_sent}
use subiquity.Serialize.Tags.{
  ObjectSends, object_sent, ClassRound, first_class, later_class, object_is,
}
use subiquity.Serialize.Scalars.{dict_round, unknown_round, ScalarRound, first_scalar}

abbrev OnlyRound : Config → Anns → Value → Type 0
OnlyRound cfg args v =
    (w : Value) × ((p : ContextPath) → serialize_only cfg args p v ≡ ok w)
    × ((p : ContextPath) → deserialize_only cfg args p w ≡ ok v)
    × (is_none w ≡ is_none v)

scalars_rest : (a : Ann) (args : Anns) → all_scalars (arg a args) ≡ true → all_scalars args ≡ true
scalars_rest int_ann args h = h
scalars_rest str_ann args h = h
scalars_rest bool_ann args h = h
scalars_rest none_ann args h = h
scalars_rest _ args h = cc

object_some : (c : String) (v : Value) → is_object_of c v ≡ true → is_none v ≡ false
object_some c none_value h = cc
object_some c _ h = refl

mutual
  unfolding serialize_at deserialize_at serialize_only deserialize_only serialize_scalar
      deserialize_scalar serialize_class deserialize_class HasType HasOnly HasClass HasScalar
      HasFields asserted

  round : (cfg : Config) (a : Ann) (v : Value) → HasType cfg a v → Round cfg a v
  round cfg none_ann none_value h = (none_value, (λ p. refl, λ p. refl), refl)
  round cfg any_ann v h = (v, (λ p. refl, λ p. refl), refl)
  round cfg int_ann (int_value z) h = (int_value z, (λ p. refl, λ p. refl), refl)
  round cfg str_ann (str_value s) h = (str_value s, (λ p. refl, λ p. refl), refl)
  round cfg bool_ann (bool_value b) h = (bool_value b, (λ p. refl, λ p. refl), refl)
  round cfg bare_list (list_value vs) h = (list_value vs, (λ p. refl, λ p. refl), refl)
  round cfg bare_dict (dict_value ps) h = (
    dict_value ps,
    (λ p. bind_ok _ _ (check_keys p) refl ∙ all_str_keys-ok p ps ps h, λ p. refl),
    refl,
  )
  round cfg (list_of a) (list_value vs) h =
      let r : ValuesRound cfg a vs = values_round cfg a (λ v h'. round cfg a v h') vs h in
      (
        list_value r.0,
        (
          (λ p. bind_ok _ _ _ refl ∙ bind_ok _ _ _ (r.1 0 p)),
          λ p. bind_ok _ _ _ refl ∙ bind_ok _ _ _ (r.2 0 p),
        ),
        refl,
      )
  round cfg (dict_of a b) (dict_value ps) h =
      let r : (qs : Pairs) × SentPairs cfg a b ps qs =
        pairs_sent cfg a b (λ v h'. round cfg a v h') (λ v h'. round cfg b v h') ps h.2 in
      dict_round cfg a b ps r.0 h.0 h.1 h.2 r.1
  round cfg (union args) v (inl (none_ok, h)) =
      (v, (λ p. if_true _ _ none_ok, λ p. if_true _ _ none_ok), refl)
  round cfg (union args) v (inr (some_value, inl (one, h))) =
      let r : OnlyRound cfg args v = only_round cfg args v h in
      (
        r.0,
        (
          (λ p. if_false _ _ some_value ∙ if_true _ _ one ∙ r.1 p),
          λ p.
              if_false _ _ (ap (λ b. has_none args && b) r.3 ∙ some_value)
              ∙ if_true _ _ one
              ∙ r.2 p,
        ),
        r.3,
      )
  round cfg (union args) v (inr (some_value, inr (many, inl (classes, h)))) =
      let r : ClassRound cfg args v = class_round cfg args v h in
      let same_none : is_none r.2 ≡ is_none v = r.6 ∙ sym (object_some r.0 v r.7) in
      (
        r.2,
        (
          (λ p. if_false _ _ some_value ∙ if_false _ _ many ∙ if_true _ _ classes ∙ r.3 p),
          λ p.
              if_false _ _ (ap (λ b. has_none args && b) same_none ∙ some_value)
              ∙ if_false _ _ many
              ∙ if_true _ _ classes
              ∙ bind_ok _ _ (λ nv. deserialize_class cfg args p nv.0 nv.1) r.4
              ∙ r.5 p,
        ),
        same_none,
      )
  round cfg (union args) v (inr (some_value, inr (many, inr (mixed, (scalars, h))))) =
      let r : ScalarRound cfg args v = scalar_round cfg args v scalars h in
      (
        v,
        (
          (λ p.
              if_false _ _ some_value
              ∙ if_false _ _ many
              ∙ if_false _ _ mixed
              ∙ if_true _ _ scalars
              ∙ r.0 p),
          λ p.
              if_false _ _ some_value
              ∙ if_false _ _ many
              ∙ if_false _ _ mixed
              ∙ if_true _ _ scalars
              ∙ r.1 p,
        ),
        refl,
      )
  round cfg (class n fs) (object c ps) h =
      let s : (qs : Pairs) × FieldsSend cfg fs ps qs = fields_sent cfg fs ps h.2 in
      let r : (w tagged_w : Value) × ObjectSends cfg n fs (object n ps) w tagged_w =
        object_sent cfg n fs ps s.0 s.1 h.1 in
      rw h.0 (r.0, (r.2.0, r.2.1), r.2.2)
  round cfg (enum e) (member c n) h =
      let r : (w : Value) × EnumSends cfg e (member c n) w = enum_sent cfg e c n h in
      (r.0, (r.1.0, λ p. r.1.1), r.1.2)
  round cfg (non_exhaustive e) (member c n) h =
      let r : (w : Value) × EnumSends cfg e (member c n) w = enum_sent cfg e c n h in
      (
        r.0,
        (
          (λ p.
              if_true _ _ (ap (λ d. str_eq d e.name) h.same_class ∙ str_eq_refl e.name) ∙ r.1.0 p),
          λ p. if_true _ _ r.1.3 ∙ r.1.1,
        ),
        r.1.2,
      )
  round cfg (non_exhaustive e) v h = unknown_round cfg e v (λ p. refl) h
  round cfg _ _ h = absurd h

  only_round : (cfg : Config) (args : Anns) (v : Value) → HasOnly cfg args v → OnlyRound cfg args v
  only_round cfg no_args v h = absurd h
  only_round cfg (arg none_ann args) v h = only_round cfg args v h
  only_round cfg (arg a args) v h =
      let r : Round cfg a v = round cfg a v h in (r.0, r.1.0, r.1.1, r.2)

  class_round :
      (cfg : Config) (args : Anns) (v : Value) → HasClass cfg args v → ClassRound cfg args v
  class_round cfg no_args v h = absurd h
  class_round cfg (arg (class n fs) args) v (inl (own, (distinct, h))) =
      let s : (qs : Pairs) × FieldsSend cfg fs (attributes v) qs =
        fields_sent cfg fs (attributes v) h in
      let r : (w tagged_w : Value) × ObjectSends cfg n fs (object n (attributes v)) w tagged_w =
        object_sent cfg n fs (attributes v) s.0 s.1 distinct in
      first_class cfg n fs args v r.0 r.1 own
        (subst (λ u. ObjectSends cfg n fs u r.0 r.1) (object_is n v own) r.2)
  class_round cfg (arg (class n fs) args) v (inr (other, h)) =
      later_class cfg n fs args v other (class_round cfg args v h)
  class_round cfg (arg _ args) v h = class_round cfg args v h

  scalar_round :
      (cfg : Config) (args : Anns) (v : Value)
      → all_scalars args ≡ true
      → HasScalar cfg args v
      → ScalarRound cfg args v
  scalar_round cfg no_args v scalars h = absurd h
  scalar_round cfg (arg a args) v scalars (inl (own, h)) = first_scalar cfg a args v scalars own h
  scalar_round cfg (arg a args) v scalars (inr (other, h)) =
      let r : ScalarRound cfg args v = scalar_round cfg args v (scalars_rest a args scalars) h in
      ((λ p. if_false _ _ other ∙ r.0 p), λ p. if_false _ _ other ∙ r.1 p)

  fields_sent :
      (cfg : Config) (fs : Fields) (ps : Pairs)
      → HasFields cfg fs ps
      → (qs : Pairs) × FieldsSend cfg fs ps qs
  fields_sent cfg no_fields end h = (end, tt)
  fields_sent cfg (field n k a d fs) (pair k' v ps) h =
      let r : Round cfg a v = round cfg a v h.1 in
      let s : (qs : Pairs) × FieldsSend cfg fs ps qs = fields_sent cfg fs ps h.2 in
      (pair (str_value k) r.0 s.0, (h.0, refl, r.1, s.1))
  fields_sent cfg _ _ h = absurd h

-- A value that its annotation describes is serialized without an error, and reading what is sent gives
-- the value back, with each of the settings of a serializer.
pub deserialize-serialize :
    (cfg : Config) (a : Ann) (v : Value)
    → HasType cfg a v
    → (w : Value) × (serialize cfg a v ≡ ok w) × (deserialize cfg a w ≡ ok v)
unfolding serialize deserialize
deserialize-serialize cfg a v h =
    let r : Round cfg a v = round cfg a v h in (r.0, r.1.0 [], r.1.1 [])
