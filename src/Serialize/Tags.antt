-- ===== src/Serialize/Tags.antt =====
-- Objects of classes, alone and with the tag of a union.
use Prim.Native.String.{String}
use text.Mathlib.Text.{◌==◌ as str_eq}
use text.Mathlib.TextEquality.{eq_iff}
use subiquity.Base.{◌≡◌, refl, ap, sym, ◌∙◌, inl, inr, true, false, Bool-cases}
use subiquity.Serialize.{
  Value, str_value, list_value, dict_value, object, cons, Pairs, end, pair, class, Anns, arg,
  Fields, Config, ContextPath, key_error, Result, ok, ◌>>=◌, from_option, is_none, is_object_of,
}
use subiquity.Serialize.Out.{values_of, class_out, tagged, serialize_class, serialize_fields}
use subiquity.Serialize.Back.{
  pop_tag, object_of, read_class, deserialize_class, deserialize_zip, deserialize_field,
}
use subiquity.Serialize.Typed.{AreDistinct, attributes}
use subiquity.Serialize.Dicts.{
  str_eq_refl, str_eq_comm, ◌+p◌, has_pair, set_pair-new, to_dict-keys, lookup-append,
  without_key-append,
}
use subiquity.Serialize.Classes.{
  bind_ok, FieldsSend, attributes-Held, fields_out, fields_zip, constructed_all,
}
use subiquity.Serialize.Keywords.{sent_AreKeys, no_tag, fields_read}
use subiquity.Serialize.Enums.{if_true, if_false}

abbrev pub read_object : Config → String → Fields → ContextPath → Value → Result Value
read_object cfg c fs p w =
    read_class cfg c fs p (λ vs. deserialize_zip cfg fs p vs)
      (λ k v. deserialize_field cfg fs p k v) w

abbrev pub TagSends : Config → String → Value → Value → Type 0
TagSends cfg c w tagged_w =
    (tagged c w ≡ ok tagged_w)
    × (pop_tag cfg.compact tagged_w ≡ ok (str_value c, w))
    × (is_none tagged_w ≡ false)

abbrev pub ObjectSends : Config → String → Fields → Value → Value → Value → Type 0
ObjectSends cfg c fs v w tagged_w =
    ((p : ContextPath) → (serialize_fields cfg fs p v >>= class_out cfg) ≡ ok w)
    × ((p : ContextPath) → read_object cfg c fs p w ≡ ok v)
    × (is_none w ≡ false)
    × TagSends cfg c w tagged_w

as_list :
    (cfg : Config) (c : String) (fs : Fields) (ps qs : Pairs)
    → cfg.compact ≡ true
    → FieldsSend cfg fs ps qs
    → AreDistinct fs
    → ObjectSends cfg c fs
        (object c ps)
        (list_value (values_of qs))
        (list_value (cons (str_value c) (values_of qs)))
as_list cfg c fs ps qs compact s h = (
  (λ p.
      bind_ok _ _ _ (fields_out cfg fs ps qs ps c p s (attributes-Held cfg fs ps qs s h))
      ∙ if_true _ _ compact),
  (λ p.
      if_true _ _ compact
      ∙ bind_ok _ _ (object_of c fs) (fields_zip cfg fs ps qs p s)
      ∙ bind_ok _ _ _ (constructed_all cfg fs ps qs s h)),
  refl,
  (refl, ap (λ b. pop_tag b (list_value (cons (str_value c) (values_of qs)))) compact, refl),
)

popped :
    (c : String) (qs : Pairs)
    → has_pair (str_value "$type") qs ≡ false
    → pop_tag false (dict_value (qs +p pair (str_value "$type") (str_value c) end))
      ≡ ok (str_value c, dict_value qs)
popped c qs h =
    bind_ok _ _ _
      (ap (from_option key_error) (lookup-append (str_value "$type") (str_value c) qs h refl))
    ∙ ap (λ rest. ok (str_value c, dict_value rest))
        (without_key-append (str_value "$type") (str_value c) qs h refl)

as_dict :
    (cfg : Config) (c : String) (fs : Fields) (ps qs : Pairs)
    → cfg.compact ≡ false
    → FieldsSend cfg fs ps qs
    → AreDistinct fs
    → ObjectSends cfg c fs
        (object c ps)
        (dict_value qs)
        (dict_value (qs +p pair (str_value "$type") (str_value c) end))
as_dict cfg c fs ps qs compact s h = (
  (λ p.
      bind_ok _ _ _ (fields_out cfg fs ps qs ps c p s (attributes-Held cfg fs ps qs s h))
      ∙ if_false _ _ compact
      ∙ bind_ok _ _ _ (to_dict-keys qs (sent_AreKeys cfg fs ps qs s h))),
  (λ p.
      if_false _ _ compact
      ∙ bind_ok _ _ (object_of c fs) (fields_read cfg fs p ps qs s h)
      ∙ bind_ok _ _ _ (constructed_all cfg fs ps qs s h)),
  refl,
  (
    ap (λ d. ok (dict_value d))
        (set_pair-new (str_value "$type") (str_value c) qs (no_tag cfg fs ps qs s h)),
    ap (λ b. pop_tag b (dict_value (qs +p pair (str_value "$type") (str_value c) end))) compact
        ∙ popped c qs (no_tag cfg fs ps qs s h),
    refl,
  ),
)

pub object_sent :
    (cfg : Config) (c : String) (fs : Fields) (ps qs : Pairs)
    → FieldsSend cfg fs ps qs
    → AreDistinct fs
    → (w tagged_w : Value) × ObjectSends cfg c fs (object c ps) w tagged_w
object_sent cfg c fs ps qs s h = elim (Bool-cases cfg.compact) [
  | inl compact ↦ (_, _, as_list cfg c fs ps qs compact s h)
  | inr dict ↦ (_, _, as_dict cfg c fs ps qs dict s h)
]

-- What is sent for an object under the first class of a union that is its own.
abbrev pub ClassRound : Config → Anns → Value → Type 0
ClassRound cfg args v =
    (c : String) × (w tagged_w : Value) × ((p : ContextPath)
      → serialize_class cfg args p v ≡ ok tagged_w)
    × (pop_tag cfg.compact tagged_w ≡ ok (str_value c, w))
    × ((p : ContextPath) → deserialize_class cfg args p (str_value c) w ≡ ok v)
    × (is_none tagged_w ≡ false)
    × (is_object_of c v ≡ true)

pub first_class :
    (cfg : Config) (n : String) (fs : Fields) (args : Anns) (v w tagged_w : Value)
    → is_object_of n v ≡ true
    → ObjectSends cfg n fs v w tagged_w
    → ClassRound cfg (arg (class n fs) args) v
unfolding serialize_class deserialize_class
first_class cfg n fs args v w tagged_w own s = (
  n,
  w,
  tagged_w,
  (λ p. if_true _ _ own ∙ ap (λ m. m >>= tagged n) (s.0 p) ∙ bind_ok _ _ (tagged n) refl ∙ s.3.0),
  s.3.1,
  (λ p. if_true _ _ (str_eq_refl n) ∙ s.1 p),
  s.3.2,
  own,
)

not_own :
    (n c : String) (v : Value)
    → is_object_of n v ≡ false
    → is_object_of c v ≡ true
    → str_eq n c ≡ false
not_own n c (object d ps) other own =
    let e : d ≡ c = (eq_iff d c).0 own in str_eq_comm n c ∙ ap (λ x. str_eq x n) (sym e) ∙ other
not_own n c _ other own = cc

pub later_class :
    (cfg : Config) (n : String) (fs : Fields) (args : Anns) (v : Value)
    → is_object_of n v ≡ false
    → ClassRound cfg args v
    → ClassRound cfg (arg (class n fs) args) v
unfolding serialize_class deserialize_class
later_class cfg n fs args v other (c, w, tagged_w, out, pop, back, some_value, own) = (
  c,
  w,
  tagged_w,
  (λ p. if_false _ _ other ∙ out p),
  pop,
  (λ p. if_false _ _ (not_own n c v other own) ∙ back p),
  some_value,
  own,
)

pub object_is : (n : String) (v : Value) → is_object_of n v ≡ true → object n (attributes v) ≡ v
object_is n (object c ps) h = ap (λ d. object d ps) (sym ((eq_iff c n).0 h))
object_is n _ h = cc
