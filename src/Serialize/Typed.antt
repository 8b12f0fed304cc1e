-- ===== src/Serialize/Typed.antt =====
-- Which values an annotation describes: those that `serialize` is meant for.
use Prim.Native.String.{String}
use text.Mathlib.Text.{◌==◌ as str_eq}
use subiquity.Base.{◌≡◌, ◌⊎◌, Bool, true, false, ◌&&◌, ◌||◌, some, ◌==◌}
use subiquity.Serialize.{
  Value, none_value, bool_value, int_value, str_value, list_value, dict_value, member, object,
  Values, nil, cons, Pairs, end, pair, Enum, Ann, none_ann, any_ann, int_ann, str_ann, bool_ann,
  bare_list, bare_dict, list_of, dict_of, union, class, enum, non_exhaustive, Anns, no_args, arg,
  Fields, no_fields, field, Config, key_eq, is_hashable, is_none, is_str, has_none, count_args,
  all_classes, all_scalars, is_instance, is_object_of,
}
use subiquity.Serialize.Out.{member_value}
use subiquity.Serialize.Back.{member_with, is_known}

abbrev pub AllValues : (Value → Type 0) → Values → Type 0
AllValues P nil = Unit
AllValues P (cons v vs) = P v × AllValues P vs

abbrev pub AllPairs : (Value → Type 0) → (Value → Type 0) → Pairs → Type 0
AllPairs P Q end = Unit
AllPairs P Q (pair k v ps) = P k × Q v × AllPairs P Q ps

abbrev pub AllKeys : (Value → Type 0) → Pairs → Type 0
AllKeys P end = Unit
AllKeys P (pair k v ps) = P k × AllKeys P ps

-- The keys of a dict: hashable, and each other than those before it.
abbrev pub AreKeys : Pairs → Type 0
AreKeys end = Unit
AreKeys (pair k v ps) = (is_hashable k ≡ true) × AllKeys (λ k'. key_eq k' k ≡ false) ps × AreKeys ps

-- One of two types, by a test.
abbrev pub Choice : Bool → Type 0 → Type 0 → Type 0
Choice b T E = ((b ≡ true) × T) ⊎ ((b ≡ false) × E)

-- A member of the enum, with a value that is not None and that no member before it has.
pub record IsMember (e : Enum) (c n : String) : Type 0 where
  pub same_class : c ≡ e.name
  pub value : Value
  pub value_of : member_value n e.members ≡ some value
  pub only_one : member_with value e.members ≡ some n
  pub not_none : is_none value ≡ false

-- What keys can be annotated with: unknown values beside the members of an enum may be sent as its
-- members are.
abbrev pub IsKeyAnn : Ann → Type 0
IsKeyAnn (non_exhaustive e) = ⊥
IsKeyAnn _ = Unit

abbrev pub attributes : Value → Pairs
attributes (object c ps) = ps
attributes _ = end

abbrev pub has_name : String → Fields → Bool
has_name n no_fields = false
has_name n (field n' k a d fs) = str_eq n n' || has_name n fs

abbrev pub has_key_name : String → Fields → Bool
has_key_name k no_fields = false
has_key_name k (field n k' a d fs) = str_eq k k' || has_key_name k fs

-- No name or key stands for two fields, and no key is the one of the tag.
abbrev pub AreDistinct : Fields → Type 0
AreDistinct no_fields = Unit
AreDistinct (field n k a d fs) =
    (has_name n fs ≡ false)
    × (has_key_name k fs ≡ false)
    × (str_eq k "$type" ≡ false)
    × AreDistinct fs

unfoldable mutual
  pub HasType : Config → Ann → Value → Type 0
  HasType cfg none_ann none_value = Unit
  HasType cfg any_ann v = Unit
  HasType cfg int_ann (int_value z) = Unit
  HasType cfg str_ann (str_value s) = Unit
  HasType cfg bool_ann (bool_value b) = Unit
  HasType cfg bare_list (list_value vs) = Unit
  HasType cfg bare_dict (dict_value ps) = AllKeys (λ k. is_str k ≡ true) ps
  HasType cfg (list_of a) (list_value vs) = AllValues (λ v. HasType cfg a v) vs
  HasType cfg (dict_of a b) (dict_value ps) =
      IsKeyAnn a × AreKeys ps × AllPairs (λ k. HasType cfg a k) (λ v. HasType cfg b v) ps
  HasType cfg (union args) v = Choice (has_none args && is_none v) Unit (
      Choice (has_none args && count_args args == 1) (HasOnly cfg args v) (
        Choice (all_classes args) (HasClass cfg args v)
          ((all_scalars args ≡ true) × HasScalar cfg args v)))
  HasType cfg (class n fs) (object c ps) = (c ≡ n) × AreDistinct fs × HasFields cfg fs ps
  HasType cfg (enum e) (member c n) = IsMember e c n
  HasType cfg (non_exhaustive e) (member c n) = IsMember e c n
  HasType cfg (non_exhaustive e) v = is_known cfg.enums_by_name v e.members ≡ false
  HasType cfg _ _ = ⊥

  -- The type that is not NoneType
  pub HasOnly : Config → Anns → Value → Type 0
  HasOnly cfg no_args v = ⊥
  HasOnly cfg (arg none_ann args) v = HasOnly cfg args v
  HasOnly cfg (arg a args) v = HasType cfg a v

  -- The first class that the value is an object of
  pub HasClass : Config → Anns → Value → Type 0
  HasClass cfg no_args v = ⊥
  HasClass cfg (arg (class n fs) args) v =
      Choice (is_object_of n v) (AreDistinct fs × HasFields cfg fs (attributes v))
        (HasClass cfg args v)
  HasClass cfg (arg _ args) v = HasClass cfg args v

  -- The first scalar type that the value is an instance of is its own.
  pub HasScalar : Config → Anns → Value → Type 0
  HasScalar cfg no_args v = ⊥
  HasScalar cfg (arg a args) v = Choice (is_instance a v) (HasType cfg a v) (HasScalar cfg args v)

  -- The attributes, in the order of the fields
  pub HasFields : Config → Fields → Pairs → Type 0
  HasFields cfg no_fields end = Unit
  HasFields cfg (field n k a d fs) (pair k' v ps) =
      (k' ≡ str_value n) × HasType cfg a v × HasFields cfg fs ps
  HasFields cfg _ _ = ⊥
