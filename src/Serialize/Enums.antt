-- ===== src/Serialize/Enums.antt =====
-- Members of enums: what is sent for one is read as that member.
use Prim.Native.String.{String}
use text.Mathlib.Text.{◌==◌ as str_eq}
use subiquity.Base.{
  ◌≡◌, refl, ap, sym, ◌∙◌, inl, inr, Bool, true, false, some, List, [], ◌∷◌, Bool-cases,
  if◌then◌else◌,
}
use subiquity.Serialize.{
  Value, str_value, member, Enum, Ann, Config, ContextPath, class_type, attribute_error, ok,
  from_option, asserted, key_eq, is_none,
}
use subiquity.Serialize.Out.{member_value, serialize_enum}
use subiquity.Serialize.Back.{member_with, member_named, member_found, deserialize_enum, is_known}
use subiquity.Serialize.Typed.{IsMember}
use subiquity.Serialize.Dicts.{str_eq_refl, str_eq_comm}
use subiquity.Serialize.Classes.{bind_ok, Sends}

pub if_true : {A : Type 0} {b : Bool} (x y : A) → b ≡ true → (if b then x else y) ≡ x
if_true x y h = rw h refl

pub if_false : {A : Type 0} {b : Bool} (x y : A) → b ≡ false → (if b then x else y) ≡ y
if_false x y h = rw h refl

-- What is sent for a value, which is None just when the value is.
abbrev pub Round : Config → Ann → Value → Type 0
Round cfg a v = (w : Value) × Sends cfg a v w × (is_none w ≡ is_none v)

member_type :
    (e : Enum) (c n : String) (p : ContextPath)
    → c ≡ e.name
    → asserted (class_type e.name) p (member c n) ≡ ok (member c n)
unfolding asserted
member_type e c n p same = if_true _ _ (ap (λ c'. str_eq c' e.name) same ∙ str_eq_refl e.name)

pub enum_out :
    (cfg : Config) (e : Enum) (c n : String) (p : ContextPath)
    → c ≡ e.name
    → serialize_enum cfg e p (member c n) ≡ (
        if cfg.enums_by_name
        then ok (str_value n)
        else from_option attribute_error (member_value n e.members))
unfolding serialize_enum
enum_out cfg e c n p same = bind_ok _ _ _ (member_type e c n p same)

abbrev pub EnumSends : Config → Enum → Value → Value → Type 0
EnumSends cfg e v w =
    ((p : ContextPath) → serialize_enum cfg e p v ≡ ok w)
    × (deserialize_enum cfg e w ≡ ok v)
    × (is_none w ≡ false)
    × (is_known cfg.enums_by_name w e.members ≡ true)

known_name :
    (n : String) (v : Value) (ms : List (String × Value))
    → member_value n ms ≡ some v
    → is_known true (str_value n) ms ≡ true
unfolding member_value is_known
known_name n v [] h = cc
known_name n v ((m, w) ∷ ms) h = elim (Bool-cases (str_eq n m)) [
  | inl same ↦ rw (str_eq_comm m n, same) refl
  | inr other ↦ rw (str_eq_comm m n, other) (known_name n v ms (sym (if_false _ _ other) ∙ h))
]

known_value :
    (n : String) (v : Value) (ms : List (String × Value))
    → member_with v ms ≡ some n
    → is_known false v ms ≡ true
unfolding member_with is_known
known_value n v [] h = cc
known_value n v ((m, w) ∷ ms) h = elim (Bool-cases (key_eq w v)) [
  | inl same ↦ rw same refl
  | inr other ↦ rw other (known_value n v ms (sym (if_false _ _ other) ∙ h))
]

pub enum_sent :
    (cfg : Config) (e : Enum) (c n : String)
    → IsMember e c n
    → (w : Value) × EnumSends cfg e (member c n) w
unfolding deserialize_enum
enum_sent cfg e c n h = elim (Bool-cases cfg.enums_by_name) [
  | inl names ↦ (
    str_value n,
    (
      λ p. enum_out cfg e c n p h.same_class ∙ if_true _ _ names,
      if_true _ _ names
          ∙ ap (member_named n e) h.value_of
          ∙ ap (λ c'. ok (member c' n)) (sym h.same_class),
      refl,
      ap (λ b. is_known b (str_value n) e.members) names
          ∙ known_name n h.value e.members h.value_of,
    ),
  )
  | inr values ↦ (
    h.value,
    (
      λ p.
          enum_out cfg e c n p h.same_class
          ∙ if_false _ _ values
          ∙ ap (from_option attribute_error) h.value_of,
      if_false _ _ values
          ∙ ap (member_found e) h.only_one
          ∙ ap (λ c'. ok (member c' n)) (sym h.same_class),
      h.not_none,
      ap (λ b. is_known b h.value e.members) values ∙ known_value n h.value e.members h.only_one,
    ),
  )
]
