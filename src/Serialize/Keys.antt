-- ===== src/Serialize/Keys.antt =====
-- The keys of a dict that is sent as a dict: texts, and apart as the keys they stand for are.
use Prim.Native.String.{String}
use text.Mathlib.Text.{◌==◌ as str_eq}
use text.Mathlib.TextEquality.{eq_iff}
use subiquity.Base.{
  ◌≡◌, refl, ap, sym, ◌∙◌, inl, inr, true, false, Option, none, some, List, [], ◌∷◌, arith,
  Bool-cases, all,
}
use subiquity.Serialize.{
  Value, str_value, member, Pairs, end, pair, Enum, Ann, str_ann, enum, non_exhaustive, Config,
  ContextPath, attribute_error, Result, ok, from_option, asserted, key_eq, is_hashable, is_str,
}
use subiquity.Serialize.Out.{ok_as_key, enum_ok_as_key, member_value, serialize_enum, serialize_at}
use subiquity.Serialize.Back.{deserialize_at}
use subiquity.Serialize.Typed.{AllPairs, AllKeys, AreKeys, IsMember, IsKeyAnn, HasType}
use subiquity.Serialize.Dicts.{str_eq_refl}
use subiquity.Serialize.Classes.{Sends}
use subiquity.Serialize.Enums.{if_true, if_false, enum_out}
use subiquity.Serialize.Lists.{SentPairs}

abbrev result_or : {A : Type 0} → A → Result A → A
result_or a (ok b) = b
result_or a _ = a

abbrev some_or : {A : Type 0} → A → Option A → A
some_or a none = a
some_or a (some b) = b

some_inj : {A : Type 0} {a b : A} → some a ≡ some b → a ≡ b
some_inj {A} {a} e = ap (some_or a) e

pub ok_inj : {A : Type 0} {a b : A} → ok a ≡ ok b → a ≡ b
ok_inj {A} {a} e = ap (result_or a) e

same_text : (s t : String) → key_eq (str_value s) (str_value t) ≡ true → str_value s ≡ str_value t
same_text s t h = ap str_value ((eq_iff s t).0 h)

key_apart :
    (cfg : Config) (a : Ann) (k k' q q' : Value)
    → Sends cfg a k q
    → Sends cfg a k' q'
    → is_str q ≡ true
    → is_str q' ≡ true
    → key_eq k k ≡ true
    → key_eq k' k ≡ false
    → key_eq q' q ≡ false
key_apart cfg a k k' (str_value s) (str_value s') sent sent' h h' self apart =
    elim (Bool-cases (str_eq s' s)) [
      | inr other ↦ other
      | inl same ↦
          let e : k' ≡ k =
            ok_inj
              (sym (sent'.1 []) ∙ ap (deserialize_at cfg a []) (same_text s' s same) ∙ sent.1 []) in
          let b : true ≡ false = sym self ∙ ap (λ x. key_eq x k) (sym e) ∙ apart in cc
    ]
key_apart cfg a k k' _ _ sent sent' h h' self apart = cc

-- What is known of a key of a dict that is sent as a dict, and of what is sent for it.
abbrev KeySent : Value → Value → Type 0
KeySent k q = (is_str q ≡ true) × (key_eq k k ≡ true)

values_are_str :
    (n : String) (v : Value) (ms : List (String × Value))
    → all (λ m. is_str m.1) ms ≡ true
    → member_value n ms ≡ some v
    → is_str v ≡ true
unfolding member_value
values_are_str n v [] h found = cc
values_are_str n v ((m, w) ∷ ms) h found = elim (Bool-cases (str_eq n m)) [
  | inl same ↦
      let e : some w ≡ some v = sym (if_true _ _ same) ∙ found in
      ap is_str (some_inj (sym e)) ∙ ground arith
  | inr other ↦ values_are_str n v ms (ground arith) (sym (if_false _ _ other) ∙ found)
]

enum_key :
    (cfg : Config) (e : Enum) (c n : String) (q : Value)
    → enum_ok_as_key cfg e ≡ true
    → IsMember e c n
    → ((p : ContextPath) → serialize_enum cfg e p (member c n) ≡ ok q)
    → is_str q ≡ true
enum_key cfg e c n q ok_key h sent = elim (Bool-cases cfg.enums_by_name) [
  | inl names ↦
      ap is_str
        (sym (ok_inj (sym (enum_out cfg e c n [] h.same_class ∙ if_true _ _ names) ∙ sent [])))
  | inr values ↦
      let value_ok : all (λ m. is_str m.1) e.members ≡ true = ground arith in
      ap is_str (
        sym (
          ok_inj (
            sym (
              enum_out cfg e c n [] h.same_class
              ∙ if_false _ _ values
              ∙ ap (from_option attribute_error) h.value_of)
            ∙ sent [])))
      ∙ values_are_str n h.value e.members value_ok h.value_of
]

str_key : (s : String) (q : Value) → ok (str_value s) ≡ ok q → KeySent (str_value s) q
str_key s q e = (ap is_str (sym (ok_inj e)), str_eq_refl s)

member_eq_refl : (c n : String) → key_eq (member c n) (member c n) ≡ true
member_eq_refl c n = rw (str_eq_refl c, str_eq_refl n) refl

key_sent :
    (cfg : Config) (a : Ann) (k q : Value)
    → ok_as_key cfg a ≡ true
    → IsKeyAnn a
    → HasType cfg a k
    → Sends cfg a k q
    → KeySent k q
unfolding serialize_at HasType asserted
key_sent cfg str_ann (str_value s) q h i t sent = str_key s q (sent.0 [])
key_sent cfg (enum e) (member c n) q h i t sent =
    (enum_key cfg e c n q h t sent.0, member_eq_refl c n)
key_sent cfg (enum e) _ q h i t sent = absurd t
key_sent cfg str_ann _ q h i t sent = absurd t
key_sent cfg (non_exhaustive e) k q h i t sent = absurd i
key_sent cfg _ k q h i t sent = cc

keys_apart :
    (cfg : Config) (a b : Ann) (k q : Value) (ps qs : Pairs)
    → ok_as_key cfg a ≡ true
    → IsKeyAnn a
    → HasType cfg a k
    → Sends cfg a k q
    → AllPairs (λ k'. HasType cfg a k') (λ v. HasType cfg b v) ps
    → SentPairs cfg a b ps qs
    → AllKeys (λ k'. key_eq k' k ≡ false) ps
    → AllKeys (λ q'. key_eq q' q ≡ false) qs
keys_apart cfg a b k q end end h i t sent ts s apart = tt
keys_apart cfg a b k q (pair k' v ps) (pair q' w qs) h i t sent ts s apart =
    let one : KeySent k q = key_sent cfg a k q h i t sent in
    let two : KeySent k' q' = key_sent cfg a k' q' h i ts.0 s.0 in
    (
      key_apart cfg a k k' q q' sent s.0 one.0 two.0 one.1 apart.0,
      keys_apart cfg a b k q ps qs h i t sent ts.2 s.2 apart.1,
    )
keys_apart cfg a b k q _ _ h i t sent ts s apart = absurd s

str_hashable : (q : Value) → is_str q ≡ true → is_hashable q ≡ true
str_hashable (str_value s) h = refl
str_hashable _ h = cc

-- A dict that is sent as one has different keys again.
pub keys-AreKeys :
    (cfg : Config) (a b : Ann) (ps qs : Pairs)
    → ok_as_key cfg a ≡ true
    → IsKeyAnn a
    → AreKeys ps
    → AllPairs (λ k. HasType cfg a k) (λ v. HasType cfg b v) ps
    → SentPairs cfg a b ps qs
    → AreKeys qs
keys-AreKeys cfg a b end end h i keys ts s = tt
keys-AreKeys cfg a b (pair k v ps) (pair q w qs) h i keys ts s = (
  str_hashable q (key_sent cfg a k q h i ts.0 s.0).0,
  keys_apart cfg a b k q ps qs h i ts.0 s.0 ts.2 s.2 keys.1,
  keys-AreKeys cfg a b ps qs h i keys.2 ts.2 s.2,
)
keys-AreKeys cfg a b _ _ h i keys ts s = absurd s
