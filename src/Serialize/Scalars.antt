-- ===== src/Serialize/Scalars.antt =====
-- Dicts, unknown values of enums, and scalars of a union.
use subiquity.Base.{◌≡◌, refl, ap, ◌∙◌, inl, inr, true, false, Bool-cases}
use subiquity.Serialize.{
  Value, bool_value, int_value, str_value, list_value, dict_value, Pairs, Enum, Ann, int_ann,
  str_ann, bool_ann, dict_of, non_exhaustive, Anns, arg, Config, ContextPath, ok, asserted,
  all_scalars, is_instance,
}
use subiquity.Serialize.Out.{
  ok_as_key, serialize_non_exhaustive, pairs_as_lists, dict_out, serialize_at, serialize_scalar,
}
use subiquity.Serialize.Back.{is_known, input_items, deserialize_at, deserialize_scalar}
use subiquity.Serialize.Typed.{AllPairs, AreKeys, IsKeyAnn, HasType}
use subiquity.Serialize.Dicts.{to_dict-keys}
use subiquity.Serialize.Classes.{bind_ok}
use subiquity.Serialize.Enums.{if_false, Round}
use subiquity.Serialize.Lists.{SentPairs, pairs_out, pairs_back, unpacked_lem}
use subiquity.Serialize.Keys.{keys-AreKeys}

pub dict_round :
    (cfg : Config) (a b : Ann) (ps qs : Pairs)
    → IsKeyAnn a
    → AreKeys ps
    → AllPairs (λ k. HasType cfg a k) (λ v. HasType cfg b v) ps
    → SentPairs cfg a b ps qs
    → Round cfg (dict_of a b) (dict_value ps)
unfolding serialize_at deserialize_at
dict_round cfg a b ps qs i keys ts s = elim (Bool-cases (ok_as_key cfg a)) [
  | inl as_dict ↦ (
    dict_value qs,
    (
      (λ p.
          bind_ok _ _ _ refl
          ∙ bind_ok _ _ (dict_out (ok_as_key cfg a)) (pairs_out cfg a b p ps qs s)
          ∙ ap (λ t. dict_out t qs) as_dict
          ∙ bind_ok _ _ _ (to_dict-keys qs (keys-AreKeys cfg a b ps qs as_dict i keys ts s))),
      λ p.
          bind_ok _ _ _ (ap (λ t. input_items t (dict_value qs)) as_dict)
          ∙ bind_ok _ _ _ (pairs_back cfg a b p ps qs s)
          ∙ bind_ok _ _ _ (to_dict-keys ps keys),
    ),
    refl,
  )
  | inr in_lists ↦ (
    list_value (pairs_as_lists qs),
    (
      (λ p.
          bind_ok _ _ _ refl
          ∙ bind_ok _ _ (dict_out (ok_as_key cfg a)) (pairs_out cfg a b p ps qs s)
          ∙ ap (λ t. dict_out t qs) in_lists),
      λ p.
          bind_ok _ _ _ (
            ap (λ t. input_items t (list_value (pairs_as_lists qs))) in_lists
            ∙ bind_ok _ _ _ refl
            ∙ unpacked_lem qs)
          ∙ bind_ok _ _ _ (pairs_back cfg a b p ps qs s)
          ∙ bind_ok _ _ _ (to_dict-keys ps keys),
    ),
    refl,
  )
]

pub unknown_round :
    (cfg : Config) (e : Enum) (v : Value)
    → ((p : ContextPath) → serialize_non_exhaustive cfg e p v ≡ ok v)
    → is_known cfg.enums_by_name v e.members ≡ false
    → Round cfg (non_exhaustive e) v
unfolding serialize_at deserialize_at
unknown_round cfg e v out unknown = (v, (out, λ p. if_false _ _ unknown), refl)

-- A scalar is sent as it is.
abbrev pub ScalarRound : Config → Anns → Value → Type 0
ScalarRound cfg args v =
    ((p : ContextPath) → serialize_scalar cfg args p v ≡ ok v)
    × ((p : ContextPath) → deserialize_scalar cfg args p v ≡ ok v)

pub first_scalar :
    (cfg : Config) (a : Ann) (args : Anns) (v : Value)
    → all_scalars (arg a args) ≡ true
    → is_instance a v ≡ true
    → HasType cfg a v
    → ScalarRound cfg (arg a args) v
unfolding serialize_scalar deserialize_scalar HasType asserted
first_scalar cfg int_ann args (int_value z) scalars i t = (λ p. refl, λ p. refl)
first_scalar cfg str_ann args (str_value s) scalars i t = (λ p. refl, λ p. refl)
first_scalar cfg bool_ann args (bool_value b) scalars i t = (λ p. refl, λ p. refl)
first_scalar cfg int_ann args _ scalars i t = absurd t
first_scalar cfg str_ann args _ scalars i t = absurd t
first_scalar cfg bool_ann args _ scalars i t = absurd t
first_scalar cfg _ args v scalars i t = cc
