-- ===== src/Serialize/Lists.antt =====
-- Lists and dicts: what is sent for the parts makes up what is sent for the whole.
use subiquity.Base.{ℕ, suc, ◌≡◌, refl, ap, ◌∙◌, true, [], ◌∷◌, ◌++◌, all}
use subiquity.Serialize.{
  Value, str_value, dict_value, Values, nil, cons, Pairs, end, pair, Ann, Config, item, key, at,
  ContextPath, ok, ◌>>=◌, asserted, each_value, each_pair, is_str,
}
use subiquity.Serialize.Out.{all_str_keys, pairs_as_lists, serialize_at}
use subiquity.Serialize.Back.{unpacked, deserialize_at}
use subiquity.Serialize.Typed.{AllValues, AllPairs, AllKeys, HasType}
use subiquity.Serialize.Classes.{bind_ok, Sends}
use subiquity.Serialize.Enums.{Round}

-- A bare dict with texts for keys
pub all_str_keys-ok :
    (p : ContextPath) (all ps : Pairs)
    → AllKeys (λ k. is_str k ≡ true) ps
    → all_str_keys p all ps ≡ ok (dict_value all)
unfolding all_str_keys asserted
all_str_keys-ok p all end h = refl
all_str_keys-ok p all (pair (str_value s) v ps) h =
    bind_ok _ (str_value s) _ refl ∙ all_str_keys-ok p all ps h.1
all_str_keys-ok p all (pair _ v ps) h = cc

abbrev pub ValuesRound : Config → Ann → Values → Type 0
ValuesRound cfg a vs =
    (ws : Values) × ((i : ℕ) (p : ContextPath)
      → each_value (λ j w. serialize_at cfg a (p ++ item j ∷ []) w) i vs ≡ ok ws)
    × ((i : ℕ) (p : ContextPath)
        → each_value (λ j w. deserialize_at cfg a (p ++ item j ∷ []) w) i ws ≡ ok vs)

pub values_round :
    (cfg : Config) (a : Ann)
    → ((v : Value) → HasType cfg a v → Round cfg a v)
    → (vs : Values) → AllValues (λ v. HasType cfg a v) vs
    → ValuesRound cfg a vs
unfolding each_value
values_round cfg a round nil h = (nil, (λ i p. refl), λ i p. refl)
values_round cfg a round (cons v vs) h =
    let r : Round cfg a v = round v h.0 in
    let rest : ValuesRound cfg a vs = values_round cfg a round vs h.1 in
    (
      cons r.0 rest.0,
      (λ i p. bind_ok _ _ _ (r.1.0 (p ++ item i ∷ [])) ∙ bind_ok _ _ _ (rest.1 (suc i) p)),
      λ i p. bind_ok _ _ _ (r.1.1 (p ++ item i ∷ [])) ∙ bind_ok _ _ _ (rest.2 (suc i) p),
    )

abbrev pub SentPairs : Config → Ann → Ann → Pairs → Pairs → Type 0
SentPairs cfg a b end end = Unit
SentPairs cfg a b (pair k v ps) (pair k' v' qs) =
    Sends cfg a k k' × Sends cfg b v v' × SentPairs cfg a b ps qs
SentPairs cfg a b _ _ = ⊥

pub pairs_sent :
    (cfg : Config) (a b : Ann)
    → ((v : Value) → HasType cfg a v → Round cfg a v)
    → ((v : Value) → HasType cfg b v → Round cfg b v)
    → (ps : Pairs) → AllPairs (λ k. HasType cfg a k) (λ v. HasType cfg b v) ps
    → (qs : Pairs) × SentPairs cfg a b ps qs
pairs_sent cfg a b key_round value_round end h = (end, tt)
pairs_sent cfg a b key_round value_round (pair k v ps) h =
    let k' : Round cfg a k = key_round k h.0 in
    let v' : Round cfg b v = value_round v h.1 in
    let rest : (qs : Pairs) × SentPairs cfg a b ps qs =
      pairs_sent cfg a b key_round value_round ps h.2 in
    (pair k'.0 v'.0 rest.0, (k'.1, v'.1, rest.1))

pub pairs_out :
    (cfg : Config) (a b : Ann) (p : ContextPath) (ps qs : Pairs)
    → SentPairs cfg a b ps qs
    → each_pair
        (λ k. serialize_at cfg a (p ++ key k ∷ []) k)
        (λ k w. serialize_at cfg b (p ++ at k ∷ []) w)
        ps
      ≡ ok qs
unfolding each_pair
pairs_out cfg a b p end end s = refl
pairs_out cfg a b p (pair k v ps) (pair k' v' qs) s =
    bind_ok _ _ _ (s.0.0 (p ++ key k ∷ []))
    ∙ bind_ok _ _ _ (s.1.0 (p ++ at k ∷ []))
    ∙ bind_ok _ _ _ (pairs_out cfg a b p ps qs s.2)
pairs_out cfg a b p _ _ s = absurd s

pub pairs_back :
    (cfg : Config) (a b : Ann) (p : ContextPath) (ps qs : Pairs)
    → SentPairs cfg a b ps qs
    → each_pair
        (λ k. deserialize_at cfg a (p ++ key k ∷ []) k)
        (λ k w. deserialize_at cfg b (p ++ at k ∷ []) w)
        qs
      ≡ ok ps
unfolding each_pair
pairs_back cfg a b p end end s = refl
pairs_back cfg a b p (pair k v ps) (pair k' v' qs) s =
    bind_ok _ _ _ (s.0.1 (p ++ key k' ∷ []))
    ∙ bind_ok _ _ _ (s.1.1 (p ++ at k' ∷ []))
    ∙ bind_ok _ _ _ (pairs_back cfg a b p ps qs s.2)
pairs_back cfg a b p _ _ s = absurd s

-- Keys that are no texts are sent in lists of two.
pub unpacked_lem : (ps : Pairs) → unpacked (pairs_as_lists ps) ≡ ok ps
unfolding unpacked ◌>>=◌
unpacked_lem end = refl
unpacked_lem (pair k v ps) = ap (λ m. m >>= λ qs. ok (pair k v qs)) (unpacked_lem ps)
