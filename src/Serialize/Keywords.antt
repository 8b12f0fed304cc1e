-- ===== src/Serialize/Keywords.antt =====
-- Objects of classes as dicts: the keys are apart, and each is found among the fields.
use Prim.Native.String.{String}
use subiquity.Base.{
  ◌≡◌, refl, ap, sym, ◌∙◌, false, Option, none, some, [], ◌∷◌, ◌++◌, arith, if◌then◌else◌,
}
use subiquity.Serialize.{
  Value, str_value, Pairs, end, pair, Ann, Fields, no_fields, field, Config, at, ContextPath, ok,
  key_error, raised, ◌>>=◌, key_eq, set_pair,
}
use subiquity.Serialize.Back.{deserialize_field, read_items, is_ignored}
use subiquity.Serialize.Typed.{AllKeys, AreKeys, AreDistinct, has_name, has_key_name}
use subiquity.Serialize.Dicts.{
  str_eq_refl, str_eq_comm, ◌+p◌, append_end, append_assoc, has_pair, has_pair-append, set_pair-new,
  AreNewTo, AllKeys-both, AllKeys-every,
}
use subiquity.Serialize.Classes.{bind_ok, FieldsSend}

-- The keys that are sent, and the names.
no_key :
    (cfg : Config) (fs : Fields) (ps qs : Pairs) (k : String)
    → FieldsSend cfg fs ps qs
    → has_key_name k fs ≡ false
    → AllKeys (λ q. key_eq q (str_value k) ≡ false) qs
no_key cfg no_fields end end k s h = tt
no_key cfg (field n k₁ a d fs) (pair k' v ps) (pair q w qs) k s h = (
  ap (λ q'. key_eq q' (str_value k)) s.1 ∙ str_eq_comm k₁ k ∙ ground arith,
  no_key cfg fs ps qs k s.3 (ground arith),
)
no_key cfg (field n k₁ a d fs) end qs k s h = absurd s
no_key cfg (field n k₁ a d fs) (pair k' v ps) end k s h = absurd s
no_key cfg no_fields (pair k' v ps) qs k s h = absurd s
no_key cfg no_fields end (pair k' v ps) k s h = absurd s

no_name :
    (cfg : Config) (fs : Fields) (ps qs : Pairs) (n : String)
    → FieldsSend cfg fs ps qs
    → has_name n fs ≡ false
    → AllKeys (λ n'. key_eq n' (str_value n) ≡ false) ps
no_name cfg no_fields end end n s h = tt
no_name cfg (field n₁ k a d fs) (pair k' v ps) (pair q w qs) n s h = (
  ap (λ n'. key_eq n' (str_value n)) s.0 ∙ str_eq_comm n₁ n ∙ ground arith,
  no_name cfg fs ps qs n s.3 (ground arith),
)
no_name cfg (field n₁ k a d fs) end qs n s h = absurd s
no_name cfg (field n₁ k a d fs) (pair k' v ps) end n s h = absurd s
no_name cfg no_fields (pair k' v ps) qs n s h = absurd s
no_name cfg no_fields end (pair k' v ps) n s h = absurd s

pub sent_AreKeys :
    (cfg : Config) (fs : Fields) (ps qs : Pairs)
    → FieldsSend cfg fs ps qs
    → AreDistinct fs
    → AreKeys qs
sent_AreKeys cfg no_fields end end s h = tt
sent_AreKeys cfg (field n k a d fs) (pair k' v ps) (pair q w qs) s h =
    rw s.1 (refl, no_key cfg fs ps qs k s.3 h.1, sent_AreKeys cfg fs ps qs s.3 h.3)
sent_AreKeys cfg (field n k a d fs) end qs s h = absurd s
sent_AreKeys cfg (field n k a d fs) (pair k' v ps) end s h = absurd s
sent_AreKeys cfg no_fields (pair k' v ps) qs s h = absurd s
sent_AreKeys cfg no_fields end (pair k' v ps) s h = absurd s

names_AreKeys :
    (cfg : Config) (fs : Fields) (ps qs : Pairs)
    → FieldsSend cfg fs ps qs
    → AreDistinct fs
    → AreKeys ps
names_AreKeys cfg no_fields end end s h = tt
names_AreKeys cfg (field n k a d fs) (pair k' v ps) (pair q w qs) s h =
    rw s.0 (refl, no_name cfg fs ps qs n s.3 h.0, names_AreKeys cfg fs ps qs s.3 h.3)
names_AreKeys cfg (field n k a d fs) end qs s h = absurd s
names_AreKeys cfg (field n k a d fs) (pair k' v ps) end s h = absurd s
names_AreKeys cfg no_fields (pair k' v ps) qs s h = absurd s
names_AreKeys cfg no_fields end (pair k' v ps) s h = absurd s

-- No key is the one of the tag.
pub no_tag :
    (cfg : Config) (fs : Fields) (ps qs : Pairs)
    → FieldsSend cfg fs ps qs
    → AreDistinct fs
    → has_pair (str_value "$type") qs ≡ false
no_tag cfg no_fields end end s h = refl
no_tag cfg (field n k a d fs) (pair k' v ps) (pair q w qs) s h =
    rw (s.1, str_eq_comm "$type" k, h.2) (no_tag cfg fs ps qs s.3 h.3)
no_tag cfg (field n k a d fs) end qs s h = absurd s
no_tag cfg (field n k a d fs) (pair k' v ps) end s h = absurd s
no_tag cfg no_fields (pair k' v ps) qs s h = absurd s
no_tag cfg no_fields end (pair k' v ps) s h = absurd s

-- What each sent pair is read as, by the fields `all`.
abbrev Found : Config → Fields → ContextPath → Pairs → Pairs → Type 0
Found cfg all p end end = Unit
Found cfg all p (pair n v ps) (pair q w qs) =
    ((m : String) × (n ≡ str_value m) × (deserialize_field cfg all p q w ≡ some (m, ok v)))
    × Found cfg all p ps qs
Found cfg all p _ _ = ⊥

Found-more :
    (cfg : Config) (all : Fields) (p : ContextPath) (n k : String) (a : Ann) (d : Option Value)
    (ps qs : Pairs)
    → AllKeys (λ q. key_eq q (str_value k) ≡ false) qs
    → Found cfg all p ps qs
    → Found cfg (field n k a d all) p ps qs
unfolding deserialize_field
Found-more cfg all p n k a d end end h f = tt
Found-more cfg all p n k a d (pair m v ps) (pair q w qs) h f =
    ((f.0.0, f.0.1, rw h.0 f.0.2), Found-more cfg all p n k a d ps qs h.1 f.1)
Found-more cfg all p n k a d end (pair q w qs) h f = absurd f
Found-more cfg all p n k a d (pair m v ps) end h f = absurd f

fields-Found :
    (cfg : Config) (fs : Fields) (p : ContextPath) (ps qs : Pairs)
    → FieldsSend cfg fs ps qs
    → AreDistinct fs
    → Found cfg fs p ps qs
unfolding deserialize_field
fields-Found cfg no_fields p end end s h = tt
fields-Found cfg (field n k a d fs) p (pair k' v ps) (pair q w qs) s h = (
  (n, s.0, rw (s.1, str_eq_refl k) (ap (λ r. some (n, r)) (s.2.1 (p ++ at (str_value k) ∷ [])))),
  Found-more cfg fs p n k a d ps qs (no_key cfg fs ps qs k s.3 h.1)
      (fields-Found cfg fs p ps qs s.3 h.3),
)
fields-Found cfg (field n k a d fs) p end qs s h = absurd s
fields-Found cfg (field n k a d fs) p (pair k' v ps) end s h = absurd s
fields-Found cfg no_fields p (pair k' v ps) qs s h = absurd s
fields-Found cfg no_fields p end (pair k' v ps) s h = absurd s

read_items-append :
    (cfg : Config) (all : Fields) (p : ContextPath) (acc ps qs : Pairs)
    → Found cfg all p ps qs
    → AreKeys ps
    → AreNewTo acc ps
    → read_items cfg (λ k w. deserialize_field cfg all p k w) acc qs ≡ ok (acc +p ps)
unfolding read_items
read_items-append cfg all p acc end end f h new = ap ok (sym (append_end acc))
read_items-append cfg all p acc (pair n v ps) (pair q w qs) f h new =
    ap
      (λ found. elim found [
        | none ↦
            if is_ignored cfg q
            then read_items cfg (λ k w'. deserialize_field cfg all p k w') acc qs
            else raised key_error
        | some (m, r) ↦ r >>= λ x.
            read_items cfg (λ k w'. deserialize_field cfg all p k w') (set_pair (str_value m) x acc)
              qs
      ])
      f.0.2
    ∙ bind_ok (ok v) v _ refl
    ∙ ap (λ m. read_items cfg (λ k w'. deserialize_field cfg all p k w') (set_pair m v acc) qs)
        (sym f.0.1)
    ∙ ap (λ args. read_items cfg (λ k w'. deserialize_field cfg all p k w') args qs)
        (set_pair-new n v acc new.0)
    ∙ read_items-append cfg all p (acc +p pair n v end) ps qs f.1 h.2 (
        AllKeys-both (λ k'. key_eq k' n ≡ false) (λ k'. has_pair k' acc ≡ false)
          (λ k'. has_pair k' (acc +p pair n v end) ≡ false)
          (λ k' other absent. has_pair-append k' acc (pair n v end) ∙ rw (absent, other) refl) ps
          h.1 new.1)
    ∙ ap ok (append_assoc acc (pair n v end) ps)
read_items-append cfg all p acc end (pair q w qs) f h new = absurd f
read_items-append cfg all p acc (pair n v ps) end f h new = absurd f

-- Read as a dict
pub fields_read :
    (cfg : Config) (fs : Fields) (p : ContextPath) (ps qs : Pairs)
    → FieldsSend cfg fs ps qs
    → AreDistinct fs
    → read_items cfg (λ k w. deserialize_field cfg fs p k w) end qs ≡ ok ps
fields_read cfg fs p ps qs s h =
    read_items-append cfg fs p end ps qs (fields-Found cfg fs p ps qs s h)
      (names_AreKeys cfg fs ps qs s h) (AllKeys-every (λ k. has_pair k end ≡ false) (λ k. refl) ps)
