-- ===== src/Serialize/Classes.antt =====
-- Objects of classes: what is sent for each field is read back, as a list and as a dict.
use Prim.Native.String.{String}
use text.Mathlib.Text.{◌==◌ as str_eq}
use subiquity.Base.{◌≡◌, refl, ap, sym, ◌∙◌, false, none, some, [], ◌∷◌, ◌++◌, arith}
use subiquity.Serialize.{
  Value, str_value, object, Pairs, end, pair, Ann, Fields, no_fields, field, Config, at, attribute,
  ContextPath, Result, ok, type_error, attribute_error, ◌>>=◌, from_option, lookup,
}
use subiquity.Serialize.Out.{serialize_at, serialize_fields, values_of}
use subiquity.Serialize.Back.{deserialize_at, deserialize_zip, constructed}
use subiquity.Serialize.Typed.{AreDistinct, has_name}
use subiquity.Serialize.Dicts.{str_eq_refl, str_eq_comm}

pub bind_ok : {A B : Type 0} (m : Result A) (a : A) (f : A → Result B) → m ≡ ok a → (m >>= f) ≡ f a
unfolding ◌>>=◌
bind_ok m a f e = ap (λ r. r >>= f) e

-- What is sent for a value is read as that value.
abbrev pub Sends : Config → Ann → Value → Value → Type 0
Sends cfg a v w =
    ((p : ContextPath) → serialize_at cfg a p v ≡ ok w)
    × ((p : ContextPath) → deserialize_at cfg a p w ≡ ok v)

-- Of each field: its attribute, and what is sent under its key.
abbrev pub FieldsSend : Config → Fields → Pairs → Pairs → Type 0
FieldsSend cfg no_fields end end = Unit
FieldsSend cfg (field n k a d fs) (pair k' v ps) (pair q w qs) =
    (k' ≡ str_value n) × (q ≡ str_value k) × Sends cfg a v w × FieldsSend cfg fs ps qs
FieldsSend cfg _ _ _ = ⊥

-- Each field's value stands under its name in `all`.
abbrev pub Held : Fields → Pairs → Pairs → Type 0
Held no_fields end all = Unit
Held (field n k a d fs) (pair k' v ps) all = (lookup (str_value n) all ≡ some v) × Held fs ps all
Held _ _ all = ⊥

Held-more :
    (cfg : Config) (fs : Fields) (ps qs all : Pairs) (n : String) (x : Value)
    → FieldsSend cfg fs ps qs
    → has_name n fs ≡ false
    → Held fs ps all
    → Held fs ps (pair (str_value n) x all)
unfolding lookup
Held-more cfg no_fields end end all n x s h held = tt
Held-more cfg (field m k a d fs) (pair k' v ps) (pair q w qs) all n x s h held =
    let other : str_eq m n ≡ false = str_eq_comm m n ∙ ground arith in
    (rw other held.0, Held-more cfg fs ps qs all n x s.3 (ground arith) held.1)
Held-more cfg (field m k a d fs) end qs all n x s h held = absurd s
Held-more cfg (field m k a d fs) (pair k' v ps) end all n x s h held = absurd s
Held-more cfg no_fields (pair k' v ps) qs all n x s h held = absurd s
Held-more cfg no_fields end (pair k' v ps) all n x s h held = absurd s

pub attributes-Held :
    (cfg : Config) (fs : Fields) (ps qs : Pairs)
    → FieldsSend cfg fs ps qs
    → AreDistinct fs
    → Held fs ps ps
unfolding lookup
attributes-Held cfg no_fields end end s d = tt
attributes-Held cfg (field n k a df fs) (pair k' v ps) (pair q w qs) s d = rw s.0 (
  rw (str_eq_refl n) refl,
  Held-more cfg fs ps qs ps n v s.3 d.0 (attributes-Held cfg fs ps qs s.3 d.3),
)
attributes-Held cfg (field n k a df fs) end qs s d = absurd s
attributes-Held cfg (field n k a df fs) (pair k' v ps) end s d = absurd s
attributes-Held cfg no_fields (pair k' v ps) qs s d = absurd s
attributes-Held cfg no_fields end (pair k' v ps) s d = absurd s

-- What is sent for the fields
pub fields_out :
    (cfg : Config) (fs : Fields) (ps qs all : Pairs) (c : String) (p : ContextPath)
    → FieldsSend cfg fs ps qs
    → Held fs ps all
    → serialize_fields cfg fs p (object c all) ≡ ok qs
unfolding serialize_fields
fields_out cfg no_fields end end all c p s held = refl
fields_out cfg (field n k a d fs) (pair k' v ps) (pair q w qs) all c p s held =
    bind_ok _ v _ (ap (from_option attribute_error) held.0)
    ∙ bind_ok _ w _ (s.2.0 (p ++ attribute n ∷ []))
    ∙ bind_ok _ qs _ (fields_out cfg fs ps qs all c p s.3 held.1)
    ∙ ap (λ q'. ok (pair q' w qs)) (sym s.1)
fields_out cfg (field n k a d fs) end qs all c p s held = absurd s
fields_out cfg (field n k a d fs) (pair k' v ps) end all c p s held = absurd s
fields_out cfg no_fields (pair k' v ps) qs all c p s held = absurd s
fields_out cfg no_fields end (pair k' v ps) all c p s held = absurd s

-- Read as a list
pub fields_zip :
    (cfg : Config) (fs : Fields) (ps qs : Pairs) (p : ContextPath)
    → FieldsSend cfg fs ps qs
    → deserialize_zip cfg fs p (values_of qs) ≡ ok ps
unfolding deserialize_zip
fields_zip cfg no_fields end end p s = refl
fields_zip cfg (field n k a d fs) (pair k' v ps) (pair q w qs) p s =
    bind_ok _ v _ (s.2.1 (p ++ at (str_value n) ∷ []))
    ∙ bind_ok _ ps _ (fields_zip cfg fs ps qs p s.3)
    ∙ ap (λ n'. ok (pair n' v ps)) (sym s.0)
fields_zip cfg (field n k a d fs) end qs p s = absurd s
fields_zip cfg (field n k a d fs) (pair k' v ps) end p s = absurd s
fields_zip cfg no_fields (pair k' v ps) qs p s = absurd s
fields_zip cfg no_fields end (pair k' v ps) p s = absurd s

constructed_lem :
    (cfg : Config) (fs : Fields) (ps qs all : Pairs)
    → FieldsSend cfg fs ps qs
    → Held fs ps all
    → constructed fs all ≡ ok ps
unfolding constructed
constructed_lem cfg no_fields end end all s held = refl
constructed_lem cfg (field n k a d fs) (pair k' v ps) (pair q w qs) all s held =
    bind_ok _ v _
      (ap (λ found. from_option type_error (elim found [ none ↦ d | some v' ↦ some v' ])) held.0)
    ∙ bind_ok _ ps _ (constructed_lem cfg fs ps qs all s.3 held.1)
    ∙ ap (λ n'. ok (pair n' v ps)) (sym s.0)
constructed_lem cfg (field n k a d fs) end qs all s held = absurd s
constructed_lem cfg (field n k a d fs) (pair k' v ps) end all s held = absurd s
constructed_lem cfg no_fields (pair k' v ps) qs all s held = absurd s
constructed_lem cfg no_fields end (pair k' v ps) all s held = absurd s

-- The new object has the attributes it was given.
pub constructed_all :
    (cfg : Config) (fs : Fields) (ps qs : Pairs)
    → FieldsSend cfg fs ps qs
    → AreDistinct fs
    → constructed fs ps ≡ ok ps
constructed_all cfg fs ps qs s d =
    constructed_lem cfg fs ps qs ps s (attributes-Held cfg fs ps qs s d)
