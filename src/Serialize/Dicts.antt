-- ===== src/Serialize/Dicts.antt =====
-- Dicts: setting new keys appends, and `dict` of pairs with different keys keeps them in order.
use Prim.Native.String.{String}
use text.Mathlib.Text.{◌==◌ as str_eq}
use text.Mathlib.TextEquality.{eq_iff}
use subiquity.Base.{
  ◌≡◌, refl, ap, sym, ◌∙◌, inl, inr, Bool, true, false, ◌||◌, some, arith, Bool-cases,
}
use subiquity.Serialize.{Value, Pairs, end, pair, ok, key_eq, lookup, set_pair, to_dict}
use subiquity.Serialize.Back.{without_key}
use subiquity.Serialize.Typed.{AllKeys, AreKeys}

pub str_eq_refl : (s : String) → str_eq s s ≡ true
str_eq_refl s = (eq_iff s s).1 refl

pub str_eq_comm : (s t : String) → str_eq s t ≡ str_eq t s
str_eq_comm s t = elim (Bool-cases (str_eq s t)) [
  | inl same ↦ let e : s ≡ t = (eq_iff s t).0 same in rw e refl
  | inr other ↦ elim (Bool-cases (str_eq t s)) [
    | inl same ↦ let e : t ≡ s = (eq_iff t s).0 same in rw e refl
    | inr apart ↦ other ∙ sym apart
  ]
]

infixr 55 ◌+p◌
abbrev pub ◌+p◌ : Pairs → Pairs → Pairs
end +p qs = qs
pair k v ps +p qs = pair k v (ps +p qs)

pub append_end : (ps : Pairs) → ps +p end ≡ ps
append_end end = refl
append_end (pair k v ps) = ap (pair k v) (append_end ps)

pub append_assoc : (ps qs rs : Pairs) → (ps +p qs) +p rs ≡ ps +p (qs +p rs)
append_assoc end qs rs = refl
append_assoc (pair k v ps) qs rs = ap (pair k v) (append_assoc ps qs rs)

abbrev pub has_pair : Value → Pairs → Bool
has_pair k end = false
has_pair k (pair k' v ps) = key_eq k k' || has_pair k ps

pub has_pair-append :
    (k : Value) (ps qs : Pairs) → has_pair k (ps +p qs) ≡ (has_pair k ps || has_pair k qs)
has_pair-append k end qs = refl
has_pair-append k (pair k' v ps) qs = ground (arith, has_pair-append k ps qs)

pub set_pair-new :
    (k v : Value) (ps : Pairs) → has_pair k ps ≡ false → set_pair k v ps ≡ ps +p pair k v end
unfolding set_pair
set_pair-new k v end h = refl
set_pair-new k v (pair k' w ps) h =
    let other : key_eq k k' ≡ false = ground arith in
    rw (other, set_pair-new k v ps (ground arith)) refl

-- Keys that `acc` has not.
abbrev pub AreNewTo : Pairs → Pairs → Type 0
AreNewTo acc ps = AllKeys (λ k. has_pair k acc ≡ false) ps

pub AllKeys-both :
    (P Q R : Value → Type 0)
    → ((k : Value) → P k → Q k → R k)
    → (ps : Pairs) → AllKeys P ps
    → AllKeys Q ps
    → AllKeys R ps
AllKeys-both P Q R f end h l = tt
AllKeys-both P Q R f (pair k v ps) h l = (f k h.0 l.0, AllKeys-both P Q R f ps h.1 l.1)

pub to_dict-append :
    (acc ps : Pairs) → AreKeys ps → AreNewTo acc ps → to_dict acc ps ≡ ok (acc +p ps)
unfolding to_dict
to_dict-append acc end h new = ap ok (sym (append_end acc))
to_dict-append acc (pair k v ps) h new =
    rw (h.0, set_pair-new k v acc new.0)
      (to_dict-append (acc +p pair k v end) ps h.2 (
          AllKeys-both (λ k'. key_eq k' k ≡ false) (λ k'. has_pair k' acc ≡ false)
            (λ k'. has_pair k' (acc +p pair k v end) ≡ false)
            (λ k' other absent. has_pair-append k' acc (pair k v end) ∙ rw (absent, other) refl) ps
            h.1 new.1)
        ∙ ap ok (append_assoc acc (pair k v end) ps))

pub AllKeys-every : (P : Value → Type 0) → ((k : Value) → P k) → (ps : Pairs) → AllKeys P ps
AllKeys-every P f end = tt
AllKeys-every P f (pair k v ps) = (f k, AllKeys-every P f ps)

pub to_dict-keys : (ps : Pairs) → AreKeys ps → to_dict end ps ≡ ok ps
to_dict-keys ps h =
    to_dict-append end ps h (AllKeys-every (λ k. has_pair k end ≡ false) (λ k. refl) ps)

-- Taking away the key that was set last.
pub lookup-append :
    (k v : Value) (ps : Pairs)
    → has_pair k ps ≡ false
    → key_eq k k ≡ true
    → lookup k (ps +p pair k v end) ≡ some v
unfolding lookup
lookup-append k v end h same = rw same refl
lookup-append k v (pair k' w ps) h same =
    let other : key_eq k k' ≡ false = ground arith in
    rw other (lookup-append k v ps (ground arith) same)

pub without_key-append :
    (k v : Value) (ps : Pairs)
    → has_pair k ps ≡ false
    → key_eq k k ≡ true
    → without_key k (ps +p pair k v end) ≡ ps
unfolding without_key
without_key-append k v end h same = rw same refl
without_key-append k v (pair k' w ps) h same =
    let other : key_eq k k' ≡ false = ground arith in
    rw (other, without_key-append k v ps (ground arith) same) refl
