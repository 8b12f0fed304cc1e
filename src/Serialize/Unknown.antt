-- ===== src/Serialize/Unknown.antt =====
-- Keys of a dict that no field is sent by.
use Prim.Native.String.{String}
use text.Mathlib.Text.{◌==◌ as str_eq}
use subiquity.Base.{
  ◌≡◌, refl, ap, sym, ◌∙◌, Bool, true, false, ◌||◌, Option, none, some, [], arith, if◌then◌else◌,
}
use subiquity.Serialize.{
  Value, str_value, dict_value, Pairs, end, pair, class, Fields, no_fields, field, Config,
  ContextPath, key_error, Result, ok, failed, raised, ◌>>=◌, set_pair,
}
use subiquity.Serialize.Back.{read_items, object_of, deserialize_at, deserialize_field, deserialize}
use subiquity.Serialize.Dicts.{◌+p◌}
use subiquity.Serialize.Classes.{bind_ok}
use subiquity.Serialize.Back.{is_ignored}
use subiquity.Serialize.Typed.{has_key_name}
use subiquity.Serialize.Enums.{if_false}

-- One item more, whatever follows it.
item_then :
    (b : Bool) (found : Option (String × Result Value)) (x x' : Result Pairs)
    (f f' : String → Value → Result Pairs) (g : Pairs → Result Pairs)
    → x ≡ (x' >>= g)
    → ((n : String) (v : Value) → f n v ≡ (f' n v >>= g))
    → (elim found [ none ↦ if b then x else raised key_error | some (n, r) ↦ r >>= f n ]) ≡ (
        (elim found [ none ↦ if b then x' else raised key_error | some (n, r) ↦ r >>= f' n ]) >>= g)
unfolding ◌>>=◌
item_then true none x x' f f' g h hs = h
item_then false none x x' f f' g h hs = refl
item_then b (some (n, ok v)) x x' f f' g h hs = hs n v
item_then b (some (n, failed p r)) x x' f f' g h hs = refl
item_then b (some (n, raised e)) x x' f f' g h hs = refl

read_items_then :
    (cfg : Config) (find : Value → Value → Option (String × Result Value)) (acc ps qs : Pairs)
    → read_items cfg find acc (ps +p qs)
      ≡ (read_items cfg find acc ps >>= λ args. read_items cfg find args qs)
unfolding read_items
read_items_then cfg find acc end qs = sym (bind_ok (ok acc) acc _ refl)
read_items_then cfg find acc (pair k v ps) qs =
    item_then (is_ignored cfg k) (find k v) _ _
      (λ n x. read_items cfg find (set_pair (str_value n) x acc) (ps +p qs))
      (λ n x. read_items cfg find (set_pair (str_value n) x acc) ps)
      (λ args. read_items cfg find args qs) (read_items_then cfg find acc ps qs)
      (λ n x. read_items_then cfg find (set_pair (str_value n) x acc) ps qs)

not_found :
    (cfg : Config) (fs : Fields) (p : ContextPath) (k : String) (v : Value)
    → has_key_name k fs ≡ false
    → deserialize_field cfg fs p (str_value k) v ≡ none
unfolding deserialize_field
not_found cfg no_fields p k v h = refl
not_found cfg (field n k' a d fs) p k v h =
    let other : str_eq k k' ≡ false = ground arith in
    if_false _ _ other ∙ not_found cfg fs p k v (ground arith)

unknown_item :
    (cfg : Config) (fs : Fields) (p : ContextPath) (k : String) (v : Value) (args : Pairs)
    → has_key_name k fs ≡ false
    → read_items cfg (λ k' w. deserialize_field cfg fs p k' w) args (pair (str_value k) v end)
      ≡ (if is_ignored cfg (str_value k) then ok args else raised key_error)
unfolding read_items deserialize_field
unknown_item cfg fs p k v args h = rw (not_found cfg fs p k v h) refl

then_last :
    (b : Bool) (m : Result Pairs) (t : Pairs → Result Pairs) (f : Pairs → Result Value) (o : Value)
    → ((args : Pairs) → t args ≡ (if b then ok args else raised key_error))
    → (m >>= f) ≡ ok o
    → ((m >>= t) >>= f) ≡ (if b then ok o else raised key_error)
unfolding ◌>>=◌
then_last true (ok args) t f o last h = ap (λ r. r >>= f) (last args) ∙ h
then_last false (ok args) t f o last h = ap (λ r. r >>= f) (last args)
then_last b (failed p r) t f o last h = cc
then_last b (raised e) t f o last h = cc

-- Where a class is read from a dict, and reading succeeds, a further item whose key no field is sent by
-- makes no difference if the key is "$type" or unknown fields are ignored, and raises KeyError otherwise.
pub deserialize_unknown_key :
    (cfg : Config) (n : String) (fs : Fields) (ps : Pairs) (k : String) (v o : Value)
    → cfg.compact ≡ false
    → has_key_name k fs ≡ false
    → deserialize cfg (class n fs) (dict_value ps) ≡ ok o
    → deserialize cfg (class n fs) (dict_value (ps +p pair (str_value k) v end))
      ≡ (if str_eq k "$type" || cfg.ignore_unknown_fields then ok o else raised key_error)
unfolding deserialize deserialize_at
deserialize_unknown_key cfg n fs ps k v o dicts unknown h =
    if_false _ _ dicts
    ∙ ap (λ m. m >>= object_of n fs)
        (read_items_then cfg (λ k' w. deserialize_field cfg fs [] k' w) end ps
          (pair (str_value k) v end))
    ∙ then_last (is_ignored cfg (str_value k)) _ _ (object_of n fs) o
        (λ args. unknown_item cfg fs [] k v args unknown) (sym (if_false _ _ dicts) ∙ h)
