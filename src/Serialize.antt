-- ===== src/Serialize.antt =====
-- subiquity/common/serialize.py: what the server and its clients send one another. Python's values,
-- the annotations that drive the serializer, and the tests and errors that both directions share.
-- Floats and datetimes are left out.
pub mod Out
pub mod Back
pub mod Typed
pub mod Dicts
pub mod Classes
pub mod Keywords
pub mod Enums
pub mod Lists
pub mod Keys
pub mod Tags
pub mod Scalars
pub mod Unknown
pub mod Round
pub mod Example
use Prim.Native.String.{String}
use text.Mathlib.Text.{◌==◌ as str_eq}
use subiquity.Base.{
  ℕ, suc, Bool, true, false, not, ◌&&◌, ◌||◌, Option, none, some, List, [], ◌∷◌, ◌++◌, ◌==◌,
  if◌then◌else◌, all, bool_eq,
}
use subiquity.Base.Ints.{ℤ, pos, negsuc}

-- A list, a dict with its items in order, a member of an enum, and an object of a class made by
-- attr.s with its attributes.
mutual
  pub data Value : Type 0 where
    none_value : Value
    bool_value : Bool → Value
    int_value : ℤ → Value
    str_value : String → Value
    list_value : Values → Value
    dict_value : Pairs → Value
    member : (enum name : String) → Value
    object : (class : String) → Pairs → Value

  pub data Values : Type 0 where
    nil : Values
    cons : Value → Values → Values

  pub data Pairs : Type 0 where
    end : Pairs
    pair : Value → Value → Pairs → Pairs

pub record Enum : Type 0 where
  pub name : String
  -- the members in order, with their values
  pub members : List (String × Value)

-- An annotation. A field has its attribute's name, the name it is sent by (`_field_name`), its
-- annotation, and its default if it has one; neither sort of name occurs twice.
mutual
  pub data Ann : Type 0 where
    none_ann any_ann int_ann str_ann bool_ann bare_list bare_dict unknown_ann : Ann
    list_of : Ann → Ann
    dict_of : Ann → Ann → Ann
    union : Anns → Ann
    class : String → Fields → Ann
    enum non_exhaustive : Enum → Ann

  pub data Anns : Type 0 where
    no_args : Anns
    arg : Ann → Anns → Anns

  pub data Fields : Type 0 where
    no_fields : Fields
    field : (name key : String) → Ann → (default : Option Value) → Fields → Fields

-- The arguments of `Serializer`.
pub record Config : Type 0 where
  pub compact : Bool
  pub ignore_unknown_fields : Bool
  -- `serialize_enums_by == "name"`, and not "value"
  pub enums_by_name : Bool

-- A step of the path of a context.
pub data Segment : Type 0 where
  item : ℕ → Segment
  key at : Value → Segment
  attribute : String → Segment

abbrev pub ContextPath : Type 0
ContextPath = List Segment

pub data TypeName : Type 0 where
  none_type int_type str_type bool_type list_type dict_type : TypeName
  class_type : String → TypeName

-- What a SerializationError says.
pub data Reason : Type 0 where
  is_not_a : TypeName → Reason
  type_not_found cannot_serialize unknown_annotation : Reason

-- Other exceptions.
pub data PyError : Type 0 where
  attribute_error key_error type_error value_error index_error : PyError

pub data Result (A : Type 0) : Type 0 where
  ok : A → Result A
  failed : ContextPath → Reason → Result A
  raised : PyError → Result A

-- Shut, so that a proof finds the two parts of a sequence in its goal.
infixl 5 ◌>>=◌
unfoldable pub ◌>>=◌ : {A B : Type 0} → Result A → (A → Result B) → Result B
ok a >>= f = f a
failed p r >>= f = failed p r
raised e >>= f = raised e

abbrev pub from_option : {A : Type 0} → PyError → Option A → Result A
from_option e none = raised e
from_option e (some a) = ok a

abbrev pub type_of : Value → TypeName
type_of none_value = none_type
type_of (bool_value b) = bool_type
type_of (int_value z) = int_type
type_of (str_value s) = str_type
type_of (list_value vs) = list_type
type_of (dict_value ps) = dict_type
type_of (member e n) = class_type e
type_of (object c ps) = class_type c

abbrev pub type_eq : TypeName → TypeName → Bool
type_eq none_type none_type = true
type_eq int_type int_type = true
type_eq str_type str_type = true
type_eq bool_type bool_type = true
type_eq list_type list_type = true
type_eq dict_type dict_type = true
type_eq (class_type a) (class_type b) = str_eq a b
type_eq _ _ = false

-- `assert_type`, and then the value
unfoldable pub asserted : TypeName → ContextPath → Value → Result Value
asserted t p v = if type_eq (type_of v) t then ok v else failed p (is_not_a t)

abbrev pub int_eq : ℤ → ℤ → Bool
int_eq (pos a) (pos b) = a == b
int_eq (negsuc a) (negsuc b) = a == b
int_eq _ _ = false

abbrev pub bool_int : Bool → ℤ
bool_int true = pos 1
bool_int false = pos 0

-- `==` of two values that can be keys; True and 1 are equal.
abbrev pub key_eq : Value → Value → Bool
key_eq none_value none_value = true
key_eq (bool_value a) (bool_value b) = bool_eq a b
key_eq (bool_value a) (int_value b) = int_eq (bool_int a) b
key_eq (int_value a) (bool_value b) = int_eq a (bool_int b)
key_eq (int_value a) (int_value b) = int_eq a b
key_eq (str_value a) (str_value b) = str_eq a b
key_eq (member a m) (member b n) = str_eq a b && str_eq m n
key_eq _ _ = false

-- Whether a value can be a key: lists, dicts and objects of attr.s have no hash.
abbrev pub is_hashable : Value → Bool
is_hashable (list_value vs) = false
is_hashable (dict_value ps) = false
is_hashable (object c ps) = false
is_hashable _ = true

unfoldable pub lookup : Value → Pairs → Option Value
lookup k end = none
lookup k (pair k' v ps) = let rest = lookup k ps in if key_eq k k' then some v else rest

-- `d[k] = v`
unfoldable pub set_pair : Value → Value → Pairs → Pairs
set_pair k v end = pair k v end
set_pair k v (pair k' w ps) =
    let rest = set_pair k v ps in if key_eq k k' then pair k' v ps else pair k' w rest

-- `dict` of the pairs behind those of `acc`
unfoldable pub to_dict : Pairs → Pairs → Result Pairs
unfolding set_pair
to_dict acc end = ok acc
to_dict acc (pair k v ps) =
    let rest = to_dict (set_pair k v acc) ps in if is_hashable k then rest else raised type_error

-- `getattr(context.cur, name)`; no other value has an attribute with the name of a field.
abbrev pub get_attribute : String → Value → Result Value
get_attribute n (object c ps) = from_option attribute_error (lookup (str_value n) ps)
get_attribute n _ = raised attribute_error

abbrev pub characters : String → Values
characters String.[] = nil
characters (String.◌∷◌ c s) = cons (str_value (String.◌∷◌ c String.[])) (characters s)

abbrev pub keys : Pairs → Values
keys end = nil
keys (pair k v ps) = cons k (keys ps)

-- What a `for` loop goes through; `none` is the TypeError of a value that is not iterable.
abbrev pub elements : Value → Option Values
elements (list_value vs) = some vs
elements (dict_value ps) = some (keys ps)
elements (str_value s) = some (characters s)
elements _ = none

-- `cur.items()`
abbrev pub items : Value → Result Pairs
items (dict_value ps) = ok ps
items _ = raised attribute_error

-- The list of what `f` makes of each value, from number `i` on.
unfoldable pub each_value : (ℕ → Value → Result Value) → ℕ → Values → Result Values
each_value f i nil = ok nil
each_value f i (cons v vs) = f i v >>= λ w. each_value f (suc i) vs >>= λ ws. ok (cons w ws)

unfoldable pub each_pair :
    (Value → Result Value) → (Value → Value → Result Value) → Pairs → Result Pairs
each_pair f g end = ok end
each_pair f g (pair k v ps) =
    f k >>= λ k'. g k v >>= λ w. each_pair f g ps >>= λ qs. ok (pair k' w qs)

-- The tests on the arguments of a Union, which pass NoneType over.
abbrev pub is_none : Value → Bool
is_none none_value = true
is_none _ = false

abbrev pub has_none : Anns → Bool
has_none no_args = false
has_none (arg none_ann as') = true
has_none (arg _ as') = has_none as'

abbrev pub count_args : Anns → ℕ
count_args no_args = 0
count_args (arg none_ann as') = count_args as'
count_args (arg _ as') = suc (count_args as')

abbrev pub all_classes : Anns → Bool
all_classes no_args = true
all_classes (arg none_ann as') = all_classes as'
all_classes (arg (class n fs) as') = all_classes as'
all_classes (arg _ as') = false

abbrev pub all_scalars : Anns → Bool
all_scalars no_args = true
all_scalars (arg none_ann as') = all_scalars as'
all_scalars (arg int_ann as') = all_scalars as'
all_scalars (arg str_ann as') = all_scalars as'
all_scalars (arg bool_ann as') = all_scalars as'
all_scalars (arg _ as') = false

-- `isinstance(data, type_)`: a bool is an int.
abbrev pub is_instance : Ann → Value → Bool
is_instance int_ann (int_value z) = true
is_instance int_ann (bool_value b) = true
is_instance str_ann (str_value s) = true
is_instance bool_ann (bool_value b) = true
is_instance _ _ = false

abbrev pub is_object_of : String → Value → Bool
is_object_of n (object c ps) = str_eq c n
is_object_of n _ = false

abbrev pub is_str : Value → Bool
is_str (str_value s) = true
is_str _ = false

abbrev pub is_empty : List (String × Value) → Bool
is_empty [] = true
is_empty (m ∷ ms) = false

abbrev pub has_str_values : Enum → Bool
has_str_values e = all (λ m. is_str m.1) e.members && not (is_empty e.members)
