-- ===== src/Json.antt =====
-- What `json.loads` returns, and the operations of Python on it that the tools share: `dict.get`,
-- `in`, `isinstance`, truth values and `==`. A float is its exact value: a finite one is m / 2^k.
-- An object is the list of its items in the order of insertion; `json.loads` lists no key twice.
pub mod Equality
pub mod Elements
use grain_protocol.Base.{
  ℕ, ◌==◌, String, str_eq, Bool, true, false, not, ◌&&◌, Option, none, some, List, [], ◌∷◌, lookup,
  keys, contains, length, if◌then◌else◌, Result, ok, err, type_error,
}
use grain_protocol.Base.Int.{ℤ, pos, negsuc, shift, eqb_ℤ}

mutual
  pub data Value : Type 0 where
    null nan : Value
    bool infinity : Bool → Value
    int : ℤ → Value
    real : ℤ → ℕ → Value
    str : String → Value
    obj : Fields → Value
    arr : Items → Value

  pub data Fields : Type 0 where
    end : Fields
    field : String → Value → Fields → Fields

  pub data Items : Type 0 where
    nil : Items
    cons : Value → Items → Items

abbrev pub items : Items → List Value
items nil = []
items (cons v vs) = v ∷ items vs

abbrev pub fields : Fields → List (String × Value)
fields end = []
fields (field k v fs) = (k, v) ∷ fields fs

abbrev pub from_items : List Value → Items
from_items [] = nil
from_items (v ∷ vs) = cons v (from_items vs)

abbrev pub from_fields : List (String × Value) → Fields
from_fields [] = end
from_fields ((k, v) ∷ fs) = field k v (from_fields fs)

abbrev pub texts : List String → Items
texts [] = nil
texts (s ∷ ss) = cons (str s) (texts ss)

-- `d.get(k)`, and `d.get(k, default)`.
abbrev pub or_default : Value → Option Value → Value
or_default d none = d
or_default d (some v) = v

unfoldable pub get_or : Fields → String → Value → Value
unfolding lookup
get_or fs k d = or_default d (lookup k (fields fs))

unfoldable pub get : Fields → String → Value
unfolding get_or
get fs k = get_or fs k null

-- `k in d`.
unfoldable pub has_key : Fields → String → Bool
unfolding contains keys
has_key fs k = contains (keys (fields fs)) k

-- `isinstance(v, str)`, and likewise for `int` without `bool`, `dict` and `list`.
abbrev pub is_str : Value → Bool
is_str (str s) = true
is_str _ = false

abbrev pub is_list : Value → Bool
is_list (arr vs) = true
is_list _ = false

abbrev pub is_dict : Value → Bool
is_dict (obj fs) = true
is_dict _ = false

abbrev pub is_nil : Items → Bool
is_nil nil = true
is_nil (cons v vs) = false

-- `v is True`, `v is False`, `v is None`.
abbrev pub is_true : Value → Bool
is_true (bool true) = true
is_true _ = false

abbrev pub is_false : Value → Bool
is_false (bool false) = true
is_false _ = false

abbrev pub is_none : Value → Bool
is_none null = true
is_none _ = false

-- `bool(v)`.
unfoldable pub truthy : Value → Bool
truthy null = false
truthy nan = true
truthy (bool b) = b
truthy (infinity b) = true
truthy (int n) = not (eqb_ℤ n (pos 0))
truthy (real n k) = not (eqb_ℤ n (pos 0))
truthy (str s) = not (str_eq s "")
truthy (arr nil) = false
truthy (arr (cons v vs)) = true
truthy (obj end) = false
truthy (obj (field k v fs)) = true

-- `v in {"a", "b"}`: a list or an object has no hash.
unfoldable pub in_set {ℓ} : {M : Type ℓ} → Value → List String → Result M Bool
unfolding contains
in_set (str s) names = ok (contains names s)
in_set (arr vs) names = err type_error
in_set (obj fs) names = err type_error
in_set _ names = ok false

-- `v in ["a", "b"]`.
unfoldable pub in_list : Value → List String → Bool
unfolding contains
in_list (str s) names = contains names s
in_list _ names = false

-- A number as a pair (m, k) for m / 2^k; `True` is 1 and `False` is 0.
abbrev pub number : Value → Option (ℤ × ℕ)
number (bool true) = some (pos 1, 0)
number (bool false) = some (pos 0, 0)
number (int n) = some (n, 0)
number (real n k) = some (n, k)
number _ = none

abbrev numbers_eq : Option (ℤ × ℕ) → Option (ℤ × ℕ) → Bool
numbers_eq (some (m, j)) (some (n, k)) = eqb_ℤ (shift m k) (shift n j)
numbers_eq _ _ = false

abbrev option_eq : (Value → Bool) → Option Value → Bool
option_eq same none = false
option_eq same (some v) = same v

-- Python's `a == b`. Objects are equal whatever the order of their items.
unfoldable mutual
  unfolding lookup

  pub py_eq : Value → Value → Bool
  py_eq null w = is_none w
  py_eq nan w = false
  py_eq (bool b) w = numbers_eq (number (bool b)) (number w)
  py_eq (infinity true) (infinity true) = true
  py_eq (infinity false) (infinity false) = true
  py_eq (infinity b) w = false
  py_eq (int n) w = numbers_eq (number (int n)) (number w)
  py_eq (real n k) w = numbers_eq (number (real n k)) (number w)
  py_eq (str s) (str t) = str_eq s t
  py_eq (str s) w = false
  py_eq (arr vs) (arr ws) = items_eq vs (items ws)
  py_eq (arr vs) w = false
  py_eq (obj fs) (obj gs) = length (fields fs) == length (fields gs) && fields_in fs (fields gs)
  py_eq (obj fs) w = false

  pub items_eq : Items → List Value → Bool
  items_eq nil [] = true
  items_eq nil (w ∷ ws) = false
  items_eq (cons v vs) [] = false
  items_eq (cons v vs) (w ∷ ws) = py_eq v w && items_eq vs ws

  pub fields_in : Fields → List (String × Value) → Bool
  fields_in end gs = true
  fields_in (field k v fs) gs = option_eq (py_eq v) (lookup k gs) && fields_in fs gs
