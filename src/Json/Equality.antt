-- ===== src/Json/Equality.antt =====
-- Facts on Python's `==` over JSON values, and on the lookups.
use mathlib.Core.Path.{ap₂}
use grain_protocol.Json
use grain_protocol.Base.{
  ◌≡◌, refl, ◌↔◌, ap, arith, String, eq_iff, true, false, some, List, [], ◌∷◌, subst, sym,
  and_parts, and_join, lookup, contains, contains-keys, ok,
}
use grain_protocol.Json.{
  Value, str, int, bool, arr, nil, cons, items, texts, py_eq, items_eq, Fields, fields, get, get_or,
  has_key, in_set, in_list, is_str, or_default,
}

pub py_eq-str : (v : Value) (s : String) → py_eq v (str s) ≡ true → v ≡ str s
unfolding py_eq
py_eq-str (str t) s h = ap str ((eq_iff t s).0 h)
py_eq-str (bool true) s h = cc
py_eq-str (bool false) s h = cc
py_eq-str (Value.infinity true) s h = cc
py_eq-str (Value.infinity false) s h = cc
py_eq-str _ s h = cc

pub py_eq-str_refl : (s : String) → py_eq (str s) (str s) ≡ true
unfolding py_eq
py_eq-str_refl s = (eq_iff s s).1 refl

pub py_eq-str_iff : (v : Value) (s : String) → (py_eq v (str s) ≡ true) ↔ (v ≡ str s)
py_eq-str_iff v s =
    (py_eq-str v s, λ e. subst (λ w. py_eq w (str s) ≡ true) (sym e) (py_eq-str_refl s))

items_eq-texts :
    (vs : Json.Items) (ss : List String) → items_eq vs (items (texts ss)) ≡ true → vs ≡ texts ss
unfolding py_eq
items_eq-texts Json.nil [] h = refl
items_eq-texts Json.nil (s ∷ ss) h = cc
items_eq-texts (cons v vs) [] h = cc
items_eq-texts (cons v vs) (s ∷ ss) h =
    let (here, rest) = and_parts _ _ h in ap₂ cons (py_eq-str v s here) (items_eq-texts vs ss rest)

items_eq-texts_refl : (ss : List String) → items_eq (texts ss) (items (texts ss)) ≡ true
unfolding py_eq
items_eq-texts_refl [] = refl
items_eq-texts_refl (s ∷ ss) = and_join _ _ (py_eq-str_refl s) (items_eq-texts_refl ss)

pub py_eq-texts :
    (v : Value) (ss : List String) → py_eq v (arr (texts ss)) ≡ true → v ≡ arr (texts ss)
unfolding py_eq
py_eq-texts (arr vs) ss h = ap arr (items_eq-texts vs ss h)
py_eq-texts (bool true) ss h = cc
py_eq-texts (bool false) ss h = cc
py_eq-texts (Value.infinity true) ss h = cc
py_eq-texts (Value.infinity false) ss h = cc
py_eq-texts _ ss h = cc

-- A value equals a list of texts only if it is that list.
pub py_eq-texts_iff :
    (v : Value) (ss : List String) → (py_eq v (arr (texts ss)) ≡ true) ↔ (v ≡ arr (texts ss))
py_eq-texts_iff v ss = (
  py_eq-texts v ss,
  λ e.
      subst (λ w. py_eq w (arr (texts ss)) ≡ true) (sym e) (unfold py_eq in items_eq-texts_refl ss),
)

-- Membership in a list or a set of texts.
abbrev pub OneOf : List String → Value → Type 0
OneOf names v = (s : String) × (v ≡ str s) × (contains names s ≡ true)

pub in_list-OneOf : (v : Value) (names : List String) → in_list v names ≡ true → OneOf names v
unfolding in_list
in_list-OneOf (str s) names h = (s, refl, h)
in_list-OneOf _ names h = cc

pub OneOf-in_list : (v : Value) (names : List String) → OneOf names v → in_list v names ≡ true
unfolding in_list
OneOf-in_list v names (s, e, h) = subst (λ w. in_list w names ≡ true) (sym e) h

pub in_set-OneOf {ℓ} :
    {M : Type ℓ} (v : Value) (names : List String)
    → in_set {M = M} v names ≡ ok true
    → OneOf names v
unfolding in_set
in_set-OneOf (str s) names h = (s, refl, ground arith)
in_set-OneOf (arr vs) names h = cc
in_set-OneOf _ names h = cc

pub is_str_iff : (v : Value) → (is_str v ≡ true) ↔ ((s : String) × (v ≡ str s))
is_str_iff (str s) = (λ h. (s, refl), λ h. refl)
is_str_iff _ = (λ h. cc, λ h. cc)

-- A key that is there has a value, and `get` returns it.
pub has_key-get :
    (fs : Fields) (k : String) → has_key fs k ≡ true → lookup k (fields fs) ≡ some (get fs k)
unfolding has_key get
has_key-get fs k h = let (v, e) = (contains-keys k (fields fs)).0 h in rw e

pub in_list_iff : (v : Value) (names : List String) → (in_list v names ≡ true) ↔ OneOf names v
in_list_iff v names = (in_list-OneOf v names, OneOf-in_list v names)
