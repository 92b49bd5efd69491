-- ===== src/Drift/Rules.antt =====
-- The values that the service answers with, as tools/ci/check_branch_protection_drift.py reads them.
use grain_protocol.Base.{
  ℕ, String, str_eq, Bool, true, false, not, ◌&&◌, ◌||◌, Option, none, some, List, [], ◌∷◌, ◌++◌,
  all, any, lookup, keys, contains, if◌then◌else◌, Result, ok, err, attribute_error, type_error,
  ◌>>=◌,
}
use grain_protocol.Base.Text.{codes, codes_eq}
use grain_protocol.Json.Elements.{chars_of, names_of}
use grain_protocol.Json.{
  Value, nan, bool, infinity, int, real, str, obj, arr, Fields, end, fields, items, get, is_str,
  truthy, py_eq,
}

pub data Failure : Type 0 where
  runtime_error : Failure

-- What is reported.
pub data Drift : Type 0 where
  wrong_rulesets : ℕ → Drift
  wrong_include bypass_actors wrong_approvals not_strict : Drift
  missing_rule wrong_flag : String → Drift
  wrong_methods wrong_contexts : List Value → Drift

abbrev pub drift_if : Bool → Drift → List Drift
drift_if true d = d ∷ []
drift_if false d = []

-- A value whose `get` is called: without one it raises.
abbrev pub fields_or : Value → Result Failure Fields
fields_or (obj fs) = ok fs
fields_or _ = err attribute_error

-- `v or default`.
abbrev pub value_or : Value → Value → Value
value_or v default = if truthy v then v else default

-- `v is expected`, for a bool.
abbrev pub is_bool : Value → Bool → Bool
is_bool (bool true) expected = expected
is_bool (bool false) expected = not expected
is_bool _ expected = false

abbrev pub only_dicts : List Value → List Fields
only_dicts [] = []
only_dicts (obj fs ∷ vs) = fs ∷ only_dicts vs
only_dicts (v ∷ vs) = only_dicts vs

-- The dicts that `for row in v` meets: what a dict or a text yields is none.
unfoldable pub rows_of : Value → Result Failure (List Fields)
rows_of (arr vs) = ok (only_dicts (items vs))
rows_of (obj fs) = ok []
rows_of (str s) = ok []
rows_of _ = err type_error

abbrev pub is_hashable : Value → Bool
is_hashable (arr vs) = false
is_hashable (obj fs) = false
is_hashable _ = true

-- `set(v)`, as a list in which an element may stand twice.
unfoldable pub members_of : Value → Result Failure (List Value)
members_of (arr vs) = if all is_hashable (items vs) then ok (items vs) else err type_error
members_of (obj fs) = ok (names_of (keys (fields fs)))
members_of (str s) = ok (chars_of s)
members_of _ = err type_error

abbrev pub is_text : Value → List ℕ → Bool
is_text (str s) t = codes_eq (codes s) t
is_text v t = false

-- `actual == expected`, for a set of values and one of texts.
unfoldable pub same_set : List Value → List (List ℕ) → Bool
same_set actual expected =
    all (λ v. any (is_text v) expected) actual && all (λ t. any (λ v. is_text v t) actual) expected

abbrev pub is_number : Value → Bool
is_number (bool b) = true
is_number (int n) = true
is_number (real n k) = true
is_number (infinity b) = true
is_number nan = true
is_number _ = false

abbrev pub is_single : List Value → Bool
is_single [] = true
is_single (v ∷ vs) = all (py_eq v) vs

-- `sorted(s)` does not raise: one element at most, or texts alone, or numbers alone.
unfoldable pub can_sort : List Value → Bool
can_sort vs = is_single vs || (all is_str vs || all is_number vs)

-- The rules by their types, the last of a type first; a type that is no text is never looked for.
abbrev pub add_rule :
    Value → Fields → List (String × Fields) → Result Failure (List (String × Fields))
add_rule (str t) rule by_type = ok (if str_eq t "" then by_type else (t, rule) ∷ by_type)
add_rule v rule by_type = if truthy v && not (is_hashable v) then err type_error else ok by_type

unfoldable pub rules_from :
    List Fields → List (String × Fields) → Result Failure (List (String × Fields))
rules_from [] by_type = ok by_type
rules_from (rule ∷ rules) by_type = do
  more ← add_rule (get rule "type") rule by_type
  rules_from rules more

abbrev pub rules_by_type : List Fields → Result Failure (List (String × Fields))
rules_by_type rules = rules_from rules []

-- `active_by_type.get(t) or {}`.
abbrev pub fields_or_end : Option Fields → Fields
fields_or_end none = end
fields_or_end (some fs) = fs

unfoldable pub rule_of : List (String × Fields) → String → Fields
rule_of by_type t = fields_or_end (lookup t by_type)

abbrev pub required_types : List String
required_types = "deletion" ∷ "non_fast_forward" ∷ "pull_request" ∷ "required_status_checks" ∷ []

unfoldable pub missing_of : List (String × Fields) → List String → List Drift
missing_of by_type [] = []
missing_of by_type (t ∷ types) =
    drift_if (not (contains (keys by_type) t)) (missing_rule t) ++ missing_of by_type types

abbrev pub require_rules : List (String × Fields) → List Drift
require_rules by_type = missing_of by_type required_types

-- The contexts that are truthy.
unfoldable pub contexts_of : List Fields → Result Failure (List Value)
contexts_of [] = ok []
contexts_of (row ∷ rows) = do
  let context = get row "context"
  rest ← contexts_of rows
  if truthy context
      then if is_hashable context then ok (context ∷ rest) else err type_error
      else ok rest
