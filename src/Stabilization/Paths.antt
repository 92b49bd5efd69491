-- ===== src/Stabilization/Paths.antt =====
-- The paths into a vector of tools/stabilization/run_rc_stab.py: `get_at_path`, `set_at_path` and
-- `find_b64_paths`. A vector is a tree: nothing in what `json.loads` and `copy.deepcopy` return is
-- shared, so the value that is changed in place is the value that is returned.
use mathlib.Core.List.{reverse}
use grain_protocol.Base.{
  ℕ, zero, suc, String, str_eq, Bool, true, false, ◌&&◌, Option, none, some, List, [], ◌∷◌, ◌++◌,
  lookup, if◌then◌else◌, Result, ok, err, key_error, index_error, type_error, ◌>>=◌,
}
use grain_protocol.Base.Text.{codes, has_prefix}
use grain_protocol.Json.{Value, str, arr, obj, Items, nil, cons, Fields, end, field, fields, is_str}

-- A step of a path: the key of an object, or the index of a list.
pub data Part : Type 0 where
  key : String → Part
  index : ℕ → Part

abbrev pub or_raise {ℓ κ} : {M : Type ℓ} {A : Type κ} → Option A → Result M A → Result M A
or_raise none raised = raised
or_raise (some a) raised = ok a

unfoldable pub nth : Items → ℕ → Option Value
nth nil n = none
nth (cons v vs) zero = some v
nth (cons v vs) (suc n) = nth vs n

abbrev pub char_text : String → ℕ → Option Value
char_text String.[] n = none
char_text (String.◌∷◌ c s) zero = some (str (String.◌∷◌ c ""))
char_text (String.◌∷◌ c s) (suc n) = char_text s n

-- `cur[part]`. An object of JSON has no key that is a number.
unfoldable pub get_item {ℓ} : {M : Type ℓ} → Value → Part → Result M Value
get_item (obj fs) (key k) = or_raise (lookup k (fields fs)) (err key_error)
get_item (obj fs) (index n) = err key_error
get_item (arr vs) (index n) = or_raise (nth vs n) (err index_error)
get_item (str s) (index n) = or_raise (char_text s n) (err index_error)
get_item _ part = err type_error

-- The loop of `get_at_path`.
unfoldable pub get_at_path {ℓ} : {M : Type ℓ} → Value → List Part → Result M Value
get_at_path cur [] = ok cur
get_at_path cur (part ∷ path) = get_item cur part >>= λ child. get_at_path child path

-- `d[k] = v`: the value of a key that is there is replaced, and a new key comes last.
unfoldable pub put_field : Fields → String → Value → Fields
put_field end k v = field k v end
put_field (field j w fs) k v =
    let rest = field j w (put_field fs k v) in if str_eq j k then field j v fs else rest

unfoldable pub put_nth : Items → ℕ → Value → Option Items
put_nth nil n v = none
put_nth (cons w vs) zero v = some (cons v vs)
put_nth (cons w vs) (suc n) v = elim (put_nth vs n v) [ none ↦ none | some ws ↦ some (cons w ws) ]

abbrev pub as_arr : Option Items → Option Value
as_arr none = none
as_arr (some vs) = some (arr vs)

-- `cur[part] = v`, for a part that `cur[part]` was read by.
unfoldable pub set_item {ℓ} : {M : Type ℓ} → Value → Part → Value → Result M Value
set_item (obj fs) (key k) v = ok (obj (put_field fs k v))
set_item (arr vs) (index n) v = or_raise (as_arr (put_nth vs n v)) (err index_error)
set_item _ part v = err type_error

-- `path[-1]` of an empty path is out of range.
unfoldable pub set_at_path {ℓ} : {M : Type ℓ} → Value → List Part → Value → Result M Value
set_at_path node [] v = err index_error
set_at_path node (part ∷ []) v = set_item node part v
set_at_path node (part ∷ next ∷ path) v = get_item node part >>= λ child.
    set_at_path child (next ∷ path) v >>= λ changed. set_item node part changed

-- `k.endswith("_b64") and isinstance(v, str)`.
abbrev pub is_b64_member : String → Value → Bool
is_b64_member k v = has_prefix (reverse (codes k)) (reverse (codes "_b64")) && is_str v

abbrev pub row_if : Bool → List Part → List (List Part)
row_if true p = p ∷ []
row_if false p = []

unfoldable mutual
  pub find_b64_paths : Value → List Part → List (List Part)
  find_b64_paths (obj fs) path = paths_in_fields fs path
  find_b64_paths (arr vs) path = paths_in_items vs path 0
  find_b64_paths _ path = []

  pub paths_in_fields : Fields → List Part → List (List Part)
  paths_in_fields end path = []
  paths_in_fields (field k v fs) path =
      row_if (is_b64_member k v) (path ++ (key k ∷ []))
      ++ (find_b64_paths v (path ++ (key k ∷ [])) ++ paths_in_fields fs path)

  pub paths_in_items : Items → List Part → ℕ → List (List Part)
  paths_in_items nil path idx = []
  paths_in_items (cons v vs) path idx =
      find_b64_paths v (path ++ (index idx ∷ [])) ++ paths_in_items vs path (suc idx)
