-- ===== src/Vectors.antt =====
-- tools/validate_vectors.py: the walks over a vector, and the shapes of a manifest record and of a
-- ledger event. The other checks and `main` are in the modules below.
pub mod Shapes
pub mod Walks
pub mod Names
pub mod Operations
pub mod Contents
pub mod Files
pub mod Accepted
pub mod Noted
pub mod Covered
pub mod Suite
mod Tests
mod Runs
use mathlib.Core.List.{reverse}
use grain_protocol.Base.{
  ℕ, suc, String, str_eq, Bool, true, false, not, ◌&&◌, ◌||◌, Option, none, some, List, [], ◌∷◌,
  ◌++◌, all, keys, length, ◌==◌, contains, if◌then◌else◌, Result, ok, ◌>>=◌,
}
use grain_protocol.Base.Int.{ℤ, pos, negsuc, ltb_ℤ}
use grain_protocol.Base.Text.{codes, has_prefix, sorted}
use grain_protocol.Base64.{decode}
use grain_protocol.Json.{
  Value, int, str, arr, obj, Items, nil, cons, Fields, end, field, fields, get, has_key, in_set,
  is_dict, py_eq,
}
use grain_protocol.Report.{Detail, text, at, plus}

-- What a shape check reports.
pub data Problem : Type 0 where
  said : String → Problem
  missing_keys : List String → Problem

abbrev pub max_safe_integer : ℤ
max_safe_integer = pos 9007199254740991

-- `name.endswith("_b64") or name == "bytes_b64"`.
unfoldable pub is_b64_field : String → Bool
is_b64_field name =
    has_prefix (reverse (codes name)) (reverse (codes "_b64")) || str_eq name "bytes_b64"

abbrev is_some {ℓ} : {A : Type ℓ} → Option A → Bool
is_some none = false
is_some (some a) = true

unfoldable pub validate_b64 : String → Bool
validate_b64 value = is_some (decode (codes value))

-- Whether a path is the empty text.
abbrev pub is_empty_path : Detail → Bool
is_empty_path (text s) = str_eq s ""
is_empty_path (at path index) = false
is_empty_path (plus path s) = is_empty_path path && str_eq s ""

-- f"{path}.{key}" if path else key.
abbrev pub child_path : Detail → String → Detail
child_path path key = if is_empty_path path then text key else plus (plus path ".") key

abbrev pub or_root : Detail → Detail
or_root path = if is_empty_path path then text "<root>" else path

-- `abs(n) > MAX_SAFE_INTEGER`.
unfoldable pub is_unsafe : ℤ → Bool
is_unsafe n = ltb_ℤ max_safe_integer n || ltb_ℤ n (negsuc 9007199254740990)

unfoldable mutual
  pub collect_unsafe_expect_integers : Value → Detail → List (Detail × ℤ)
  collect_unsafe_expect_integers (int n) path = if is_unsafe n then (or_root path, n) ∷ [] else []
  collect_unsafe_expect_integers (obj fs) path = unsafe_in_fields fs path
  collect_unsafe_expect_integers (arr vs) path = unsafe_in_items vs path 0
  collect_unsafe_expect_integers _ path = []

  pub unsafe_in_fields : Fields → Detail → List (Detail × ℤ)
  unsafe_in_fields end path = []
  unsafe_in_fields (field key value fs) path =
      collect_unsafe_expect_integers value (child_path path key) ++ unsafe_in_fields fs path

  pub unsafe_in_items : Items → Detail → ℕ → List (Detail × ℤ)
  unsafe_in_items nil path idx = []
  unsafe_in_items (cons item vs) path idx =
      collect_unsafe_expect_integers item (at path idx) ++ unsafe_in_items vs path (suc idx)

-- The text of a member whose name calls for base64.
abbrev pub b64_text : String → Value → Option String
b64_text key (str s) = if is_b64_field key then some s else none
b64_text key _ = none

abbrev pub row_or : Detail → Option String → List (Detail × String) → List (Detail × String)
row_or path none rows = rows
row_or path (some s) rows = (path, s) ∷ []

unfoldable mutual
  pub collect_b64_fields : Value → Detail → List (Detail × String)
  collect_b64_fields (obj fs) path = b64_in_fields fs path
  collect_b64_fields (arr vs) path = b64_in_items vs path 0
  collect_b64_fields _ path = []

  pub b64_in_fields : Fields → Detail → List (Detail × String)
  b64_in_fields end path = []
  b64_in_fields (field key value fs) path =
      row_or (child_path path key) (b64_text key value)
        (collect_b64_fields value (child_path path key))
      ++ b64_in_fields fs path

  pub b64_in_items : Items → Detail → ℕ → List (Detail × String)
  b64_in_items nil path idx = []
  b64_in_items (cons item vs) path idx =
      collect_b64_fields item (at path idx) ++ b64_in_items vs path (suc idx)

-- The test that `main` makes of each base64 field of a vector.
unfoldable pub has_valid_b64 : Value → Bool
has_valid_b64 v =
    all (λ (row : Detail × String). validate_b64 row.1) (collect_b64_fields v (text ""))

-- What a known operation asks of the two keys of a record.
unfoldable pub manifest_problem : Value → Bool → Bool → Option Problem
manifest_problem op has_cap has_chash =
    if py_eq op (str "put") && (not has_cap || not has_chash)
    then some (said "manifest put record must include cap_id_b64 and chash_b64")
    else if py_eq op (str "del") && (has_cap || has_chash)
    then some (said "manifest del record must not include cap_id_b64/chash_b64")
    else none

-- `op` may be of any type: a list or an object in its place has no hash.
unfoldable pub validate_manifest_record_shape : Fields → Result Problem (Option Problem)
validate_manifest_record_shape rec = do
  let op = get rec "op"
  known ← in_set op ("put" ∷ "del" ∷ [])
  ok (
      if known
      then manifest_problem op (has_key rec "cap_id_b64") (has_key rec "chash_b64")
      else some (said "manifest record op must be 'put' or 'del'"))

abbrev pub event_keys : List String
event_keys = "t" ∷ "ak" ∷ "seq" ∷ "payload_cid" ∷ "body" ∷ []

-- `required - set(ev.keys())`.
unfoldable pub missing_from : Fields → List String → List String
missing_from ev [] = []
missing_from ev (key ∷ names) =
    let rest = missing_from ev names in if has_key ev key then rest else key ∷ rest

-- What the type of an event asks of its body.
unfoldable pub check_event_body : Value → Fields → Option Problem
check_event_body t body =
    if py_eq t (str "DeviceKeyGrant") && not (has_key body "grant_ak")
    then some (said "DeviceKeyGrant body must include grant_ak")
    else if py_eq t (str "DeviceKeyRevoke") && not (has_key body "revoke_ak")
    then some (said "DeviceKeyRevoke body must include revoke_ak")
    else if py_eq t (str "IntakeEvent") && (not (has_key body "mean") || not (has_key body "var"))
    then some (said "IntakeEvent body must include mean and var")
    else none

abbrev pub body_or : Value → Value → Option Problem
body_or t (obj body) = check_event_body t body
body_or t _ = some (said "ledger event body must be object")

unfoldable pub validate_ledger_event_shape : Fields → Option Problem
validate_ledger_event_shape ev =
    let missing = missing_from ev event_keys in
    if length missing == 0
    then body_or (get ev "t") (get ev "body")
    else some (missing_keys (sorted missing))
