-- ===== src/Workflows/Expect.antt =====
-- The `expect` object of a workflow fixture: its keys, its status and its values.
use grain_protocol.Base.{
  String, Bool, true, false, not, ◌&&◌, List, [], ◌∷◌, contains, keys, if◌then◌else◌, Result, ok,
  err, exit, require, ◌>>◌,
}
use grain_protocol.Base.Int.{pos, ltb_ℤ}
use grain_protocol.Base.Text.{sorted}
use grain_protocol.Json.{
  Value, int, str, arr, Items, nil, cons, is_nil, is_str, Fields, fields, get, has_key, py_eq,
}
use grain_protocol.Workflows.References.{Message, said, said_key, said_keys}
use grain_protocol.Workflows.Input.{when, is_subset, require_in}

abbrev pub allowed_status : List String
allowed_status =
    "Verified" ∷ "Untrusted" ∷ "Accepted" ∷ "AlreadyAccepted" ∷ "Created" ∷ "Valid" ∷ "Paired"
    ∷ "AlreadyPaired" ∷ "Ready" ∷ "Uninitialized" ∷ "Exported" ∷ "Restored" ∷ "Empty" ∷ "Imported"
    ∷ "AlreadyImported" ∷ "Rejected" ∷ []

-- The statuses of each workflow.
abbrev pub workflow_status : List (String × List String)
workflow_status =
    ("scan_preview", "Verified" ∷ "Untrusted" ∷ "Rejected" ∷ [])
    ∷ ("scan_accept", "Accepted" ∷ "AlreadyAccepted" ∷ "Rejected" ∷ [])
    ∷ ("scan_handoff", "Accepted" ∷ "AlreadyAccepted" ∷ "Rejected" ∷ [])
    ∷ ("device_lifecycle", "Ready" ∷ "Uninitialized" ∷ [])
    ∷ ("pairing", "Paired" ∷ "AlreadyPaired" ∷ "Rejected" ∷ [])
    ∷ ("sync_bundle", "Imported" ∷ "AlreadyImported" ∷ "Rejected" ∷ [])
    ∷ ("store_snapshot", "Exported" ∷ "Restored" ∷ "Empty" ∷ "Rejected" ∷ [])
    ∷ []

abbrev pub presence_fields : List String
presence_fields =
    "root_kid" ∷ "active_ak" ∷ "device_ak" ∷ "pairing_id" ∷ "envelope_b64" ∷ "bundle_b64"
    ∷ "snapshot_b64" ∷ []

abbrev pub count_fields : List String
count_fields =
    "accepted_record_count" ∷ "device_count" ∷ "revoked_count" ∷ "lifecycle_event_count" ∷ []

abbrev pub allowed_expect : List String
allowed_expect =
    "status" ∷ "diag" ∷ "diag_contains" ∷ "cose_b64" ∷ "store_mutation" ∷ "accepted_record_count"
    ∷ "device_count" ∷ "revoked_count" ∷ "lifecycle_event_count" ∷ "root_kid" ∷ "active_ak"
    ∷ "device_ak" ∷ "pairing_id" ∷ "envelope_b64" ∷ "bundle_b64" ∷ "snapshot_b64" ∷ "handoff_source"
    ∷ []

-- One `if workflow == ...` after the other.
unfoldable pub check_status :
    Value → Value → String → List (String × List String) → Result Message (Unit {0})
check_status workflow status path [] = ok tt
check_status workflow status path ((name, statuses) ∷ rows) = do
  when (py_eq workflow (str name))
      (require_in status statuses (said_key path "invalid status" name))
  check_status workflow status path rows

abbrev pub presences : List String
presences = "present" ∷ "absent" ∷ []

abbrev pub mutations : List String
mutations = "none" ∷ "accepted_scan_inserted" ∷ []

-- The loops over the fields that are there. The source walks them in the order of a set, which shows
-- only in the choice between two messages.
unfoldable pub check_presence : Fields → String → List String → Result Message (Unit {0})
check_presence expect path [] = ok tt
check_presence expect path (key ∷ names) = do
  when (has_key expect key) (require_in (get expect key) presences (said_key path "invalid" key))
  check_presence expect path names

abbrev pub is_count : Value → Bool
is_count (int n) = not (ltb_ℤ n (pos 0))
is_count _ = false

unfoldable pub check_counts : Fields → String → List String → Result Message (Unit {0})
check_counts expect path [] = ok tt
check_counts expect path (key ∷ names) = do
  when (has_key expect key)
      (require (is_count (get expect key)) (said_key path "must be a non-negative integer" key))
  check_counts expect path names

-- `set(ks) - names`.
unfoldable pub extra_keys : List String → List String → List String
extra_keys names [] = []
extra_keys names (k ∷ ks) =
    let rest = extra_keys names ks in if contains names k then rest else k ∷ rest

-- The checks of the expectations that hold for every workflow; they return the status.
unfoldable pub check_expect : Fields → Value → String → Result Message Value
check_expect expect workflow path = do
  require (has_key expect "status") (said_keys path "missing expect keys" ("status" ∷ []))
  require (is_subset expect allowed_expect) (
      said_keys path "unexpected expect keys"
        (sorted (extra_keys allowed_expect (keys (fields expect)))))
  let status = get expect "status"
  require_in status allowed_status (said path "invalid status")
  check_status workflow status path workflow_status
  when (has_key expect "cose_b64")
      (require_in (get expect "cose_b64") presences (said path "invalid cose_b64"))
  when (has_key expect "store_mutation")
      (require_in (get expect "store_mutation") mutations (said path "invalid store_mutation"))
  check_presence expect path presence_fields
  check_counts expect path count_fields
  ok status

-- `require_string_list(value, label, path)`.
abbrev pub are_strings : Items → Bool
are_strings nil = true
are_strings (cons v vs) = is_str v && are_strings vs

unfoldable pub require_string_list : Value → String → String → Result Message (Unit {0})
require_string_list (arr vs) label path =
    require (are_strings vs) (said_key path "must contain only strings" label)
require_string_list _ label path = err (exit (said_key path "must be a list" label))

-- `len(v) > 0` of a list.
abbrev pub is_filled : Value → Bool
is_filled (arr vs) = not (is_nil vs)
is_filled _ = false

-- Whether exactly one of two keys is there.
abbrev pub one_of : Bool → Bool → Bool
one_of true b = not b
one_of false b = b

unfoldable pub check_diag : Fields → String → Result Message (Unit {0})
check_diag expect path = do
  require (one_of (has_key expect "diag") (has_key expect "diag_contains"))
      (said path "expected exactly one diagnostic expectation")
  when (has_key expect "diag") (require_string_list (get expect "diag") "diag" path)
  when (has_key expect "diag_contains") (
      require_string_list (get expect "diag_contains") "diag_contains" path
      >> require (is_filled (get expect "diag_contains"))
          (said path "diag_contains must not be empty; use diag: [] to assert empty diagnostics"))
