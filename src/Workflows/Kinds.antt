-- ===== src/Workflows/Kinds.antt =====
-- What each workflow adds to the checks of a fixture.
use grain_protocol.Base.{ℕ, String, Bool, not, ◌&&◌, ◌||◌, [], ◌∷◌, Result, require, ◌>>◌}
use grain_protocol.Base.Int.{ℤ, pos, ltb_ℤ, eqb_ℤ}
use grain_protocol.Json.{Value, int, str, Fields, get, get_or, has_key, py_eq}
use grain_protocol.Workflows.References.{Message, said}
use grain_protocol.Workflows.Input.{allowed_handoff_source, when, has_keys, require_in}

-- `v == s`, for a text s.
abbrev pub is : Value → String → Bool
is v s = py_eq v (str s)

-- The scan left exactly this many records, with this mutation of the store.
abbrev pub leaves : Fields → String → ℕ → Bool
leaves expect mutation n =
    is (get expect "store_mutation") mutation
    && py_eq (get expect "accepted_record_count") (int (pos n))

unfoldable pub check_scan_preview : Fields → Fields → String → Result Message (Unit {0})
check_scan_preview input_obj expect path = do
  require (has_keys expect ("cose_b64" ∷ "store_mutation" ∷ []))
      (said path "scan_preview missing scan expectations")
  require (not (has_key input_obj "accept_attempts"))
      (said path "scan_preview must not set accept_attempts")
  require (is (get expect "store_mutation") "none")
      (said path "scan_preview store_mutation must be none")
  require (not (has_key expect "accepted_record_count"))
      (said path "scan_preview must not assert accepted_record_count")

unfoldable pub check_scan_accept : Fields → Value → ℤ → String → Result Message (Unit {0})
check_scan_accept expect status accept_attempts path = do
  require (has_keys expect ("cose_b64" ∷ "store_mutation" ∷ "accepted_record_count" ∷ []))
      (said path "scan_accept missing scan expectations")
  require (has_key expect "accepted_record_count")
      (said path "scan_accept must assert accepted_record_count")
  when (is status "Accepted") (
      require (eqb_ℤ accept_attempts (pos 1))
        (said path "Accepted fixture must use exactly one accept attempt")
      >> require (is (get expect "store_mutation") "accepted_scan_inserted")
          (said path "accepted scan must insert a record"))
  when (is status "AlreadyAccepted") (
      require (not (ltb_ℤ accept_attempts (pos 2)))
        (said path "AlreadyAccepted fixture must repeat scan_accept")
      >> require (leaves expect "accepted_scan_inserted" 1)
          (said path "AlreadyAccepted fixture must leave exactly one inserted record"))
  when (is status "Rejected")
      (require (leaves expect "none" 0) (said path "rejected scan_accept must not persist records"))

unfoldable pub check_scan_handoff : Fields → Fields → Value → String → Result Message (Unit {0})
check_scan_handoff input_obj expect status path = do
  require
      (has_keys expect
        ("cose_b64" ∷ "store_mutation" ∷ "accepted_record_count" ∷ "handoff_source" ∷ []))
      (said path "scan_handoff missing handoff expectations")
  require (has_key input_obj "trust_anchor_bundle_ref" && has_key input_obj "trust_anchor_id")
      (said path "scan_handoff must use explicit trust anchor bundle and ID")
  require_in (get expect "handoff_source") allowed_handoff_source
      (said path "invalid expected handoff_source")
  require
      (py_eq (get_or input_obj "handoff_source" (str "manual_entry")) (get expect "handoff_source"))
      (said path "handoff source expectation must match input")
  let rejected = is status "Rejected"
  when rejected (
      require (leaves expect "none" 0) (said path "rejected scan_handoff must not persist records"))
  when (not rejected) (
      require (leaves expect "accepted_scan_inserted" 1)
        (said path "accepted scan_handoff must leave exactly one record"))

-- Neither a code to scan nor trust material.
abbrev pub sets_no_scan_input : Fields → Bool
sets_no_scan_input input_obj =
    not (has_key input_obj "qr_string_ref")
    && (not (has_key input_obj "trust_pub_b64_ref")
        && (not (has_key input_obj "trust_pub_b64") && not (has_key input_obj "trust_anchor_id")))

abbrev pub sets_no_scan_expectation : Fields → Bool
sets_no_scan_expectation expect =
    not (has_key expect "cose_b64") && not (has_key expect "store_mutation")

unfoldable pub check_device_lifecycle : Fields → Fields → String → Result Message (Unit {0})
check_device_lifecycle input_obj expect path = do
  require (sets_no_scan_input input_obj) (said path "device_lifecycle must not set scan input")
  require
      (has_keys expect (
        "root_kid" ∷ "active_ak" ∷ "device_ak" ∷ "device_count" ∷ "revoked_count"
        ∷ "accepted_record_count" ∷ "lifecycle_event_count" ∷ []))
      (said path "device_lifecycle missing lifecycle expectations")
  require (sets_no_scan_expectation expect)
      (said path "device_lifecycle must not set scan expectations")

unfoldable pub check_pairing : Fields → Fields → Value → ℤ → String → Result Message (Unit {0})
check_pairing input_obj expect status accept_attempts path = do
  require (sets_no_scan_input input_obj) (said path "pairing must not set scan input")
  require (has_keys expect ("root_kid" ∷ "pairing_id" ∷ "envelope_b64" ∷ "device_count" ∷ []))
      (said path "pairing missing pairing expectations")
  require (not (ltb_ℤ accept_attempts (pos 1)))
      (said path "pairing accept_attempts must be positive")
  when (is status "AlreadyPaired") (
      require (not (ltb_ℤ accept_attempts (pos 2)))
        (said path "AlreadyPaired fixture must repeat accept"))

unfoldable pub check_sync_bundle : Fields → Fields → Value → ℤ → String → Result Message (Unit {0})
check_sync_bundle input_obj expect status import_attempts path = do
  require (has_key input_obj "trust_pub_b64_ref" || has_key input_obj "trust_pub_b64")
      (said path "sync_bundle requires trust material")
  require (not (has_key input_obj "trust_anchor_bundle_ref"))
      (said path "sync_bundle must use direct trust material")
  require
      (has_keys expect
        ("bundle_b64" ∷ "accepted_record_count" ∷ "device_count" ∷ "lifecycle_event_count" ∷ []))
      (said path "sync_bundle missing sync expectations")
  when (is status "AlreadyImported") (
      require (not (ltb_ℤ import_attempts (pos 2)))
        (said path "AlreadyImported fixture must repeat import"))

unfoldable pub check_store_snapshot : Fields → Fields → String → Result Message (Unit {0})
check_store_snapshot input_obj expect path = do
  require (has_key input_obj "trust_pub_b64_ref" || has_key input_obj "trust_pub_b64")
      (said path "store_snapshot requires trust material")
  require (not (has_key input_obj "trust_anchor_bundle_ref"))
      (said path "store_snapshot must use direct trust material")
  require
      (has_keys expect
        ("snapshot_b64" ∷ "accepted_record_count" ∷ "device_count" ∷ "lifecycle_event_count" ∷ []))
      (said path "store_snapshot missing snapshot expectations")
  require (sets_no_scan_expectation expect)
      (said path "store_snapshot must not set scan expectations")

-- One `if workflow == ...` after the other.
unfoldable pub check_kind :
    Value → Fields → Fields → Value → ℤ × ℤ → String → Result Message (Unit {0})
check_kind workflow input_obj expect status tries path = do
  when (is workflow "scan_preview") (check_scan_preview input_obj expect path)
  when (is workflow "scan_accept") (check_scan_accept expect status tries.0 path)
  when (is workflow "scan_handoff") (check_scan_handoff input_obj expect status path)
  when (is workflow "device_lifecycle") (check_device_lifecycle input_obj expect path)
  when (is workflow "pairing") (check_pairing input_obj expect status tries.0 path)
  when (is workflow "sync_bundle") (check_sync_bundle input_obj expect status tries.1 path)
  when (is workflow "store_snapshot") (check_store_snapshot input_obj expect path)
