-- ===== src/Workflows/Input.antt =====
-- The `input` object of a workflow fixture.
use grain_protocol.Base.{
  String, Bool, true, false, not, ◌&&◌, List, [], ◌∷◌, contains, keys, all, Result, ok, err, exit,
  require, ◌>>=◌, ◌>>◌,
}
use grain_protocol.Base.Int.{ℤ, pos, ltb_ℤ}
use grain_protocol.Json.{Value, int, Fields, fields, get, has_key, is_str, in_set}
use grain_protocol.Workflows.References.{
  Message, said, said_key, Repo, resolve_ref, resolve_trust_anchor_bundle_ref,
}

abbrev pub allowed_input : List String
allowed_input =
    "qr_string_ref" ∷ "trust_pub_b64_ref" ∷ "trust_pub_b64" ∷ "trust_anchor_id"
    ∷ "trust_anchor_bundle_ref" ∷ "accept_attempts" ∷ "import_attempts" ∷ "root_label"
    ∷ "device_label" ∷ "handoff_source" ∷ []

abbrev pub allowed_handoff_source : List String
allowed_handoff_source =
    "manual_entry" ∷ "camera" ∷ "injected" ∷ "share_sheet" ∷ "deep_link" ∷ "clipboard"
    ∷ "robot_vision" ∷ "external_sensor" ∷ "unknown" ∷ []

abbrev pub qr_workflows : List String
qr_workflows = "scan_preview" ∷ "scan_accept" ∷ "sync_bundle" ∷ "store_snapshot" ∷ []

-- `if condition: step`.
abbrev pub when : Bool → Result Message (Unit {0}) → Result Message (Unit {0})
when true step = step
when false step = ok tt

-- `set(d).issubset(names)`, and `{...}.issubset(d)`.
unfoldable pub is_subset : Fields → List String → Bool
is_subset fs names = all (contains names) (keys (fields fs))

unfoldable pub has_keys : Fields → List String → Bool
has_keys fs names = all (has_key fs) names

-- `require(v in names, message)` for a set of names.
unfoldable pub require_in : Value → List String → Message → Result Message (Unit {0})
require_in v names message = do found ← in_set v names; require found message

-- The trust material may be given in one way only.
unfoldable pub check_trust_keys : Fields → String → Result Message (Unit {0})
check_trust_keys fs path = do
  require (not (has_key fs "trust_pub_b64_ref" && has_key fs "trust_pub_b64"))
      (said path "trust_pub_b64_ref and trust_pub_b64 are mutually exclusive")
  require (not (has_key fs "trust_anchor_bundle_ref" && has_key fs "trust_pub_b64_ref"))
      (said path "trust_anchor_bundle_ref and trust_pub_b64_ref are mutually exclusive")
  require (not (has_key fs "trust_anchor_bundle_ref" && has_key fs "trust_pub_b64"))
      (said path "trust_anchor_bundle_ref and trust_pub_b64 are mutually exclusive")

-- `if key in d: require(isinstance(d[key], str), ...)`.
unfoldable pub check_string : Fields → String → String → Result Message (Unit {0})
check_string fs path key =
    when (has_key fs key) (require (is_str (get fs key)) (said_key path "must be a string" key))

unfoldable pub check_references : Repo → Fields → String → Result Message (Unit {0})
check_references repo fs path = do
  when (has_key fs "qr_string_ref") (resolve_ref repo (get fs "qr_string_ref") path >> ok tt)
  when (has_key fs "trust_pub_b64_ref")
      (resolve_ref repo (get fs "trust_pub_b64_ref") path >> ok tt)
  check_string fs path "trust_pub_b64"
  check_string fs path "trust_anchor_id"
  when (has_key fs "trust_anchor_bundle_ref") (
      require (has_key fs "trust_anchor_id")
        (said path "trust_anchor_bundle_ref requires trust_anchor_id")
      >> (resolve_trust_anchor_bundle_ref repo (get fs "trust_anchor_bundle_ref") path >> ok tt))

-- `d.get(key, 1)`, which has to be a positive integer when it is there.
unfoldable pub attempts : Fields → String → String → Result Message ℤ
attempts fs path key = elim (has_key fs key) [
  | false ↦ ok (pos 1)
  | true ↦ elim (get fs key) [
    | int n ↦
        require (not (ltb_ℤ n (pos 1))) (said_key path "must be a positive integer" key) >> ok n
    | _ ↦ err (exit (said_key path "must be a positive integer" key))
  ]
]

-- The checks of the input, which return the attempts to accept and to import.
unfoldable pub check_input : Repo → Fields → Value → String → Result Message (ℤ × ℤ)
check_input repo fs workflow path = do
  require (is_subset fs allowed_input) (said path "unexpected input keys")
  check_trust_keys fs path
  wants_qr ← in_set workflow qr_workflows
  when wants_qr (require (has_key fs "qr_string_ref") (said path "qr_string_ref is required"))
  check_references repo fs path
  accept_attempts ← attempts fs path "accept_attempts"
  import_attempts ← attempts fs path "import_attempts"
  check_string fs path "root_label"
  check_string fs path "device_label"
  when (has_key fs "handoff_source") (
      require_in (get fs "handoff_source") allowed_handoff_source
        (said path "invalid handoff_source"))
  ok (accept_attempts, import_attempts)
