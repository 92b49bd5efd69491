-- ===== src/Vectors/Tests.antt =====
-- Runs of the shape checks and of the walks, and the theorems at concrete data.
use grain_protocol.Base.{
  ◌≡◌, refl, ◌↔◌, true, false, [], ◌∷◌, contains, keys, lookup, all, none, some, ok,
}
use grain_protocol.Base.Int.{ℤ, pos}
use grain_protocol.Base.Text.{has_prefix, insert_text, sorted}
use grain_protocol.Base64.{decode}
use grain_protocol.Json.{
  Value, int, str, arr, obj, nil, cons, end, field, Fields, get, has_key, in_set, py_eq,
}
use grain_protocol.Report.{Detail, text, at, plus}
use grain_protocol.Vectors.{
  said, missing_keys, is_b64_field, validate_b64, is_unsafe, collect_unsafe_expect_integers,
  collect_b64_fields, has_valid_b64, manifest_problem, validate_manifest_record_shape, missing_from,
  check_event_body, validate_ledger_event_shape,
}
use grain_protocol.Vectors.Walks.{IsSafe, collect_unsafe_expect_integers-eq-nil_iff}
use grain_protocol.Vectors.Shapes.{
  IsRecord, validate_manifest_record_shape_iff, IsEvent, validate_ledger_event_shape_iff,
}

abbrev put : Fields
put = field "op" (str "put") (field "cap_id_b64" (str "AA==") (field "chash_b64" (str "AAE=") end))

abbrev event : Fields
event = field "t" (str "DeviceKeyGrant") (
    field "ak" (str "k") (
      field "seq" (int (pos 1))
        (field "payload_cid" (str "c") (field "body" (obj (field "grant_ak" (str "k2") end)) end))))

abbrev sums : Value
sums = obj (
    field "sums" (arr (cons (int (pos 9007199254740991)) (cons (int (pos 9007199254740992)) nil)))
      end)

tools : Unit {0}
unfolding contains keys lookup all has_prefix insert_text sorted decode get has_key in_set py_eq
    is_b64_field validate_b64 is_unsafe collect_unsafe_expect_integers collect_b64_fields
    has_valid_b64 manifest_problem validate_manifest_record_shape missing_from check_event_body
    validate_ledger_event_shape
tools = tt

shape_runs :
    (validate_manifest_record_shape put ≡ ok none)
    × (validate_manifest_record_shape (field "op" (str "put") end)
        ≡ ok (some (said "manifest put record must include cap_id_b64 and chash_b64")))
    × (validate_ledger_event_shape event ≡ none)
    × (validate_ledger_event_shape (field "t" (str "IntakeEvent") end)
        ≡ some (missing_keys ("ak" ∷ "body" ∷ "payload_cid" ∷ "seq" ∷ [])))
unfolding tools
shape_runs = (refl, refl, refl, refl)

abbrev unsafe_row : Detail × ℤ
unsafe_row = (at (plus (plus (text "expect.out") ".") "sums") 1, pos 9007199254740992)

walk_runs :
    (collect_unsafe_expect_integers sums (text "expect.out") ≡ unsafe_row ∷ [])
    × (has_valid_b64 (obj put) ≡ true)
    × (has_valid_b64 (obj (field "bytes_b64" (str "AA=A") end)) ≡ false)
unfolding tools
walk_runs = (refl, refl, refl)

validate_manifest_record_shape_iff_example :
    (validate_manifest_record_shape put ≡ ok none) ↔ IsRecord put
validate_manifest_record_shape_iff_example = validate_manifest_record_shape_iff put

validate_ledger_event_shape_iff_example : (validate_ledger_event_shape event ≡ none) ↔ IsEvent event
validate_ledger_event_shape_iff_example = validate_ledger_event_shape_iff event

collect_unsafe_expect_integers-eq-nil_iff_example :
    (collect_unsafe_expect_integers sums (text "expect.out") ≡ []) ↔ IsSafe sums
collect_unsafe_expect_integers-eq-nil_iff_example =
    collect_unsafe_expect_integers-eq-nil_iff sums (text "expect.out")
