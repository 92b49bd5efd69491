-- ===== src/Vectors/Runs.antt =====
-- A complete suite of vectors, and the theorems at it.
use grain_protocol.Base.{
  ◌≡◌, refl, String, ◌<>◌, Bool, true, false, List, [], ◌∷◌, all, any, lookup, keys, contains,
  if◌then◌else◌, ok, err, type_error,
}
use grain_protocol.Base.Int.{pos}
use grain_protocol.Base.Text.{
  codes_eq, between, lower, lower_char, has_infix, has_prefix, sorted, insert_text, codes,
}
use grain_protocol.Base64.{decode}
use grain_protocol.Json.{
  Value, bool, int, str, obj, arr, nil, Fields, end, field, get, get_or, has_key, in_set, truthy,
  py_eq, texts,
}
use grain_protocol.Report.{parsed}
use grain_protocol.Vectors.{
  is_b64_field, validate_b64, collect_unsafe_expect_integers, collect_b64_fields, missing_from,
  validate_manifest_record_shape, manifest_problem, check_event_body, validate_ledger_event_shape,
}
use grain_protocol.Vectors.Contents.{
  File, walk_strings, note_id, check_forms, check_selector, placeholder_issue, b64_issues,
  unsafe_issues, check_input,
}
use grain_protocol.Vectors.Files.{
  check_op, check_fields, check_file, check_files, uncovered, has_issues, is_bad, Bad, main,
}
use grain_protocol.Vectors.Names.{
  Unicode, split_dashes, looks_like_wa_id, looks_like_object_id, is_object_path,
}
use grain_protocol.Vectors.Operations.{
  concat, elements_of, check_records, check_buckets, check_manifest, segment_issues, check_stream,
  check_events, check_operation,
}
use grain_protocol.Json.Elements.{is_in}
use grain_protocol.Vectors.Suite.{IsComplete, main-IsComplete, main-raises}
use grain_protocol.Workflows.{file_name, drop_suffix}

abbrev unicode : Unicode
unicode = record {
  is_alnum = λ c. if between b'0' b'9' c then true else between b'A' b'Z' c;
  is_digit = λ c. between b'0' b'9' c;
}

abbrev vector : Value → Value → Value → Bool → Value → Fields
vector vector_id op object_type pass diags = field "vector_id" vector_id (
    field "op" op (
      field "strict" (bool true) (
        field "input" (obj (field "bytes_b64" (str "AAEC") (field "object_type" object_type end)))
          (field "expect" (obj (field "pass" (bool pass) (field "diag_contains" diags end))) end))))

abbrev file : String → Value → Bool → Value → File
file vector_id object_type pass diags = record {
  rel = "conformance/vectors/object/" <> vector_id <> ".json";
  json = parsed (obj (vector (str vector_id) (str "dagcbor_validate") object_type pass diags));
}

abbrev positive : String → String → File
positive vector_id object_type = file vector_id (str object_type) true (arr nil)

abbrev suite : List File
suite =
    positive "POS-OBJ-001" "IngredientRef"
    ∷ positive "POS-OBJ-002" "NutrientProfile"
    ∷ positive "POS-OBJ-003" "CookRun"
    ∷ positive "POS-OBJ-004" "NutritionComputeResult"
    ∷ positive "POS-OBJ-005" "IntakeEvent"
    ∷ positive "POS-OBJ-006" "ServingOffer"
    ∷ positive "POS-OBJ-007" "LedgerGenesis"
    ∷ positive "POS-OBJ-008" "DeviceKeyGrant"
    ∷ positive "POS-OBJ-009" "DeviceKeyRevoke"
    ∷ positive "POS-OBJ-010" "VoidEvent"
    ∷ positive "POS-OBJ-011" "CorrectionEvent"
    ∷ positive "POS-OBJ-012" "LedgerEvent"
    ∷ positive "POS-OBJ-013" "EncryptedObject"
    ∷ positive "POS-OBJ-014" "ManifestRecord"
    ∷ file "NEG-OBJ-097" (int (pos 1)) false (arr (texts ("GRAIN_ERR_SCHEMA" ∷ [])))
    ∷ file "NEG-OBJ-098" (str "Other") false (arr (texts ("GRAIN_ERR_SCHEMA" ∷ [])))
    ∷ file "NEG-OBJ-099" (str "Other") false (arr (texts ("GRAIN_ERR_NONCANONICAL" ∷ [])))
    ∷ []

tools : Unit {0}
unfolding all any lookup keys contains codes_eq lower lower_char has_infix has_prefix sorted
    insert_text decode get get_or has_key in_set truthy py_eq is_b64_field validate_b64
    collect_unsafe_expect_integers collect_b64_fields missing_from validate_manifest_record_shape
    manifest_problem check_event_body validate_ledger_event_shape walk_strings note_id check_forms
    check_selector placeholder_issue b64_issues unsafe_issues check_input check_op check_fields
    check_file check_files uncovered has_issues is_bad main split_dashes looks_like_wa_id
    looks_like_object_id is_object_path concat is_in elements_of check_records check_buckets
    check_manifest segment_issues check_stream check_events check_operation file_name drop_suffix
tools = tt

abbrev suite_runs : (bad : Bad) × (main unicode suite ≡ ok (0, bad))
unfolding tools
suite_runs = (_, refl)

main-IsComplete_example : IsComplete suite
main-IsComplete_example = main-IsComplete unicode suite suite_runs.0 suite_runs.1

abbrev numbered : Fields
numbered = vector (int (pos 7)) (str "cid_derive") (str "IntakeEvent") true (arr nil)

numbered-top : missing_from numbered ("vector_id" ∷ "op" ∷ "strict" ∷ "input" ∷ "expect" ∷ []) ≡ []
unfolding tools
numbered-top = refl

numbered-id : get numbered "vector_id" ≡ int (pos 7)
unfolding tools
numbered-id = refl

main-raises_example :
    main unicode
      (record { rel = "conformance/vectors/cid/7.json"; json = parsed (obj numbered) } ∷ suite)
    ≡ err type_error
main-raises_example =
    main-raises unicode "conformance/vectors/cid/7.json" numbered (pos 7) suite numbered-top
      numbered-id

-- The second of two files with one identity is reported, and a wave needs four digits.
twice : (bad : Bad) × (main unicode (positive "POS-OBJ-001" "CookRun" ∷ suite) ≡ ok (1, bad))
unfolding tools
twice = (_, refl)

forms :
    (looks_like_wa_id unicode (codes "NEG-LED-WA-0002") ≡ true)
    × (looks_like_wa_id unicode (codes "NEG-LED-WA-002") ≡ false)
unfolding tools
forms = (refl, refl)
