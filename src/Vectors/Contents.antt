-- ===== src/Vectors/Contents.antt =====
-- What `main` of tools/validate_vectors.py asks of a vector, with what is known of the vectors before it.
use grain_protocol.Base.{
  ℕ, ◌==◌, String, str_eq, Bool, true, false, not, ◌&&◌, Option, none, some, List, [], ◌∷◌, ◌++◌,
  lookup, contains, length, if◌then◌else◌, Result, ok, err, attribute_error, ◌>>=◌, any,
}
use grain_protocol.Base.Int.{ℤ}
use grain_protocol.Base.Text.{codes, codes_eq, has_prefix, has_infix, lower, sorted}
use grain_protocol.Json.{
  Value, null, str, obj, arr, nil, cons, Items, Fields, end, field, fields, get, get_or, is_true,
  is_false,
}
use grain_protocol.Report.{Detail, text, JsonFile}
use grain_protocol.Vectors.{
  missing_from, collect_b64_fields, validate_b64, collect_unsafe_expect_integers,
}
use grain_protocol.Vectors.Names.{Unicode, looks_like_wa_id, looks_like_object_id}
use grain_protocol.Vectors.Operations.{
  Issue, told, missing_input, also_used_by, unknown_type, not_rejected_with, placeholder,
  invalid_b64, unsafe_integer, Failure, issue_if, concat, expect_of, check_operation,
}
use grain_protocol.Json.Elements.{is_in}

abbrev pub required_top : List String
required_top = "vector_id" ∷ "op" ∷ "strict" ∷ "input" ∷ "expect" ∷ []

abbrev pub required_input_by_op : List (String × List String)
required_input_by_op =
    ("dagcbor_validate", "bytes_b64" ∷ [])
    ∷ ("cid_derive", "bytes_b64" ∷ [])
    ∷ ("cose_verify", "cose_b64" ∷ "pub_b64" ∷ "external_aad_b64" ∷ [])
    ∷ ("qr_decode_gr1", "qr_string" ∷ [])
    ∷ ("e2e_decrypt", "encrypted_object_b64" ∷ "sync_secret_b64" ∷ "cid_link_b64" ∷ [])
    ∷ ("e2e_derive_v1", "sync_secret_b64" ∷ "cap_id_b64" ∷ "cid_link_bstr_b64" ∷ [])
    ∷ ("parse_cborseq_stream_v1", "stream_kind" ∷ [])
    ∷ ("manifest_resolve", "cid_b64" ∷ "eligible_records" ∷ "eligible_tombstones" ∷ [])
    ∷ ("ledger_reduce", "root_kid" ∷ "events" ∷ [])
    ∷ []

abbrev pub typed_object_types : List String
typed_object_types =
    "IngredientRef" ∷ "NutrientProfile" ∷ "CookRun" ∷ "NutritionComputeResult" ∷ "IntakeEvent"
    ∷ "ServingOffer" ∷ "LedgerGenesis" ∷ "DeviceKeyGrant" ∷ "DeviceKeyRevoke" ∷ "VoidEvent"
    ∷ "CorrectionEvent" ∷ "LedgerEvent" ∷ "EncryptedObject" ∷ "ManifestRecord" ∷ []

abbrev pub invalid_selector_diags : List (String × String)
invalid_selector_diags =
    ("NEG-OBJ-097", "GRAIN_ERR_SCHEMA")
    ∷ ("NEG-OBJ-098", "GRAIN_ERR_SCHEMA")
    ∷ ("NEG-OBJ-099", "GRAIN_ERR_NONCANONICAL")
    ∷ []

abbrev pub invalid_selector_ids : List String
invalid_selector_ids = "NEG-OBJ-097" ∷ "NEG-OBJ-098" ∷ "NEG-OBJ-099" ∷ []

abbrev pub placeholder_tokens : List String
placeholder_tokens = "placeholder" ∷ "illustrative" ∷ "next phase" ∷ []

unfoldable mutual
  pub walk_strings : Value → List String
  walk_strings (str s) = s ∷ []
  walk_strings (obj fs) = strings_in_fields fs
  walk_strings (arr vs) = strings_in_items vs
  walk_strings _ = []

  pub strings_in_fields : Fields → List String
  strings_in_fields end = []
  strings_in_fields (field k v fs) = walk_strings v ++ strings_in_fields fs

  pub strings_in_items : Items → List String
  strings_in_items nil = []
  strings_in_items (cons v vs) = walk_strings v ++ strings_in_items vs

-- What the files before have left: their identities with their paths, the types of the positive
-- vectors, and the vectors of invalid selectors.
pub record Seen : Type 0 where
  pub ids : List (String × String)
  pub positive : List String
  pub selectors : List String

pub record File : Type 0 where
  pub rel : String
  pub json : JsonFile

-- A vector's identity is noted when it is a text that no vector before has.
abbrev pub note_text : Option String → String → String → Seen → Seen × List Issue
note_text none rel vector_id seen = (
  record {
    ids = (vector_id, rel) ∷ seen.ids;
    positive = seen.positive;
    selectors = seen.selectors;
  },
  [],
)
note_text (some previous) rel vector_id seen = (seen, also_used_by previous ∷ [])

unfoldable pub note_id : String → Value → Seen → Seen × List Issue
note_id rel (str vector_id) seen = note_text (lookup vector_id seen.ids) rel vector_id seen
note_id rel v seen = (seen, told "vector_id must be string" ∷ [])

abbrev pub is_named : Value → List ℕ → Bool
is_named (str s) name = codes_eq (codes s) name
is_named v name = false

-- `not test(vector_id)`: what is no text has no `split`.
abbrev pub form_issue : (List ℕ → Bool) → Value → String → Result Failure (List Issue)
form_issue test (str s) message = ok (issue_if (not (test (codes s))) (told message))
form_issue test v message = err attribute_error

module _ (unicode : Unicode) where
  unfoldable pub check_forms : Bool → Value → Result Failure (List Issue)
  check_forms is_object_vector vector_id = do
    has_wave ← is_in "-WA-" vector_id
    wave ←
        if has_wave
        then form_issue (looks_like_wa_id unicode) vector_id
            "Wave-A vector_id must match POS/NEG-<AREA>-WA-####"
        else ok []
    object ←
        if is_object_vector
        then form_issue (looks_like_object_id unicode) vector_id
            "typed-object vector_id must match POS/NEG-OBJ-###"
        else ok []
    ok (wave ++ object)

abbrev pub note_selector : String → Seen → Seen
note_selector vector_id seen = record {
  ids = seen.ids;
  positive = seen.positive;
  selectors = vector_id ∷ seen.selectors;
}

abbrev pub note_positive : String → Seen → Seen
note_positive object_type seen = record {
  ids = seen.ids;
  positive = object_type ∷ seen.positive;
  selectors = seen.selectors;
}

-- The branches of the selector `object_type` of an object's vector: one that is not valid is noted in
-- the vectors that are there for it, and reported in others; a valid one of a positive vector is noted.
abbrev pub noted_or : Bool → String → Issue → Seen → Result Failure (Seen × List Issue)
noted_or true vector_id issue seen = ok (note_selector vector_id seen, [])
noted_or false vector_id issue seen = ok (seen, issue ∷ [])

abbrev pub positive_or : Bool → String → Seen → Seen × List Issue
positive_or true object_type seen = (note_positive object_type seen, [])
positive_or false object_type seen =
    (seen, told "positive typed-object vector must set expect.pass to true" ∷ [])

abbrev pub check_positive : Bool → String → Fields → Seen → Result Failure (Seen × List Issue)
check_positive true object_type fs seen =
    expect_of fs >>= λ expect. ok (positive_or (is_true (get expect "pass")) object_type seen)
check_positive false object_type fs seen = ok (seen, [])

abbrev pub check_text_selector :
    Bool → Bool → String → String → Fields → Seen → Result Failure (Seen × List Issue)
check_text_selector false is_object_vector vector_id object_type fs seen =
    noted_or (is_object_vector && contains ("NEG-OBJ-098" ∷ "NEG-OBJ-099" ∷ []) vector_id) vector_id
      (unknown_type object_type) seen
check_text_selector true is_object_vector vector_id object_type fs seen =
    check_positive (is_object_vector && has_prefix (codes vector_id) (codes "POS-OBJ-")) object_type
      fs seen

unfoldable pub check_selector :
    Bool → String → Value → Fields → Seen → Result Failure (Seen × List Issue)
unfolding contains
check_selector is_object_vector vector_id (str object_type) fs seen =
    check_text_selector (contains typed_object_types object_type) is_object_vector vector_id
      object_type fs seen
check_selector is_object_vector vector_id v fs seen =
    noted_or (is_object_vector && str_eq vector_id "NEG-OBJ-097") vector_id
      (told "object_type must be string except in NEG-OBJ-097") seen

abbrev pub select_for :
    Bool → Bool → String → Value → Fields → Seen → Result Failure (Seen × List Issue)
select_for true is_object_vector vector_id object_type fs seen =
    check_selector is_object_vector vector_id object_type fs seen
select_for false is_object_vector vector_id object_type fs seen =
    ok (seen, told "object_type is only valid for dagcbor_validate" ∷ [])

abbrev pub check_object_type :
    Bool → String → String → Option Value → Fields → Seen → Result Failure (Seen × List Issue)
check_object_type is_object_vector vector_id op none fs seen =
    ok
      (seen, issue_if is_object_vector (told "typed-object vectors must include input.object_type"))
check_object_type is_object_vector vector_id op (some object_type) fs seen =
    select_for (str_eq op "dagcbor_validate") is_object_vector vector_id object_type fs seen

-- A vector of an invalid selector must reject with its code.
abbrev pub check_boundary : Option String → Fields → Result Failure (List Issue)
check_boundary none fs = ok []
check_boundary (some diag) fs = do
  expect ← expect_of fs
  rejected ←
      if is_false (get expect "pass")
      then is_in diag (get_or expect "diag_contains" (arr nil))
      else ok false
  ok (issue_if (not rejected) (not_rejected_with diag))

unfoldable pub placeholder_issue : List String → List Issue
placeholder_issue [] = []
placeholder_issue (s ∷ strings) =
    let rest = placeholder_issue strings in
    if any (λ token. has_infix (lower (codes s)) (codes token)) placeholder_tokens
    then placeholder s ∷ []
    else rest

unfoldable pub b64_issues : List (Detail × String) → List Issue
b64_issues [] = []
b64_issues ((path, s) ∷ rows) =
    issue_if (not (validate_b64 s)) (invalid_b64 path) ++ b64_issues rows

unfoldable pub unsafe_issues : List (Detail × ℤ) → List Issue
unsafe_issues [] = []
unsafe_issues ((path, n) ∷ rows) = unsafe_integer path n ∷ unsafe_issues rows

abbrev pub none_or : Value → Detail → List (Detail × ℤ)
none_or null path = []
none_or v path = collect_unsafe_expect_integers v path

-- What follows once the operation is known and the input is an object.
unfoldable pub check_input :
    Bool
    → String
    → String
    → Fields
    → Fields
    → List String
    → Seen
    → Result Failure (Seen × List Issue)
unfolding lookup
check_input is_object_vector vector_id op fs input required seen = do
  let lacking = missing_from input required
  (seen', typed) ←
      check_object_type is_object_vector vector_id op (lookup "object_type" (fields input)) fs seen
  boundary ← check_boundary (lookup vector_id invalid_selector_diags) fs
  expect ← expect_of fs
  operation ← check_operation op input expect
  ok (
    seen',
    concat (
        issue_if (not (length lacking == 0)) (missing_input (sorted lacking))
        ∷ typed
        ∷ issue_if (is_object_vector && not (str_eq op "dagcbor_validate"))
            (told "typed-object vectors must use dagcbor_validate")
        ∷ boundary
        ∷ placeholder_issue (walk_strings (obj fs))
        ∷ b64_issues (collect_b64_fields (obj fs) (text ""))
        ∷ unsafe_issues (none_or (get expect "out") (text "expect.out"))
        ∷ unsafe_issues (none_or (get expect "out_equals") (text "expect.out_equals"))
        ∷ operation
        ∷ []),
  )
