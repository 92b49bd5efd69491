-- ===== src/Vectors/Operations.antt =====
-- The rules of tools/validate_vectors.py for the inputs of three operations.
use grain_protocol.Base.{
  ℕ, suc, String, str_eq, Bool, true, false, not, ◌&&◌, Option, none, some, List, [], ◌∷◌, ◌++◌,
  keys, if◌then◌else◌, Result, ok, err, attribute_error, type_error, ◌>>=◌,
}
use grain_protocol.Base.Int.{ℤ}
use grain_protocol.Json.Elements.{is_in, chars_of, names_of}
use grain_protocol.Json.{
  Value, str, obj, arr, nil, Fields, end, fields, items, get, get_or, has_key, in_set, is_list,
  is_str, truthy,
}
use grain_protocol.Report.{Detail}
use grain_protocol.Vectors.{Problem, validate_manifest_record_shape, validate_ledger_event_shape}

-- What is reported of a file.
pub data Issue : Type 0 where
  told : String → Issue
  missing_top missing_input : List String → Issue
  also_used_by : String → Issue
  not_named : List ℕ → Issue
  unknown_op : Value → Issue
  unknown_type : String → Issue
  not_rejected_with : String → Issue
  placeholder : String → Issue
  invalid_b64 : Detail → Issue
  unsafe_integer : Detail → ℤ → Issue
  about_key : String → String → Issue
  about_item : String → ℕ → Issue
  of_item : String → ℕ → Problem → Issue

-- What a check raises is never one of its own exceptions.
pub data Failure : Type 0 where

abbrev pub issue_if : Bool → Issue → List Issue
issue_if true i = i ∷ []
issue_if false i = []

-- The issues of several checks, one after the other.
unfoldable pub concat : List (List Issue) → List Issue
concat [] = []
concat (issues ∷ rest) = issues ++ concat rest

-- `obj.get("expect", {})`, on which `get` is called.
abbrev pub fields_or : Value → Result Failure Fields
fields_or (obj fs) = ok fs
fields_or _ = err attribute_error

abbrev pub expect_of : Fields → Result Failure Fields
expect_of fs = fields_or (get_or fs "expect" (obj end))

unfoldable pub elements_of : Value → Result Failure (List Value)
elements_of (arr vs) = ok (items vs)
elements_of (obj fs) = ok (names_of (keys (fields fs)))
elements_of (str s) = ok (chars_of s)
elements_of _ = err type_error

abbrev pub problem_at : String → ℕ → Option Problem → List Issue
problem_at bucket i none = []
problem_at bucket i (some problem) = of_item bucket i problem ∷ []

-- A shape check names a type of errors, of which it has none of its own.
abbrev pub shape_or_raise : Result Problem (Option Problem) → Result Failure (Option Problem)
shape_or_raise (ok problem) = ok problem
shape_or_raise (err e) = err type_error

-- The loop over the records of a bucket.
abbrev pub check_record : Bool → String → ℕ → Value → Result Failure (List Issue)
check_record true bucket i (obj rec) = ok []
check_record false bucket i (obj rec) = do
  problem ← shape_or_raise (validate_manifest_record_shape rec)
  ok (problem_at bucket i problem)
check_record allowed bucket i rec = ok (about_item bucket i ∷ [])

unfoldable pub check_records : Bool → String → ℕ → List Value → Result Failure (List Issue)
check_records allowed bucket i [] = ok []
check_records allowed bucket i (rec ∷ records) = do
  here ← check_record allowed bucket i rec
  rest ← check_records allowed bucket (suc i) records
  ok (here ++ rest)

unfoldable pub check_buckets : Bool → Fields → List String → Result Failure (List Issue)
check_buckets allowed input [] = ok []
check_buckets allowed input (bucket ∷ buckets) = do
  records ← elements_of (get_or input bucket (arr nil))
  here ← check_records allowed bucket 0 records
  rest ← check_buckets allowed input buckets
  ok (here ++ rest)

abbrev pub must_be_array : Fields → String → List Issue
must_be_array input key = issue_if (not (is_list (get input key))) (about_key key "must be array")

abbrev pub may_be_array : Fields → String → List Issue
may_be_array input key =
    issue_if (has_key input key && not (is_list (get input key)))
      (about_key key "must be array when present")

-- `(not expect_pass) and (code in expected_diags)`.
abbrev pub rejects_with : Fields → String → Result Failure Bool
rejects_with expect code =
    if truthy (get expect "pass")
    then ok false
    else is_in code (get_or expect "diag_contains" (arr nil))

unfoldable pub check_manifest : Fields → Fields → Result Failure (List Issue)
check_manifest input expect = do
  allowed ← rejects_with expect "GRAIN_ERR_MANIFEST_OP"
  shapes ← check_buckets allowed input (
      "eligible_records" ∷ "ineligible_records" ∷ "eligible_tombstones" ∷ "ineligible_tombstones"
      ∷ [])
  ok (
      must_be_array input "eligible_records"
      ++ (must_be_array input "eligible_tombstones"
          ++ (may_be_array input "ineligible_records"
              ++ (may_be_array input "ineligible_tombstones" ++ shapes))))

-- A stream has one of two kinds, and one of two forms. One violation is allowed where the vector
-- expects to be rejected for its schema.
abbrev pub differ : Bool → Bool → Bool
differ true b = not b
differ false b = b

abbrev pub is_one_violation : Bool → Bool → Bool
is_one_violation kind_valid form_valid = differ kind_valid form_valid

unfoldable pub segment_issues : ℕ → List Value → List Issue
segment_issues i [] = []
segment_issues i (seg ∷ segments) =
    issue_if (not (is_str seg)) (about_item "segments_b64" i) ++ segment_issues (suc i) segments

abbrev pub check_segments : Bool → Value → List Issue
check_segments false v = []
check_segments true (arr vs) = segment_issues 0 (items vs)
check_segments true v = about_key "segments_b64" "must be array" ∷ []

unfoldable pub check_stream : Fields → Fields → Result Failure (List Issue)
check_stream input expect = do
  kind_valid ← in_set (get input "stream_kind") ("ledger" ∷ "manifest" ∷ [])
  rejected ← rejects_with expect "GRAIN_ERR_SCHEMA"
  let form_valid = differ (has_key input "cborseq_b64") (has_key input "segments_b64")
  let allowed = rejected && is_one_violation kind_valid form_valid
  ok (
      issue_if (not allowed && not kind_valid) (told "stream_kind must be 'ledger' or 'manifest'")
      ++ (issue_if (not allowed && not form_valid)
            (told "parse_cborseq_stream_v1 requires exactly one of cborseq_b64 or segments_b64")
          ++ check_segments (has_key input "segments_b64") (get input "segments_b64")))

abbrev pub check_event : ℕ → Value → List Issue
check_event i (obj ev) = problem_at "events" i (validate_ledger_event_shape ev)
check_event i ev = about_item "events" i ∷ []

unfoldable pub check_events : ℕ → List Value → List Issue
check_events i [] = []
check_events i (ev ∷ events) = check_event i ev ++ check_events (suc i) events

abbrev pub events_of : Value → List Issue
events_of (arr events) = check_events 0 (items events)
events_of v = about_key "events" "must be array" ∷ []

-- The rules of an operation. `expect` was read before, where it is read here.
unfoldable pub check_operation : String → Fields → Fields → Result Failure (List Issue)
check_operation op input expect =
    if str_eq op "manifest_resolve"
    then check_manifest input expect
    else if str_eq op "parse_cborseq_stream_v1"
    then check_stream input expect
    else if str_eq op "ledger_reduce"
    then ok (events_of (get input "events"))
    else ok []
