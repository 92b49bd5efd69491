-- ===== src/Vectors/Files.antt =====
-- `main` of tools/validate_vectors.py: the checks of one file, and the loop over the files. A file that
-- is listed is there.
use grain_protocol.Base.{
  ℕ, String, Bool, true, false, not, ◌||◌, Option, none, some, List, [], ◌∷◌, lookup, contains,
  if◌then◌else◌, Result, ok, err, type_error, decode_error, ◌>>=◌,
}
use grain_protocol.Base.Text.{codes, sorted}
use grain_protocol.Json.{Value, str, obj, arr, Fields, get, is_true}
use grain_protocol.Report.{JsonFile, missing, malformed, parsed}
use grain_protocol.Vectors.{missing_from}
use grain_protocol.Vectors.Contents.{
  required_top, required_input_by_op, typed_object_types, invalid_selector_ids, Seen, File, note_id,
  is_named, check_forms, check_input,
}
use grain_protocol.Vectors.Names.{Unicode, is_object_path}
use grain_protocol.Vectors.Operations.{
  Issue, told, missing_top, not_named, unknown_op, Failure, issue_if, concat, fields_or,
}
use grain_protocol.Workflows.{stem}

-- An identity that is no text raises here at the latest: a list or an object has no hash.
abbrev pub check_named :
    Bool
    → Value
    → String
    → Fields
    → Fields
    → List String
    → Seen
    → Result Failure (Seen × List Issue)
check_named is_object_vector (str vector_id) op fs input required seen =
    check_input is_object_vector vector_id op fs input required seen
check_named is_object_vector v op fs input required seen = err type_error

abbrev pub check_known :
    Bool
    → String
    → Fields
    → Option (List String)
    → Value
    → Seen
    → Result Failure (Seen × List Issue)
check_known is_object_vector op fs none input seen = ok (seen, unknown_op (str op) ∷ [])
check_known is_object_vector op fs (some required) (obj input) seen =
    check_named is_object_vector (get fs "vector_id") op fs input required seen
check_known is_object_vector op fs (some required) input seen =
    ok (seen, told "input must be object" ∷ [])

-- `op not in known_ops`: a list or an object in its place has no hash.
unfoldable pub check_op : Bool → Value → Fields → Seen → Result Failure (Seen × List Issue)
unfolding lookup
check_op is_object_vector (str op) fs seen =
    check_known is_object_vector op fs (lookup op required_input_by_op) (get fs "input") seen
check_op is_object_vector (arr vs) fs seen = err type_error
check_op is_object_vector (obj gs) fs seen = err type_error
check_op is_object_vector op fs seen = ok (seen, unknown_op op ∷ [])

module _ (unicode : Unicode) where
  unfoldable pub check_fields : String → Fields → Seen → Result Failure (Seen × List Issue)
  check_fields rel fs seen = do
    let is_object_vector = is_object_path (codes rel)
    let vector_id = get fs "vector_id"
    let (noted, of_id) = note_id rel vector_id seen
    forms ← check_forms unicode is_object_vector vector_id
    (seen', rest) ← check_op is_object_vector (get fs "op") fs noted
    ok (
      seen',
      concat (
          of_id
          ∷ issue_if (not (is_named vector_id (stem rel))) (not_named (stem rel))
          ∷ forms
          ∷ issue_if (not (is_true (get fs "strict"))) (told "strict must be true for v0.1 vectors")
          ∷ rest
          ∷ []),
    )

  abbrev pub check_top : String → Fields → List String → Seen → Result Failure (Seen × List Issue)
  check_top rel fs [] seen = check_fields rel fs seen
  check_top rel fs (k ∷ lacking) seen = ok (seen, missing_top (sorted (k ∷ lacking)) ∷ [])

  abbrev pub check_json : String → JsonFile → Seen → Result Failure (Seen × List Issue)
  check_json rel missing seen = err decode_error
  check_json rel malformed seen = err decode_error
  check_json rel (parsed v) seen =
      fields_or v >>= λ fs. check_top rel fs (missing_from fs required_top) seen

  unfoldable pub check_file : File → Seen → Result Failure (Seen × List Issue)
  check_file file seen = check_json file.rel file.json seen

  -- The loop over the files, in their order; an issue stands beside its file.
  unfoldable pub check_files : List File → Seen → Result Failure (Seen × List (String × List Issue))
  check_files [] seen = ok (seen, [])
  check_files (file ∷ files) seen = do
    (next, here) ← check_file file seen
    (last, rest) ← check_files files next
    ok (last, (file.rel, here) ∷ rest)

-- `sorted(expected - seen)`.
unfoldable pub uncovered : List String → List String → List String
unfolding contains
uncovered seen [] = []
uncovered seen (name ∷ names) =
    let rest = uncovered seen names in if contains seen name then rest else name ∷ rest

-- What is reported: the issues of the files, the types without a positive vector, and the selectors
-- without a vector.
pub record Bad : Type 0 where
  pub files : List (String × List Issue)
  pub types : List String
  pub selectors : List String

abbrev pub is_nil {ℓ} : {A : Type ℓ} → List A → Bool
is_nil [] = true
is_nil (x ∷ xs) = false

unfoldable pub has_issues : List (String × List Issue) → Bool
has_issues [] = false
has_issues ((rel, issues) ∷ rows) = not (is_nil issues) || has_issues rows

unfoldable pub is_bad : Bad → Bool
is_bad bad = has_issues bad.files || (not (is_nil bad.types) || not (is_nil bad.selectors))

abbrev pub nothing_seen : Seen
nothing_seen = record { ids = []; positive = []; selectors = [] }

-- `main`, with the files in their order: the exit status, and what is printed.
unfoldable pub main : Unicode → List File → Result Failure (ℕ × Bad)
main unicode files = do
  (seen, rows) ← check_files unicode files nothing_seen
  let bad : Bad = record {
    files = rows;
    types = sorted (uncovered seen.positive typed_object_types);
    selectors = sorted (uncovered seen.selectors invalid_selector_ids);
  }
  ok (if is_bad bad then 1 else 0, bad)
