-- ===== src/Workflows.antt =====
-- tools/ci/check_client_workflow_fixtures.py: the fixtures of the client workflows. The checks of
-- references, of the input and of the expectations are in the modules below, what each workflow adds
-- to them in Workflows/Kinds.
pub mod References
pub mod Input
pub mod Expect
pub mod Kinds
pub mod Forms
pub mod Resolve
pub mod Suite
pub mod Coverage
pub mod Scans
pub mod Lifecycle
mod Tests
use grain_protocol.Base.{
  ℕ, ◌==◌, String, str_eq, Bool, true, false, not, ◌&&◌, List, [], ◌∷◌, ◌++◌, contains, keys,
  length, if◌then◌else◌, Result, ok, err, exit, type_error, key_error, require, ◌>>=◌, ◌>>◌,
}
use grain_protocol.Base.Text.{codes, codes_eq, sorted}
use grain_protocol.Json.{Value, str, obj, Fields, fields, get, has_key, is_true}
use References.{
  Message, said, said_key, said_keys, uncovered, no_fixtures, Repo, load_json, has_exactly,
}
use Input.{is_subset, require_in, check_input}
use Expect.{extra_keys, check_expect, check_diag}
use Kinds.{check_kind}

abbrev pub allowed_workflow : List String
allowed_workflow =
    "scan_preview" ∷ "scan_accept" ∷ "scan_handoff" ∷ "device_lifecycle" ∷ "pairing" ∷ "sync_bundle"
    ∷ "store_snapshot" ∷ []

abbrev pub allowed_top_level : List String
allowed_top_level = "fixture_id" ∷ "workflow" ∷ "strict" ∷ "input" ∷ "expect" ∷ "meta" ∷ []

-- `require(isinstance(v, dict), message)`, and likewise for a text.
unfoldable pub as_object : Value → Message → Result Message Fields
as_object (obj fs) message = ok fs
as_object _ message = err (exit message)

unfoldable pub as_text : Value → Message → Result Message String
as_text (str s) message = ok s
as_text _ message = err (exit message)

-- The name after the last slash.
unfoldable pub file_name : List ℕ → List ℕ → List ℕ
file_name name [] = name
file_name name (c ∷ s) = file_name (if c == b'/' then [] else name ++ (c ∷ [])) s

-- A name and its last suffix: what stands before the last dot, unless it stands at an end.
unfoldable pub drop_suffix : List ℕ → List ℕ → List ℕ → List ℕ
drop_suffix whole before [] = whole
drop_suffix whole before (c ∷ []) = whole
drop_suffix whole [] (c ∷ d ∷ s) = drop_suffix whole (c ∷ []) (d ∷ s)
drop_suffix whole (b ∷ before) (c ∷ d ∷ s) =
    let stem = if c == b'.' then b ∷ before else whole in
    drop_suffix stem ((b ∷ before) ++ (c ∷ [])) (d ∷ s)

-- `path.stem`.
abbrev pub stem : String → List ℕ
stem path = let name = file_name [] (codes path) in drop_suffix name [] name

unfoldable pub check_top_level : Fields → String → Result Message (Unit {0})
check_top_level fs path = do
  let missing = extra_keys (keys (fields fs)) allowed_top_level
  let extra = extra_keys allowed_top_level (keys (fields fs))
  require (length missing == 0) (said_keys path "missing top-level keys" (sorted missing))
  require (length extra == 0) (said_keys path "unexpected top-level keys" (sorted extra))
  require (not (has_key fs "vector_id") && not (has_key fs "op"))
      (said path "protocol vector shape leaked")

-- The identity of a fixture, which no fixture before it has.
unfoldable pub check_id : Fields → List String → String → Result Message String
check_id fs seen_ids path = do
  fixture_id ← as_text (get fs "fixture_id") (said path "fixture_id must be a string")
  require (not (contains seen_ids fixture_id)) (said_key path "duplicate fixture_id" fixture_id)
  require (codes_eq (stem path) (codes fixture_id)) (said path "filename must match fixture_id")
  ok fixture_id

unfoldable pub check_meta : Fields → String → Result Message (Unit {0})
check_meta fs path = do
  meta ← as_object (get fs "meta") (said path "meta must be an object")
  require (has_exactly meta ("desc" ∷ [])) (said path "meta must contain only desc")
  desc ← as_text (get meta "desc") (said path "meta.desc must be a string")
  require (not (str_eq desc "")) (said path "meta.desc must be a string")

-- `validate_fixture(path, seen_ids)`, which returns the ids with the fixture's among them.
unfoldable pub validate_fixture : Repo → String → List String → Result Message (List String)
validate_fixture repo path seen_ids = do
  document ← load_json repo path
  fs ← as_object document (said path "fixture must be a JSON object")
  check_top_level fs path
  fixture_id ← check_id fs seen_ids path
  require_in (get fs "workflow") allowed_workflow (said path "invalid workflow")
  require (is_true (get fs "strict")) (said path "strict must be true")
  input_obj ← as_object (get fs "input") (said path "input must be an object")
  tries ← check_input repo input_obj (get fs "workflow") path
  expect ← as_object (get fs "expect") (said path "expect must be an object")
  status ← check_expect expect (get fs "workflow") path
  check_kind (get fs "workflow") input_obj expect status tries path
  check_diag expect path
  check_meta fs path
  ok (fixture_id ∷ seen_ids)

-- `load_json(path)["workflow"]`, added to a set.
unfoldable pub workflow_of : Repo → String → Result Message String
workflow_of repo path = do
  document ← load_json repo path
  elim document [
    | obj fs ↦ elim (get fs "workflow") [ str s ↦ ok s | _ ↦ err type_error ]
    | _ ↦ err type_error
  ]

-- The loop over the fixtures.
unfoldable pub validate_fixtures :
    Repo → List String → List String → List String → Result Message (List String × List String)
validate_fixtures repo seen_ids seen_workflows [] = ok (seen_ids, seen_workflows)
validate_fixtures repo seen_ids seen_workflows (path ∷ paths) = do
  ids ← validate_fixture repo path seen_ids
  workflow ← workflow_of repo path
  validate_fixtures repo ids (workflow ∷ seen_workflows) paths

-- `main`, on the sorted paths below the fixtures' root; it returns how many there are.
unfoldable pub main : Repo → List String → Result Message ℕ
main repo paths = do
  require (not (length paths == 0)) no_fixtures
  seen ← validate_fixtures repo [] [] paths
  let missing = extra_keys seen.1 allowed_workflow
  require (length missing == 0) (uncovered (sorted missing))
  ok (length paths)
