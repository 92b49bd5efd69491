-- ===== src/CiScope.antt =====
-- tools/ci/classify_ci_scope.py: whether a CI event needs the full verification graph.
-- The response that lists the changed files is a JSON value, `null` where no file was given.
pub mod Rows
pub mod Safe
mod Tests
use grain_protocol.Base.{
  ℕ, zero, suc, ◌==◌, String, str_eq, starts_with, Bool, true, false, not, ◌&&◌, Option, none, some,
  List, [], ◌∷◌, ◌++◌, contains, any, if◌then◌else◌, Result, ok, err, value_error, ◌>>=◌,
}
use grain_protocol.Base.Int.{ℤ, pos, eqb_ℤ}
use grain_protocol.Json.{Value, null, str, arr, obj, items, get}

pub data Message : Type 0 where
  invalid_files_response invalid_filename invalid_previous_filename no_changed_files : Message
  file_count_mismatch : ℤ → ℕ → Message
  unsupported_event : String → Message

abbrev pub safe_prefixes : List String
safe_prefixes = "adr/" ∷ "docs/" ∷ ".github/ISSUE_TEMPLATE/" ∷ []

abbrev pub safe_files : List String
safe_files =
    ".github/CODEOWNERS" ∷ ".github/dependabot.yml" ∷ ".github/pull_request_template.md"
    ∷ "CHANGELOG.md" ∷ "CODE_OF_CONDUCT.md" ∷ "CONTRIBUTING.md" ∷ "GOVERNANCE.md" ∷ "LICENSE"
    ∷ "MIGRATION.md" ∷ "README.md" ∷ "SECURITY.md" ∷ "TRADEMARKS.md" ∷ []

-- `isinstance(v, str) and v`.
abbrev pub non_empty : Value → Option String
non_empty (str s) = if str_eq s "" then none else some s
non_empty _ = none

abbrev name_or : Message → Option String → Result Message String
name_or m none = err (value_error m)
name_or m (some s) = ok s

-- The name that a renamed file had, if the item tells one.
abbrev pub previous_names : Value → Result Message (List String)
previous_names null = ok []
previous_names v = do s ← name_or invalid_previous_filename (non_empty v); ok (s ∷ [])

-- One item of a page; only an object has a name.
unfoldable pub item_filenames : Value → Result Message (List String)
item_filenames (obj item) = do
  filename ← name_or invalid_filename (non_empty (get item "filename"))
  previous ← previous_names (get item "previous_filename")
  ok (filename ∷ previous)
item_filenames _ = err (value_error invalid_filename)

-- The names and the number of rows that the loops have seen.
pub record Seen : Type 0 where
  pub filenames : List String
  pub row_count : ℕ

unfoldable pub scan_page : Seen → List Value → Result Message Seen
scan_page seen [] = ok seen
scan_page seen (item ∷ page) = do
  names ← item_filenames item
  scan_page (record { filenames = seen.filenames ++ names; row_count = suc seen.row_count }) page

unfoldable pub scan_pages : Seen → List Value → Result Message Seen
scan_pages seen [] = ok seen
scan_pages seen (arr page ∷ pages) = do seen' ← scan_page seen (items page); scan_pages seen' pages
scan_pages seen (_ ∷ pages) = err (value_error invalid_files_response)

-- `expected_count is not None and row_count != expected_count`.
abbrev pub count_differs : Option ℤ → ℕ → Bool
count_differs none rows = false
count_differs (some n) rows = not (eqb_ℤ (pos rows) n)

abbrev pub expected_or_zero : Option ℤ → ℤ
expected_or_zero none = pos 0
expected_or_zero (some n) = n

-- The checks on the number of rows, after the loops.
unfoldable pub check_count : Option ℤ → Seen → Result Message (List String)
check_count expected_count seen =
    if seen.row_count == 0
    then err (value_error no_changed_files)
    else if count_differs expected_count seen.row_count
    then err (value_error (file_count_mismatch (expected_or_zero expected_count) seen.row_count))
    else ok seen.filenames

unfoldable pub extract_filenames : Value → Option ℤ → Result Message (List String)
extract_filenames (arr pages) expected_count = do
  seen ← scan_pages (record { filenames = []; row_count = 0 }) (items pages)
  check_count expected_count seen
extract_filenames _ expected_count = err (value_error invalid_files_response)

unfoldable pub is_unsafe : String → Bool
is_unsafe filename =
    not (contains safe_files filename) && not (any (λ p. starts_with filename p) safe_prefixes)

unfoldable pub requires_full_ci : List String → Bool
requires_full_ci filenames = any is_unsafe filenames

unfoldable pub classify : String → Value → Option ℤ → Result Message Bool
classify event_name files_payload expected_count =
    if not (str_eq event_name "pull_request")
    then if not (contains ("push" ∷ "workflow_dispatch" ∷ []) event_name)
      then err (value_error (unsupported_event event_name))
      else ok true
    else do
      filenames ← extract_filenames files_payload expected_count
      ok (requires_full_ci filenames)
