-- ===== src/CiScope/Tests.antt =====
-- Runs of the classification, and the theorems at concrete data.
use grain_protocol.Base.{
  ◌≡◌, refl, ◌↔◌, true, false, any, contains, none, some, List, [], ◌∷◌, All, ok, err, value_error,
  String,
}
use grain_protocol.Base.Int.{pos}
use grain_protocol.Json.{Value, null, str, arr, obj, end, field, nil, cons, get}
use grain_protocol.CiScope.{
  file_count_mismatch, no_changed_files, item_filenames, scan_page, scan_pages, check_count,
  extract_filenames, is_unsafe, requires_full_ci, classify,
}
use grain_protocol.CiScope.Rows.{Response, extract_filenames_iff}
use grain_protocol.CiScope.Safe.{IsSafe, classify-eq-false_iff}

abbrev renamed_doc : String → Value
renamed_doc former =
    obj (field "filename" (str "docs/a.md") (field "previous_filename" (str former) end))

abbrev response : String → Value
response former = arr (cons (arr (cons (renamed_doc former) nil)) nil)

runs :
    (classify "pull_request" (response "README.md") (some (pos 1)) ≡ ok false)
    × (classify "pull_request" (response "tools/a.py") none ≡ ok true)
    × (classify "pull_request" (response "README.md") (some (pos 2))
        ≡ err (value_error (file_count_mismatch (pos 2) 1)))
    × (classify "pull_request" (arr nil) none ≡ err (value_error no_changed_files))
    × (classify "push" null none ≡ ok true)
unfolding classify extract_filenames check_count scan_pages scan_page item_filenames get
    requires_full_ci is_unsafe any contains
runs = (refl, refl, refl, refl, refl)

extract_filenames_iff_example :
    (extract_filenames (response "README.md") (some (pos 1)) ≡ ok ("docs/a.md" ∷ "README.md" ∷ []))
    ↔ Response (response "README.md") (some (pos 1)) ("docs/a.md" ∷ "README.md" ∷ [])
extract_filenames_iff_example =
    extract_filenames_iff (response "README.md") (some (pos 1)) ("docs/a.md" ∷ "README.md" ∷ [])

classify-eq-false_iff_example :
    (classify "pull_request" (response "README.md") (some (pos 1)) ≡ ok false) ↔ (
      (◌≡◌ {A = String} "pull_request" "pull_request")
      × (names : List String) × Response (response "README.md") (some (pos 1)) names
      × All IsSafe names)
classify-eq-false_iff_example =
    classify-eq-false_iff "pull_request" (response "README.md") (some (pos 1))
