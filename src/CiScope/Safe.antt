-- ===== src/CiScope/Safe.antt =====
-- `classify`: when the full verification graph may be left out.
use text.Mathlib.TextBridge.{IsPrefix}
use text.Mathlib.TextEquality.{starts_with_iff}
use grain_protocol.Base.{
  ◌≡◌, ◌↔◌, ap, arith, String, str_eq, eq_iff, starts_with, true, false, Option, List, All,
  contains, any, any-eq-false_iff, All-map, or_iff, or_false_iff, Bool-cases, inl, inr, ◌⊎◌, ok,
  >>=-eq-ok, ok-injective,
}
use grain_protocol.Base.Int.{ℤ}
use grain_protocol.Json.{Value}
use grain_protocol.CiScope.{
  safe_prefixes, safe_files, extract_filenames, is_unsafe, requires_full_ci, classify,
}
use grain_protocol.CiScope.Rows.{Response, extract_filenames_iff}

-- A listed file, or one below a listed directory.
abbrev pub IsSafe : String → Type 0
IsSafe filename =
    (contains safe_files filename ≡ true)
    ⊎ (IsPrefix "adr/" filename
        ⊎ (IsPrefix "docs/" filename ⊎ IsPrefix ".github/ISSUE_TEMPLATE/" filename))

prefixes_iff :
    (filename : String)
    → (any (λ p. starts_with filename p) safe_prefixes ≡ true) ↔ (
        IsPrefix "adr/" filename
        ⊎ (IsPrefix "docs/" filename ⊎ IsPrefix ".github/ISSUE_TEMPLATE/" filename))
unfolding any
prefixes_iff filename = or_iff (starts_with filename "adr/") _ (starts_with_iff filename "adr/") (
    or_iff (starts_with filename "docs/") _ (starts_with_iff filename "docs/")
      (or_false_iff _ (starts_with_iff filename ".github/ISSUE_TEMPLATE/")))

is_unsafe_iff : (filename : String) → (is_unsafe filename ≡ false) ↔ IsSafe filename
unfolding is_unsafe
is_unsafe_iff filename =
    let listed = contains safe_files filename in
    let below = any (λ p. starts_with filename p) safe_prefixes in
    let either = or_iff {P = listed ≡ true} listed below (λ h. h, λ h. h) (prefixes_iff filename) in
    (λ h. either.0 (ground arith), λ safe. let found = either.1 safe in ground (arith, found))

requires_full_ci-eq-false_iff :
    (names : List String) → (requires_full_ci names ≡ false) ↔ All IsSafe names
unfolding requires_full_ci
requires_full_ci-eq-false_iff names =
    let each = any-eq-false_iff is_unsafe names in
    (
      λ h. All-map names (λ f. (is_unsafe_iff f).0) (each.0 h),
      λ safe. each.1 (All-map names (λ f. (is_unsafe_iff f).1) safe),
    )

not_request :
    (event_name : String) (payload : Value) (expected_count : Option ℤ)
    → str_eq event_name "pull_request" ≡ false
    → classify event_name payload expected_count ≡ ok false
    → ⊥
unfolding classify
not_request event_name payload expected_count other h = ground arith

-- The full graph is left out exactly for a pull request whose response is complete and names safe
-- files only, the former names of renamed files included.
pub classify-eq-false_iff :
    (event_name : String) (payload : Value) (expected_count : Option ℤ)
    → (classify event_name payload expected_count ≡ ok false) ↔ (
        (event_name ≡ "pull_request")
        × (names : List String) × Response payload expected_count names
        × All IsSafe names)
unfolding classify
classify-eq-false_iff event_name payload expected_count = (
  λ h. elim (Bool-cases (str_eq event_name "pull_request")) [
    | inl request ↦
        let (names, read, verdict) =
          >>=-eq-ok (extract_filenames payload expected_count) _ (rw (request, classify) at h) in
        (
          (eq_iff event_name "pull_request").0 request,
          names,
          (extract_filenames_iff payload expected_count names).0 read,
          (requires_full_ci-eq-false_iff names).0 (ok-injective verdict),
        )
    | inr other ↦ absurd (not_request event_name payload expected_count other h)
  ],
  λ (request, names, response, safe).
      rw
        (
          (eq_iff event_name "pull_request").1 request,
          (extract_filenames_iff payload expected_count names).1 response,
        )
        (ap ok ((requires_full_ci-eq-false_iff names).1 safe)),
)
