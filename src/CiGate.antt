-- ===== src/CiGate.antt =====
-- tools/ci/evaluate_ci_gate.py: the final status of a CI run, from the results of its jobs.
-- A message keeps the parts that the source's f-string interpolates. Job names and results are
-- texts; a dict of jobs is the list of its items in the order of insertion.
pub mod Jobs
pub mod Policy
pub mod Status
mod Tests
use Prim.Native.String
use grain_protocol.Base.{
  ℕ, ◌==◌, Char, code, String, str_eq, Bool, true, false, not, ◌||◌, Option, none, some, List, [],
  ◌∷◌, ◌++◌, lookup, keys, contains, if◌then◌else◌, Result, ok, err, value_error, ◌>>=◌,
}
use grain_protocol.Base.Text.{codes, strip, lower, codes_eq}

pub data Message : Type 0 where
  invalid_bool : String → String → Message
  invalid_job_result unknown_job duplicate_job : String → Message
  job_result : String → String → String → Message
  unsupported_event : String → Message
  invalid_full_scope : Message

abbrev pub base_jobs : List String
base_jobs =
    "scope" ∷ "python-tooling" ∷ "capid-csprng-audit" ∷ "rust-core" ∷ "ts-c01" ∷ "ts-full"
    ∷ "wasm-smoke" ∷ []

abbrev pub full_jobs : List String
full_jobs = "sdk-platform" ∷ "evidence-bundle" ∷ []

abbrev pub main_jobs : List String
main_jobs = "fuzz-smoke" ∷ "verify-script-smoke" ∷ []

abbrev pub approval_job : String
approval_job = "full-ci-approval"

abbrev pub allowed_jobs : List String
allowed_jobs = base_jobs ++ (full_jobs ++ (main_jobs ++ (approval_job ∷ [])))

abbrev pub known_results : List String
known_results = "success" ∷ "failure" ∷ "cancelled" ∷ "skipped" ∷ []

abbrev pub Jobs : Type 0
Jobs = List (String × String)

unfoldable pub parse_bool : String → String → Result Message Bool
unfolding strip lower codes_eq
parse_bool value label =
    let normalized = lower (strip (codes value)) in
    if codes_eq normalized (codes "true")
    then ok true
    else if codes_eq normalized (codes "false")
    then ok false
    else err (value_error (invalid_bool label value))

-- `value.partition("=")`: what stands before the first sign, whether there is one, and the rest.
unfoldable pub partition : String → String × Bool × String
partition String.[] = ("", false, "")
partition (String.◌∷◌ c s) =
    let (name, separator, result) = partition s in
    if code c == b'=' then ("", true, s) else (String.◌∷◌ c name, separator, result)

-- One round of the loop of `parse_jobs`, for the dict that is filled so far.
unfoldable pub parse_job : Jobs → String → Result Message (String × String)
parse_job jobs value =
    let (name, separator, result) = partition value in
    if not separator || str_eq name "" || not (contains known_results result)
    then err (value_error (invalid_job_result value))
    else if not (contains allowed_jobs name)
    then err (value_error (unknown_job name))
    else if contains (keys jobs) name
    then err (value_error (duplicate_job name))
    else ok (name, result)

unfoldable pub parse_jobs_from : Jobs → List String → Result Message Jobs
parse_jobs_from jobs [] = ok jobs
parse_jobs_from jobs (value ∷ values) = do
  entry ← parse_job jobs value
  parse_jobs_from (jobs ++ (entry ∷ [])) values

unfoldable pub parse_jobs : List String → Result Message Jobs
unfolding parse_jobs_from
parse_jobs values = parse_jobs_from [] values

abbrev pub or_missing : Option String → String
or_missing none = "missing"
or_missing (some result) = result

unfoldable pub require_result : Jobs → String → String → List Message → List Message
require_result jobs name expected errors =
    let actual = or_missing (lookup name jobs) in
    if str_eq actual expected then errors else errors ++ (job_result name expected actual ∷ [])

-- `for name in names: require_result(jobs, name, expected, errors)`.
unfoldable pub require_results : Jobs → List String → String → List Message → List Message
unfolding require_result
require_results jobs [] expected errors = errors
require_results jobs (name ∷ names) expected errors =
    require_results jobs names expected (require_result jobs name expected errors)

-- The branch for a pull request, after the base jobs.
unfoldable pub evaluate_pull_request : Bool → Jobs → List Message → List Message
unfolding require_results
evaluate_pull_request full_required jobs errors =
    let wanted = if full_required then "success" else "skipped" in
    let approved = require_result jobs approval_job wanted errors in
    let full = require_results jobs full_jobs wanted approved in
    require_results jobs main_jobs "skipped" full

-- The rest of `evaluate`, for every other event.
unfoldable pub evaluate_main : String → Bool → Jobs → List Message → List Message
unfolding require_results
evaluate_main event_name full_required jobs errors =
    let supported =
      if contains ("push" ∷ "workflow_dispatch" ∷ []) event_name
      then errors
      else errors ++ (unsupported_event event_name ∷ []) in
    let scoped = if full_required then supported else supported ++ (invalid_full_scope ∷ []) in
    let approved = require_result jobs approval_job "skipped" scoped in
    require_results jobs (full_jobs ++ main_jobs) "success" approved

unfoldable pub evaluate : String → Bool → Jobs → List Message
unfolding require_results evaluate_pull_request evaluate_main
evaluate event_name full_required jobs =
    let errors = require_results jobs base_jobs "success" [] in
    if str_eq event_name "pull_request"
    then evaluate_pull_request full_required jobs errors
    else evaluate_main event_name full_required jobs errors

pub record Args : Type 0 where
  pub event_name : String
  pub full_required : String
  pub job : List String

-- The exit status of `main` and the messages that it prints.
pub data Outcome : Type 0 where
  returned : ℕ → List Message → Outcome

abbrev pub report : List Message → Outcome
report [] = returned 0 []
report (error ∷ errors) = returned 1 (error ∷ errors)

-- Only a `ValueError` is caught.
abbrev pub decide : String → Result Message (Bool × Jobs) → Result Message Outcome
decide event_name (ok (full_required, jobs)) = ok (report (evaluate event_name full_required jobs))
decide event_name (err (value_error m)) = ok (returned 2 (m ∷ []))
decide event_name (err e) = err e

unfoldable pub main : Args → Result Message Outcome
unfolding parse_bool parse_jobs evaluate
main args = decide args.event_name (do
  full_required ← parse_bool args.full_required "full_required"
  jobs ← parse_jobs args.job
  ok (full_required, jobs))
