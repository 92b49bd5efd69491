-- ===== src/CiGate/Policy.antt =====
-- `evaluate` against the policy that it enforces.
use grain_protocol.Base.{
  ◌≡◌, refl, ◌↔◌, ◌⊎◌, inl, inr, arith, String, eq_iff, str_eq, Bool, true, false, some, List, [],
  ◌∷◌, ◌++◌, subst, lookup, contains, All, Bool-cases, Option-cases, append-eq-nil_iff,
  if◌then◌else◌,
}
use grain_protocol.CiGate.{
  Message, job_result, unsupported_event, invalid_full_scope, Jobs, base_jobs, full_jobs, main_jobs,
  approval_job, require_result, require_results, evaluate_pull_request, evaluate_main, evaluate,
}

-- The job ran and ended with this result.
abbrev pub Ended : Jobs → String → String → Type 0
Ended jobs result name = lookup name jobs ≡ some result

-- What a pull request owes beyond the base jobs: the full graph with its approval when the change
-- needs it, and neither when it does not; the jobs of the main branch never.
abbrev pub PullRequestPolicy : Bool → Jobs → Type 0
PullRequestPolicy full_required jobs =
    let wanted = if full_required then "success" else "skipped" in
    Ended jobs wanted approval_job
    × All (Ended jobs wanted) full_jobs
    × All (Ended jobs "skipped") main_jobs

abbrev pub MainPolicy : String → Bool → Jobs → Type 0
MainPolicy event_name full_required jobs =
    ((event_name ≡ "push") ⊎ (event_name ≡ "workflow_dispatch"))
    × (full_required ≡ true)
    × Ended jobs "skipped" approval_job
    × All (Ended jobs "success") (full_jobs ++ main_jobs)

abbrev pub Policy : String → Bool → Jobs → Type 0
Policy event_name full_required jobs =
    All (Ended jobs "success") base_jobs
    × (((event_name ≡ "pull_request") × PullRequestPolicy full_required jobs)
        ⊎ MainPolicy event_name full_required jobs)

-- The name that stands for a job that did not run is no result.
abbrev pub IsResult : String → Type 0
IsResult expected = str_eq "missing" expected ≡ false

module _ (jobs : Jobs) (expected : String) (real : IsResult expected) where
  require_result-eq-nil_iff :
      (name : String) (errors : List Message)
      → (require_result jobs name expected errors ≡ []) ↔ ((errors ≡ []) × Ended jobs expected name)
  unfolding require_result
  require_result-eq-nil_iff name errors = elim (Option-cases (lookup name jobs)) [
    | inl absent ↦
        ground (arith, append-eq-nil_iff errors (job_result name expected "missing" ∷ []))
    | inr (actual, present) ↦ ground (
      arith,
      eq_iff actual expected,
      append-eq-nil_iff errors (job_result name expected actual ∷ []),
    )
  ]

  require_results-eq-nil_iff :
      (names : List String) (errors : List Message)
      → (require_results jobs names expected errors ≡ [])
        ↔ ((errors ≡ []) × All (Ended jobs expected) names)
  unfolding require_results
  require_results-eq-nil_iff [] errors = (λ h. (h, tt), λ h. h.0)
  require_results-eq-nil_iff (name ∷ names) errors =
      let one = require_result-eq-nil_iff name errors in
      let more = require_results-eq-nil_iff names (require_result jobs name expected errors) in
      (
        λ h.
            let (before, later) = more.0 h in
            let (start, here) = one.0 before in (start, (here, later)),
        λ h. more.1 (one.1 (h.0, h.1.0), h.1.1),
      )

IsResult-wanted : (full_required : Bool) → IsResult (if full_required then "success" else "skipped")
IsResult-wanted true = refl
IsResult-wanted false = refl

evaluate_pull_request-eq-nil_iff :
    (full_required : Bool) (jobs : Jobs) (errors : List Message)
    → (evaluate_pull_request full_required jobs errors ≡ [])
      ↔ ((errors ≡ []) × PullRequestPolicy full_required jobs)
unfolding evaluate_pull_request
evaluate_pull_request-eq-nil_iff full_required jobs errors =
    let wanted = if full_required then "success" else "skipped" in
    let real = IsResult-wanted full_required in
    let approved = require_result jobs approval_job wanted errors in
    let full = require_results jobs full_jobs wanted approved in
    let first = require_result-eq-nil_iff jobs wanted real approval_job errors in
    let second = require_results-eq-nil_iff jobs wanted real full_jobs approved in
    let third = require_results-eq-nil_iff jobs "skipped" refl main_jobs full in
    (
      λ h.
          let (h₂, skipped) = third.0 h in
          let (h₁, done) = second.0 h₂ in
          let (h₀, approval) = first.0 h₁ in (h₀, (approval, done, skipped)),
      λ h. third.1 (second.1 (first.1 (h.0, h.1.0), h.1.1), h.1.2),
    )

supported_iff :
    (event_name : String)
    → (contains ("push" ∷ "workflow_dispatch" ∷ []) event_name ≡ true)
      ↔ ((event_name ≡ "push") ⊎ (event_name ≡ "workflow_dispatch"))
unfolding contains
supported_iff event_name =
    ground (arith, eq_iff "push" event_name, eq_iff "workflow_dispatch" event_name)

-- A message that is added unless a test passes.
add_unless-eq-nil_iff :
    (passes : Bool) (m : Message) (errors : List Message)
    → ((if passes then errors else errors ++ (m ∷ [])) ≡ []) ↔ ((errors ≡ []) × (passes ≡ true))
add_unless-eq-nil_iff passes m errors = ground (arith, append-eq-nil_iff errors (m ∷ []))

evaluate_main-eq-nil_iff :
    (event_name : String) (full_required : Bool) (jobs : Jobs) (errors : List Message)
    → (evaluate_main event_name full_required jobs errors ≡ [])
      ↔ ((errors ≡ []) × MainPolicy event_name full_required jobs)
unfolding evaluate_main
evaluate_main-eq-nil_iff event_name full_required jobs errors =
    let known = contains ("push" ∷ "workflow_dispatch" ∷ []) event_name in
    let supported = if known then errors else errors ++ (unsupported_event event_name ∷ []) in
    let scoped = if full_required then supported else supported ++ (invalid_full_scope ∷ []) in
    let approved = require_result jobs approval_job "skipped" scoped in
    let zeroth = add_unless-eq-nil_iff known (unsupported_event event_name) errors in
    let first = add_unless-eq-nil_iff full_required invalid_full_scope supported in
    let second = require_result-eq-nil_iff jobs "skipped" refl approval_job scoped in
    let third = require_results-eq-nil_iff jobs "success" refl (full_jobs ++ main_jobs) approved in
    (
      λ h.
          let (h₃, done) = third.0 h in
          let (h₂, approval) = second.0 h₃ in
          let (h₁, full) = first.0 h₂ in
          let (h₀, event) = zeroth.0 h₁ in
          (h₀, ((supported_iff event_name).0 event, full, approval, done)),
      λ h. third.1 (
        second.1 (first.1 (zeroth.1 (h.0, (supported_iff event_name).1 h.1.0), h.1.1), h.1.2),
        h.1.3,
      ),
    )

-- The event decides which side of the policy applies.
request_policy :
    (event_name : String) (full_required : Bool) (jobs : Jobs)
    → str_eq event_name "pull_request" ≡ true
    → ((event_name ≡ "pull_request") × PullRequestPolicy full_required jobs)
      ⊎ MainPolicy event_name full_required jobs
    → PullRequestPolicy full_required jobs
request_policy event_name full_required jobs request (inl (e, p)) = p
request_policy event_name full_required jobs request (inr (inl e, _, _, _)) =
    cc (subst (λ n. str_eq n "pull_request" ≡ true) e request)
request_policy event_name full_required jobs request (inr (inr e, _, _, _)) =
    cc (subst (λ n. str_eq n "pull_request" ≡ true) e request)

main_policy :
    (event_name : String) (full_required : Bool) (jobs : Jobs)
    → str_eq event_name "pull_request" ≡ false
    → ((event_name ≡ "pull_request") × PullRequestPolicy full_required jobs)
      ⊎ MainPolicy event_name full_required jobs
    → MainPolicy event_name full_required jobs
main_policy event_name full_required jobs other (inl (e, p)) =
    cc ((eq_iff event_name "pull_request").1 e)
main_policy event_name full_required jobs other (inr p) = p

-- A run passes the gate exactly when its jobs meet the policy.
pub evaluate_iff :
    (event_name : String) (full_required : Bool) (jobs : Jobs)
    → (evaluate event_name full_required jobs ≡ []) ↔ Policy event_name full_required jobs
unfolding evaluate
evaluate_iff event_name full_required jobs =
    let errors = require_results jobs base_jobs "success" [] in
    let base = require_results-eq-nil_iff jobs "success" refl base_jobs [] in
    let on_request = evaluate_pull_request-eq-nil_iff full_required jobs errors in
    let on_main = evaluate_main-eq-nil_iff event_name full_required jobs errors in
    elim (Bool-cases (str_eq event_name "pull_request")) [
      | inl request ↦ rw request (
        λ h. let (b, p) = on_request.0 h in ((base.0 b).1, inl ((eq_iff _ _).0 request, p)),
        λ h.
            on_request.1
              (base.1 (refl, h.0), request_policy event_name full_required jobs request h.1),
      )
      | inr other ↦ rw other (
        λ h. let (b, p) = on_main.0 h in ((base.0 b).1, inr p),
        λ h. on_main.1 (base.1 (refl, h.0), main_policy event_name full_required jobs other h.1),
      )
    ]
