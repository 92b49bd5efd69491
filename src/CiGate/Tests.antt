-- ===== src/CiGate/Tests.antt =====
-- Runs of the gate, and the theorems at concrete data.
use grain_protocol.Base.{
  ◌≡◌, refl, ◌↔◌, String, true, false, List, [], ◌∷◌, ◌++◌, map, contains, keys, lookup, ok,
}
use grain_protocol.CiGate.{
  job_result, invalid_job_result, duplicate_job, invalid_bool, Jobs, base_jobs, full_jobs,
  main_jobs, approval_job, partition, parse_job, parse_jobs, evaluate, Args, returned, main,
}
use grain_protocol.CiGate.Jobs.{render, AreValid, parse_jobs_iff}
use grain_protocol.CiGate.Policy.{Policy, evaluate_iff}
use grain_protocol.CiGate.Status.{Passes, main_iff}

abbrev ended : String → List String → Jobs
ended result [] = []
ended result (name ∷ names) = (name, result) ∷ ended result names

-- A pull request that touches safe files only.
abbrev light : Jobs
light = ended "success" base_jobs ++ ended "skipped" (approval_job ∷ (full_jobs ++ main_jobs))

abbrev args : Args
args = record { event_name = "pull_request"; full_required = " False"; job = map render light }

runs :
    (main args ≡ ok (returned 0 []))
    × (main (record args { full_required = "no" })
        ≡ ok (returned 2 (invalid_bool "full_required" "no" ∷ [])))
    × (main (record args { job = "scope=ok" ∷ [] })
        ≡ ok (returned 2 (invalid_job_result "scope=ok" ∷ [])))
    × (main (record args { job = "scope=success" ∷ "scope=failure" ∷ [] })
        ≡ ok (returned 2 (duplicate_job "scope" ∷ [])))
unfolding main parse_job keys contains lookup partition
runs = (refl, refl, refl, refl)

skipped_is_no_success :
    evaluate "pull_request" false (("scope", "skipped") ∷ light)
    ≡ job_result "scope" "success" "skipped" ∷ []
unfolding evaluate lookup contains
skipped_is_no_success = refl

evaluate_iff_example : (evaluate "push" true light ≡ []) ↔ Policy "push" true light
evaluate_iff_example = evaluate_iff "push" true light

parse_jobs_iff_example :
    (parse_jobs (map render light) ≡ ok light)
    ↔ ((map render light ≡ map render light) × AreValid light)
parse_jobs_iff_example = parse_jobs_iff (map render light) light

main_iff_example : (main args ≡ ok (returned 0 [])) ↔ Passes args
main_iff_example = main_iff args
