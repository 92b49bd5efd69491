-- ===== src/CiGate/Status.antt =====
-- The exit status of `main`.
use grain_protocol.Base.{
  ◌≡◌, refl, ◌↔◌, ap, ◌∙◌, String, Bool, List, [], ◌∷◌, map, Result, ok, err, exit, other,
  index_error, value_error, type_error, attribute_error, key_error, decode_error, ◌>>=◌, >>=-eq-ok,
}
use grain_protocol.CiGate.{
  Message, Jobs, parse_bool, parse_jobs, evaluate, Args, returned, report, decide, main,
}
use grain_protocol.CiGate.Jobs.{render, AreValid, parse_jobs_iff}
use grain_protocol.CiGate.Policy.{Policy, evaluate_iff}

-- The arguments spell a flag and jobs that meet the policy.
abbrev pub Passes : Args → Type 0
Passes args =
    (full_required : Bool) × (jobs : Jobs) × (parse_bool args.full_required "full_required"
      ≡ ok full_required)
    × (args.job ≡ map render jobs)
    × AreValid jobs
    × Policy args.event_name full_required jobs

inputs : Args → Result Message (Bool × Jobs)
inputs args = do
  full_required ← parse_bool args.full_required "full_required"
  jobs ← parse_jobs args.job
  ok (full_required, jobs)

report-eq-zero : (errors : List Message) → report errors ≡ returned 0 [] → errors ≡ []
report-eq-zero [] h = refl
report-eq-zero (e ∷ errors) h = cc

decide-eq-zero :
    (event_name : String) (r : Result Message (Bool × Jobs))
    → decide event_name r ≡ ok (returned 0 [])
    → (full_required : Bool) × (jobs : Jobs) × (r ≡ ok (full_required, jobs))
      × (evaluate event_name full_required jobs ≡ [])
decide-eq-zero event_name (ok (full_required, jobs)) h =
    (full_required, jobs, refl, report-eq-zero (evaluate event_name full_required jobs) (cc))
decide-eq-zero event_name (err (value_error m)) h = cc
decide-eq-zero event_name (err (exit m)) h = cc
decide-eq-zero event_name (err (other m)) h = cc
decide-eq-zero event_name (err type_error) h = cc
decide-eq-zero event_name (err index_error) h = cc
decide-eq-zero event_name (err attribute_error) h = cc
decide-eq-zero event_name (err key_error) h = cc
decide-eq-zero event_name (err decode_error) h = cc

-- `main` returns 0 and prints no error exactly when the arguments spell a flag and jobs that meet
-- the policy.
pub main_iff : (args : Args) → (main args ≡ ok (returned 0 [])) ↔ Passes args
unfolding main inputs
main_iff args = (
  λ h.
      let (full_required, jobs, spelt, none_left) =
        decide-eq-zero args.event_name (inputs args) h in
      let (flag, is_flag, rest) =
        >>=-eq-ok (parse_bool args.full_required "full_required") _ spelt in
      let (listed, is_list, pair) = >>=-eq-ok (parse_jobs args.job) _ rest in
      let same_flag : flag ≡ full_required = cc in
      let same_jobs : listed ≡ jobs = cc in
      let known = (parse_jobs_iff args.job jobs).0 (is_list ∙ ap ok same_jobs) in
      (
        full_required,
        jobs,
        is_flag ∙ ap ok same_flag,
        known.0,
        known.1,
        (evaluate_iff args.event_name full_required jobs).0 none_left,
      ),
  λ (full_required, jobs, flag, spelt, valid, policy).
      rw (flag, (parse_jobs_iff args.job jobs).1 (spelt, valid))
        (ap (λ errors. ok (report errors))
          ((evaluate_iff args.event_name full_required jobs).1 policy)),
)
