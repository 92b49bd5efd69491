-- ===== src/Stabilization/Verdicts.antt =====
-- What tools/stabilization/run_rc_stab.py makes of the two runners' answers: the verdict of a mutation
-- case, the verdict of a row of the attack matrix, and `stable`, by which answers are compared.
use grain_protocol.Base.{
  ◌==◌, String, str_eq, Bool, true, false, not, ◌&&◌, ◌||◌, Option, none, some, List, [], ◌∷◌,
  lookup, length, all, if◌then◌else◌, Result, ok, err, index_error, ◌>>=◌,
}
use grain_protocol.Base.Int.{ℤ, shift, eqb_ℤ}
use grain_protocol.Json.{
  Value, null, nan, bool, infinity, int, real, str, obj, arr, Items, nil, cons, Fields, end, field,
  fields, items, truthy,
}
use grain_protocol.Stabilization.Campaign.{Failure, RunnerResult, output_get}

pub data Verdict : Type 0 where
  passed found_bug intentionally_rejected interesting_accept : Verdict

-- `verdict == "FOUND_BUG"`, and `verdict in {"FOUND_BUG", "INTERESTING_ACCEPT"}`.
abbrev pub is_found_bug : Verdict → Bool
is_found_bug found_bug = true
is_found_bug _ = false

abbrev pub is_saved : Verdict → Bool
is_saved found_bug = true
is_saved interesting_accept = true
is_saved _ = false

-- The reason of a verdict; a divergence keeps what each runner answered.
pub data Reason : Type 0 where
  unparseable_output : Reason
  divergence : Bool → Bool → Reason
  both_rejected accepted_by_both unexpected_state : Reason

-- The part of an answer that a case keeps.
pub record Answer : Type 0 where
  pub crash : Bool
  pub timeout : Bool
  pub return_code : ℤ
  pub diag : Value
  pub answered : Value

pub record Case : Type 0 where
  pub id : String
  pub rust : Answer
  pub ts : Answer
  pub verdict : Verdict
  pub reason : Reason

unfoldable pub answer_of : RunnerResult → Result Failure Answer
answer_of r = do
  diag ← output_get r.output "diag" (arr nil)
  answered ← output_get r.output "pass" null
  ok (record {
    crash = r.crash;
    timeout = r.timeout;
    return_code = r.return_code;
    diag = diag;
    answered = answered;
  })

-- `bool(r.output.get("pass", False))`.
unfoldable pub matched : RunnerResult → Result Failure Bool
matched r = do value ← output_get r.output "pass" (bool false); ok (truthy value)

abbrev pub bool_eq : Bool → Bool → Bool
bool_eq true b = b
bool_eq false b = not b

-- The verdict of two runners that have both answered.
abbrev pub verdict_of : Bool → Bool → Verdict × Reason
verdict_of rust_matched ts_matched =
    if not (bool_eq rust_matched ts_matched)
    then (found_bug, divergence rust_matched ts_matched)
    else if rust_matched && ts_matched
    then (intentionally_rejected, both_rejected)
    else if not rust_matched && not ts_matched
    then (interesting_accept, accepted_by_both)
    else (found_bug, unexpected_state)

abbrev pub case_of : String → Answer → Answer → Verdict × Reason → Case
case_of case_id rust ts (verdict, reason) = record {
  id = case_id;
  rust = rust;
  ts = ts;
  verdict = verdict;
  reason = reason;
}

unfoldable pub verdict_or : Bool → RunnerResult → RunnerResult → Result Failure (Verdict × Reason)
verdict_or true rust ts = ok (found_bug, unparseable_output)
verdict_or false rust ts = do
  rust_matched ← matched rust
  ts_matched ← matched ts
  ok (verdict_of rust_matched ts_matched)

-- `evaluate_mutation_case`, after both runners have been invoked.
unfoldable pub judge_mutation : String → RunnerResult → RunnerResult → Result Failure Case
judge_mutation case_id rust ts = do
  rust_answer ← answer_of rust
  ts_answer ← answer_of ts
  verdict ← verdict_or (rust.crash || ts.crash) rust ts
  ok (case_of case_id rust_answer ts_answer verdict)

-- Whether `stable` writes two values alike: equal types, numbers that are the same, texts that are the
-- same, and objects with the same members in any order. A float's zero has no sign here.
abbrev option_same : (Value → Bool) → Option Value → Bool
option_same same none = false
option_same same (some v) = same v

unfoldable mutual
  unfolding lookup

  pub stable_eq : Value → Value → Bool
  stable_eq null null = true
  stable_eq nan nan = true
  stable_eq (bool a) (bool b) = bool_eq a b
  stable_eq (infinity a) (infinity b) = bool_eq a b
  stable_eq (int m) (int n) = eqb_ℤ m n
  stable_eq (real m j) (real n k) = eqb_ℤ (shift m k) (shift n j)
  stable_eq (str s) (str t) = str_eq s t
  stable_eq (arr vs) (arr ws) = stable_items vs (items ws)
  stable_eq (obj fs) (obj gs) =
      length (fields fs) == length (fields gs) && stable_fields fs (fields gs)
  stable_eq v w = false

  pub stable_items : Items → List Value → Bool
  stable_items nil [] = true
  stable_items (cons v vs) (w ∷ ws) = stable_eq v w && stable_items vs ws
  stable_items vs ws = false

  pub stable_fields : Fields → List (String × Value) → Bool
  stable_fields end gs = true
  stable_fields (field k v fs) gs = option_same (stable_eq v) (lookup k gs) && stable_fields fs gs

-- The verdict of a row, with the reason of a finding.
pub data RowReason : Type 0 where
  runner_crash expectation_failed output_divergence replay_divergence : RowReason

pub data RowVerdict : Type 0 where
  row_passed row_rejected : RowVerdict
  row_found_bug : RowReason → RowVerdict

unfoldable pub compare_out : RunnerResult → RunnerResult → Result Failure RowVerdict
compare_out rust ts = do
  rust_out ← output_get rust.output "out" (obj end)
  ts_out ← output_get ts.output "out" (obj end)
  ok (if stable_eq rust_out ts_out then row_passed else row_found_bug output_divergence)

abbrev pub row_verdict : Bool → Bool → RunnerResult → RunnerResult → Result Failure RowVerdict
row_verdict true both_pass rust ts = ok (row_found_bug runner_crash)
row_verdict false false rust ts = ok (row_found_bug expectation_failed)
row_verdict false true rust ts = compare_out rust ts

-- The members that a row of kind "vector" shows are read before the verdict, and so an answer that is
-- no object raises here too.
unfoldable pub judge_vector : RunnerResult → RunnerResult → Result Failure RowVerdict
judge_vector rust ts = do
  rust_pass ← output_get rust.output "pass" null
  ts_pass ← output_get ts.output "pass" null
  row_verdict (rust.crash || ts.crash) (truthy rust_pass && truthy ts_pass) rust ts

-- `[r.get("pass") for r in runs]`.
unfoldable pub passes_of : List Value → Result Failure (List Value)
passes_of [] = ok []
passes_of (run ∷ runs) = do
  answered ← output_get run "pass" null
  rest ← passes_of runs
  ok (answered ∷ rest)

-- `len({stable(x) for x in runs}) == 1`, of runs of which there is a first.
abbrev pub is_stable : Value → List Value → Bool
is_stable first rest = all (stable_eq first) rest

-- The verdict of a row of kind "replay"; without a replay there is no first run.
unfoldable pub judge_replay : List Value → List Value → Result Failure RowVerdict
unfolding all
judge_replay (rust ∷ rust_rest) (ts ∷ ts_rest) = do
  rust_passes ← passes_of (rust ∷ rust_rest)
  ts_passes ← passes_of (ts ∷ ts_rest)
  rust_pass ← output_get rust "pass" null
  ts_pass ← output_get ts "pass" null
  ok (
      if is_stable rust rust_rest
        && is_stable ts ts_rest
        && stable_eq rust ts
        && truthy rust_pass
        && truthy ts_pass
      then row_passed
      else row_found_bug replay_divergence)
judge_replay _ _ = err index_error
