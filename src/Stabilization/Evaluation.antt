-- ===== src/Stabilization/Evaluation.antt =====
-- A mutation case from its two processes to its verdict.
use grain_protocol.Base.{
  ℕ, suc, ◌≡◌, ◌≢◌, refl, String, false, some, List, ok, err, attribute_error, sym, ap, subst, ◌∙◌,
  ok-injective, >>=-eq-ok,
}
use grain_protocol.Base.Int.{ℤ}
use grain_protocol.Json.{Value, null, nan, bool, infinity, int, real, str, obj, arr, nil, is_dict}
use grain_protocol.Report.{parsed}
use grain_protocol.Stabilization.Campaign.{
  RunnerResult, Machine, World, Command, Completed, completed, failed, undecodable, Ran, runner,
  invoke_runner, parse_runner_output, output_get,
}
use grain_protocol.Stabilization.Actions.{bind-eq-ok, lift_result-eq-ok}
use grain_protocol.Stabilization.Fuzz.{evaluate_mutation_case}
use grain_protocol.Stabilization.Judging.{IsJudged, IsObject, judged}
use grain_protocol.Stabilization.Matrix.{Context}
use grain_protocol.Stabilization.Verdicts.{Case, Answer, judge_mutation, answer_of}

-- A process starts, and what it prints is text.
abbrev IsRun : Ran → Type 0
IsRun ran = ((errno : ℤ) → ran ≢ failed errno) × (ran ≢ undecodable)

-- Every process starts and prints text, and a line that is JSON is an object.
abbrev pub Starts : Machine → Type 0
Starts machine = (n : ℕ) (cmd : Command) → IsRun (machine.process n cmd)

abbrev pub PrintsObjects : Machine → Type 0
PrintsObjects machine = (line : List ℕ) (v : Value) → machine.loads line ≡ parsed v → IsObject v

output_get-raises :
    (v default : Value) → is_dict v ≡ false → output_get v "diag" default ≡ err attribute_error
output_get-raises null default h = refl
output_get-raises nan default h = refl
output_get-raises (bool b) default h = refl
output_get-raises (infinity b) default h = refl
output_get-raises (int n) default h = refl
output_get-raises (real n k) default h = refl
output_get-raises (str s) default h = refl
output_get-raises (obj fs) default h = cc
output_get-raises (arr vs) default h = refl

-- When the processes of both runners complete, and the last line that the Rust runner prints is JSON
-- but no object, the evaluation raises AttributeError, whatever the other runner prints: the case is
-- not counted as a crash.
pub evaluate_mutation_case-raises :
    (ctx : Context) (vector : Value) (case_id : String) (w : World) (c d : Completed) (v : Value)
    → ctx.machine.process w.started (runner ctx.rust_cmd vector) ≡ completed c
    → ctx.machine.process (suc w.started) (runner ctx.ts_cmd vector) ≡ completed d
    → parse_runner_output ctx.machine.loads c.stdout ≡ some v
    → is_dict v ≡ false
    → evaluate_mutation_case ctx vector case_id w ≡ err attribute_error
unfolding evaluate_mutation_case invoke_runner judge_mutation answer_of
evaluate_mutation_case-raises ctx vector case_id w c d v h k line no_dict =
    rw (h, k, line, output_get-raises v (arr nil) no_dict) refl

output_get-eq-ok :
    (v : Value) (k : String) (default : Value) {x : Value}
    → output_get v k default ≡ ok x
    → IsObject v
output_get-eq-ok (obj fs) k default h = (fs, refl)
output_get-eq-ok _ k default h = cc

answer_of-eq-ok : (r : RunnerResult) {a : Answer} → answer_of r ≡ ok a → IsObject r.output
unfolding answer_of
answer_of-eq-ok r h =
    let (diag, got, _) = >>=-eq-ok (output_get r.output "diag" (arr nil)) _ h in
    output_get-eq-ok r.output "diag" (arr nil) got

judge_mutation-eq-ok :
    (case_id : String) (rust ts : RunnerResult) {c : Case}
    → judge_mutation case_id rust ts ≡ ok c
    → (c.id ≡ case_id) × IsJudged c
unfolding judge_mutation
judge_mutation-eq-ok case_id rust ts {c} h =
    let (a, got_rust, h1) = >>=-eq-ok (answer_of rust) _ h in
    let (b, got_ts, _) = >>=-eq-ok (answer_of ts) _ h1 in
    let (fs, is_fs) = answer_of-eq-ok rust got_rust in
    let (gs, is_gs) = answer_of-eq-ok ts got_ts in
    let (d, at, id, is_judged) = judged case_id rust ts fs gs is_fs is_gs in
    let same : d ≡ c = ok-injective (sym at ∙ h) in
    (ap (λ (x : Case). x.id) (sym same) ∙ id, subst IsJudged same is_judged)

-- A case that is evaluated has its identity and the verdict that its answers call for.
pub evaluate_mutation_case-eq-ok :
    (ctx : Context) (vector : Value) (case_id : String) (w : World) {c : Case} {w' : World}
    → evaluate_mutation_case ctx vector case_id w ≡ ok (c, w')
    → (c.id ≡ case_id) × IsJudged c
unfolding evaluate_mutation_case
evaluate_mutation_case-eq-ok ctx vector case_id w h =
    let (rust, w1, _, h1) = bind-eq-ok (invoke_runner ctx.machine ctx.rust_cmd vector) _ w h in
    let (ts, w2, _, h2) = bind-eq-ok (invoke_runner ctx.machine ctx.ts_cmd vector) _ w1 h1 in
    judge_mutation-eq-ok case_id rust ts
      (lift_result-eq-ok (judge_mutation case_id rust ts) w2 h2).0
