-- ===== src/Stabilization/Tests.antt =====
-- A machine on which every process ends well, and the theorems at it.
use grain_protocol.Base.{
  ℕ, ◌≡◌, ◌≢◌, ◌≤◌, ◌↔◌, refl, arith, length, String, true, false, none, some, List, [], ◌∷◌, All,
  all, lookup, keys, contains, Result, ok, err, attribute_error,
}
use grain_protocol.Base.Int.{pos}
use grain_protocol.Base.Below.{AreBytes}
use grain_protocol.Base.Text.{codes, strip, drop_space, is_space, has_prefix, has_infix, codes_eq}
use grain_protocol.Base64.{decode, encode, char_of}
use grain_protocol.Json.{Value, bool, str, obj, arr, nil, Fields, end, field, get_or, truthy}
use grain_protocol.Report.{parsed}
use grain_protocol.Stabilization.{Args, Before, before_repro, main}
use grain_protocol.Stabilization.Attacks.{
  entries_of, findings_of, IsBugFree, run_attack_matrix-eq-ok,
}
use grain_protocol.Stabilization.Built.{IsBuilt, build_fuzz_vector-IsBuilt}
use grain_protocol.Stabilization.Bytes.{take, max, flip_first, flip_last, draw, mutate_bytes}
use grain_protocol.Stabilization.Campaign.{
  Completed, completed, World, Machine, Failure, run_completed, command_exists, load_json,
  last_line, parse_runner_output, invoke_runner,
}
use grain_protocol.Stabilization.Cleaning.{AgreeBesideCleanup, main-Agree}
use grain_protocol.Stabilization.Fuzz.{
  Tally, evaluate_mutation_case, fuzz_one, fuzz_mutations, fuzz_paths, fuzz_seeds, run_fuzz,
}
use grain_protocol.Stabilization.FuzzVector.{build_fuzz_vector}
use grain_protocol.Stabilization.Matrix.{
  attack_cases, Context, Row, Finding, replay, attack_vector, attack_replay, attack, run_attacks,
  run_attack_matrix,
}
use grain_protocol.Stabilization.Names.{
  increment, digits, digits_text, two_digits, name_of, without_suffix, case_name,
}
use grain_protocol.Stabilization.Paths.{
  Part, key, nth, get_item, get_at_path, put_field, put_nth, set_item, set_at_path, find_b64_paths,
}
use grain_protocol.Stabilization.Assets.{asset_names, names_of, any_starts, release_assets_ok}
use grain_protocol.Stabilization.Counted.{count_of, occurrences, count_of-verdict_counts}
use grain_protocol.Stabilization.Counts.{count_one, verdict_counts}
use grain_protocol.Stabilization.Evaluation.{evaluate_mutation_case-raises}
use grain_protocol.Stabilization.Found.{IsProper, find_b64_paths-LeadsToText}
use grain_protocol.Stabilization.Mutations.{mutate_bytes-AreBytes, mutate_bytes-ne}
use grain_protocol.Stabilization.Outcome.{Evidence, cleanup_warnings, interesting_total}
use grain_protocol.Stabilization.PropertyTests.{run_properties}
use grain_protocol.Stabilization.Rehearsal.{replace_rc1, run_rollback_rehearsal}
use grain_protocol.Stabilization.Repository.{
  git_rev_parse, git_commit_rev_parse, after, drop_slashes, drop_git, slug_of, slug_of_url,
  has_slash, detect_repo_slug,
}
use grain_protocol.Stabilization.Reproduction.{
  removed, refused, safe_rmtree, line_from, split_words, reproduce, run_repro_check,
}
use grain_protocol.Stabilization.Slugs.{detect_repo_slug-has_slash}
use grain_protocol.Stabilization.Status.{Passes, main-Passes}
use grain_protocol.Stabilization.Verdicts.{
  answer_of, matched, verdict_or, judge_mutation, stable_eq, compare_out, judge_vector, passes_of,
  judge_replay,
}

-- Every process prints this line and returns 0; every file is this vector.
abbrev line : List ℕ
line = codes "{\"pass\":true}"

abbrev answer : Value
answer = obj (field "pass" (bool true) end)

abbrev done : Completed
done = record { return_code = pos 0; stdout = line; stderr = [] }

abbrev file : Value
file = obj (field "input" (obj (field "bytes_b64" (str "AAEC") end)) end)

abbrev machine : Machine
machine = record {
  process = λ n cmd. completed done;
  random_byte = λ n. 7;
  json = λ path. parsed file;
  text_of = λ path. some "evidence.zip 35475fd1";
  loads = λ text. parsed answer;
}

abbrev ctx : Context
ctx = record {
  rust_cmd = "grain-runner" ∷ [];
  ts_cmd = "node" ∷ [];
  minimized_dir = "out";
  machine = machine;
}

abbrev fresh : World
fresh = record { started = 0; drawn = 0; written = [] }

abbrev returned {ℓ} : {A : Type ℓ} → A → Result Failure A → A
returned default (ok a) = a
returned default (err e) = default

tools : Unit {0}
unfolding all lookup keys contains strip drop_space is_space has_prefix has_infix codes_eq decode
    encode char_of get_or truthy take flip_first flip_last draw mutate_bytes run_completed
    command_exists load_json last_line parse_runner_output invoke_runner evaluate_mutation_case
    fuzz_one fuzz_mutations fuzz_paths fuzz_seeds run_fuzz build_fuzz_vector replay attack_vector
    attack_replay attack run_attacks run_attack_matrix increment digits digits_text two_digits
    name_of without_suffix nth get_item get_at_path put_field put_nth set_item set_at_path
    find_b64_paths answer_of matched verdict_or judge_mutation stable_eq compare_out judge_vector
    passes_of judge_replay git_rev_parse git_commit_rev_parse after drop_slashes drop_git slug_of
    slug_of_url detect_repo_slug run_properties safe_rmtree line_from split_words reproduce
    run_repro_check replace_rc1 run_rollback_rehearsal asset_names names_of any_starts
    release_assets_ok cleanup_warnings interesting_total count_one verdict_counts before_repro main
tools = tt

abbrev matrix_result : (List Row × List Finding) × World
unfolding tools
matrix_result = returned (([], []), fresh) (run_attack_matrix ctx fresh)

matrix_runs : run_attack_matrix ctx fresh ≡ ok matrix_result
unfolding tools
matrix_runs = refl

abbrev fuzz_result : Tally × World
unfolding tools
fuzz_result =
    returned (record { cases = []; findings = []; saved = [] }, fresh) (run_fuzz ctx "smoke" fresh)

-- A runner that prints a list.
abbrev list_machine : Machine
list_machine = record {
  process = λ n cmd. completed done;
  random_byte = λ n. 7;
  json = λ path. parsed file;
  text_of = λ path. none;
  loads = λ text. parsed (arr nil);
}

abbrev list_ctx : Context
list_ctx = record {
  rust_cmd = "grain-runner" ∷ [];
  ts_cmd = "node" ∷ [];
  minimized_dir = "out";
  machine = list_machine;
}

abbrev smoke : Args
smoke = record {
  mode = "smoke";
  out_dir = "out";
  baseline_tag = "repo-rc-v0.4.0-rc1";
  baseline_sha = "35475fd1";
  rust_cmd = "grain-runner" ∷ [];
  ts_cmd = "node" ∷ [];
  repo = none;
}

abbrev deep : Args
deep = record {
  mode = "deep";
  out_dir = "out";
  baseline_tag = "repo-rc-v0.4.0-rc1";
  baseline_sha = "35475fd1";
  rust_cmd = "grain-runner" ∷ [];
  ts_cmd = "node" ∷ [];
  repo = some "owner/repo";
}

abbrev main_runs :
    (r : (ℕ × Evidence) × World) × (main machine "owner/repo" smoke "tmp" removed fresh ≡ ok r)
unfolding tools
main_runs = (_, refl)

abbrev deep_runs :
    (r : (ℕ × Evidence) × World) × (main machine "owner/repo" deep "tmp" removed fresh ≡ ok r)
unfolding tools
deep_runs = (_, refl)

-- In the deep run the evidence is reproduced, but no tag is listed.
deep_status :
    (deep_runs.0.0.0 ≡ 1)
    × (deep_runs.0.0.1.repro.success ≡ true)
    × (deep_runs.0.0.1.rollback.tag_exists ≡ false)
unfolding deep_runs
deep_status = (refl, refl, refl)

-- The smoke run returns 0, with all gates open.
smoke_status : main_runs.0.0.0 ≡ 0
unfolding main_runs
smoke_status = refl

list_printed : parse_runner_output list_machine.loads line ≡ some (arr nil)
unfolding tools
list_printed = refl

evaluate_mutation_case-raises_example :
    evaluate_mutation_case list_ctx file "FZ" fresh ≡ err attribute_error
evaluate_mutation_case-raises_example =
    evaluate_mutation_case-raises list_ctx file "FZ" fresh done done (arr nil) refl refl
      list_printed refl

run_attack_matrix-eq-ok_example :
    (entries_of matrix_result.0.0 ≡ attack_cases)
    × (matrix_result.0.1 ≡ findings_of matrix_result.0.0)
    × ((matrix_result.0.1 ≡ []) ↔ All IsBugFree matrix_result.0.0)
run_attack_matrix-eq-ok_example =
    run_attack_matrix-eq-ok ctx fresh matrix_result.0.0 matrix_result.0.1 matrix_result.1
      matrix_runs

-- Each of the six seeds has one text, of which a smoke run makes three cases; all are rejected.
fuzz_counts : (length fuzz_result.0.cases ≡ 18) × (length fuzz_result.0.findings ≡ 0)
unfolding fuzz_result
fuzz_counts = (refl, refl)

abbrev path : List Part
path = key "bytes_b64" ∷ []

abbrev built_runs :
    (v : Value) × (build_fuzz_vector file path (128 ∷ 1 ∷ 2 ∷ []) "FZ-POS-CID-001-00-00" ≡ ok v)
unfolding tools
built_runs = (_, refl)

build_fuzz_vector-IsBuilt_example :
    (fs : Fields) × (built_runs.0 ≡ obj fs)
    × IsBuilt fs path (128 ∷ 1 ∷ 2 ∷ []) "FZ-POS-CID-001-00-00"
build_fuzz_vector-IsBuilt_example =
    build_fuzz_vector-IsBuilt file path (128 ∷ 1 ∷ 2 ∷ []) "FZ-POS-CID-001-00-00" built_runs.0
      (omega arith, (omega arith, (omega arith, tt))) built_runs.1

main-Agree_example :
    AgreeBesideCleanup
      (main machine "owner/repo" deep "tmp" removed fresh)
      (main machine "owner/repo" deep "tmp" (refused "PermissionError" (some (pos 13))) fresh)
main-Agree_example =
    main-Agree machine "owner/repo" deep "tmp" removed (refused "PermissionError" (some (pos 13)))
      fresh

main-Passes_example :
    (before : Before) × (v : World) × (before_repro machine "owner/repo" smoke fresh
      ≡ ok (before, v))
    × ((main_runs.0.0.0 ≡ 0) ↔ Passes smoke before main_runs.0.0.1.repro main_runs.0.0.1.rollback)
main-Passes_example =
    main-Passes machine "owner/repo" smoke "tmp" removed fresh main_runs.0.0.0 main_runs.0.0.1
      main_runs.0.1 main_runs.1

file-IsProper : IsProper file
unfolding tools
file-IsProper = ((refl, tt), (((refl, tt), (tt, tt)), tt))

find_b64_paths-LeadsToText_example :
    All
      (λ p. (s : String) × (get_at_path {M = Failure} file p ≡ ok (str s)))
      (find_b64_paths file [])
find_b64_paths-LeadsToText_example = find_b64_paths-LeadsToText Failure file file-IsProper

mutate_bytes-AreBytes_example :
    AreBytes (mutate_bytes machine.random_byte (0 ∷ 1 ∷ 2 ∷ []) 7 0).0
    × (length (mutate_bytes machine.random_byte (0 ∷ 1 ∷ 2 ∷ []) 7 0).0 ≤ max 4 32)
mutate_bytes-AreBytes_example =
    mutate_bytes-AreBytes machine.random_byte (λ k. omega arith) (0 ∷ 1 ∷ 2 ∷ []) 7 0
      (omega arith, (omega arith, (omega arith, tt)))

mutate_bytes-ne_example : (mutate_bytes machine.random_byte (0 ∷ 1 ∷ 2 ∷ []) 3 0).0 ≢ 0 ∷ 1 ∷ 2 ∷ []
mutate_bytes-ne_example =
    mutate_bytes-ne machine.random_byte 0 (1 ∷ 2 ∷ []) 3 0
      (omega arith, (omega arith, (omega arith, tt))) (omega arith)

abbrev slug_runs : (r : List ℕ × World) × (detect_repo_slug machine "" fresh ≡ ok r)
unfolding tools
slug_runs = (_, refl)

detect_repo_slug-has_slash_example : has_slash slug_runs.0.0 ≡ true
detect_repo_slug-has_slash_example =
    detect_repo_slug-has_slash machine "" fresh slug_runs.0.0 slug_runs.0.1 slug_runs.1

slug_of_ssh : slug_of_url (codes "git@github.com:owner/repo.git") ≡ codes "owner/repo"
unfolding tools
slug_of_ssh = refl

case_named : case_name "conformance/vectors/e2e/POS-E2E-001.json" 7 102 ≡ "FZ-POS-E2E-001-07-102"
unfolding tools
case_named = refl

candidate : replace_rc1 (codes "repo-rc-v0.4.0-rc1") ≡ codes "repo-rc-v0.4.0-rc2"
unfolding tools
candidate = refl

count_of-verdict_counts_example :
    count_of "INTENTIONALLY_REJECTED" (verdict_counts fuzz_result.0.cases [])
    ≡ occurrences "INTENTIONALLY_REJECTED" fuzz_result.0.cases
count_of-verdict_counts_example =
    count_of-verdict_counts "INTENTIONALLY_REJECTED" fuzz_result.0.cases
