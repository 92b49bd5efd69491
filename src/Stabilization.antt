-- ===== src/Stabilization.antt =====
-- tools/stabilization/run_rc_stab.py: the stabilization campaign of a release candidate. Its parts are
-- in the modules below, and its main here.
pub mod Campaign
pub mod Paths
pub mod Bytes
pub mod Updates
pub mod Found
pub mod Writing
pub mod Recorded
pub mod Mutations
pub mod Verdicts
pub mod Matrix
pub mod Names
pub mod FuzzVector
pub mod Fuzz
pub mod Repository
pub mod PropertyTests
pub mod Reproduction
pub mod Assets
pub mod Rehearsal
pub mod Counts
pub mod Outcome
pub mod Judging
mod Tests
pub mod Stable
pub mod Slugs
pub mod Counted
pub mod Status
pub mod Cleaning
pub mod Tallies
pub mod Built
pub mod Actions
pub mod Attacks
pub mod Evaluation
use grain_protocol.Base.{
  ℕ, ◌==◌, String, ◌<>◌, str_eq, Bool, true, false, Option, none, some, List, [], ◌∷◌, length,
  if◌then◌else◌, other, ◌+◌,
}
use grain_protocol.Base.Text.{codes}
use Campaign.{
  Machine, build_failed, Completed, Action, pure, raise, ◌>>=◌, ◌>>◌, run_completed, shell,
  succeeded,
}
use Fuzz.{FuzzCase, Tally, run_fuzz}
use Outcome.{Gates, gates_of, all_gates, cleanup_warnings, interesting_total, Evidence}
use Matrix.{Context, Row, Finding, run_attack_matrix}
use PropertyTests.{Properties, run_properties}
use Repository.{detect_repo_slug, git_rev_parse, git_commit_rev_parse}
use Reproduction.{Removal, Repro, run_repro_check}
use Rehearsal.{Rollback, run_rollback_rehearsal}

-- The options; `repo` is none where the default is taken.
pub record Args : Type 0 where
  pub mode : String
  pub out_dir : String
  pub baseline_tag : String
  pub baseline_sha : String
  pub rust_cmd : List String
  pub ts_cmd : List String
  pub repo : Option String

abbrev pub repo_or : List ℕ → Option String → List ℕ
repo_or slug none = slug
repo_or slug (some repo) = codes repo

-- What is known before the reproduction.
pub record Before : Type 0 where
  pub repo : List ℕ
  pub baseline_commit : List ℕ
  pub attack_rows : List Row
  pub attack_findings : List Finding
  pub tally : Tally
  pub properties : Properties

abbrev pub context_of : Machine → Args → Context
context_of machine args = record {
  rust_cmd = args.rust_cmd;
  ts_cmd = args.ts_cmd;
  minimized_dir = args.out_dir <> "/minimized-repros";
  machine = machine;
}

-- `main`, after its parts have run: the exit status and the evidence.
abbrev pub conclude : Args → Before → Repro → Rollback → List ℕ → ℕ × Evidence
conclude args before repro rollback head =
    let gates =
      gates_of args.mode before.attack_findings before.tally.findings before.properties repro
        rollback in
    let protocol_verdict = if all_gates gates then "PASS" else "FAIL" in
    (
      if str_eq protocol_verdict "PASS" then 0 else 1,
      record {
        mode = args.mode;
        verdict = protocol_verdict;
        protocol_verdict = protocol_verdict;
        repo_head = head;
        repo = before.repo;
        baseline_tag = args.baseline_tag;
        baseline_commit = before.baseline_commit;
        baseline_sha = args.baseline_sha;
        attack_matrix_total = length before.attack_rows;
        fuzz_total = length before.tally.cases;
        fuzz_findings = length before.tally.findings;
        fuzz_interesting = interesting_total before.tally.cases;
        minimized_repros = length before.tally.saved;
        gates = gates;
        cleanup_status = repro.cleanup.status;
        warnings = cleanup_warnings repro.cleanup;
        properties = before.properties;
        repro = repro;
        rollback = rollback;
      },
    )

module _ (machine : Machine) where
  abbrev pub build_or_raise : Completed → Action (Unit {0})
  build_or_raise c = if succeeded machine c then pure tt else raise (other build_failed)

  unfoldable pub before_repro : String → Args → Action Before
  before_repro github_repository args = do
    slug ← detect_repo_slug machine github_repository
    ts_build ←
        run_completed machine
          (shell ("npm" ∷ "--prefix" ∷ "runner/typescript" ∷ "run" ∷ "build" ∷ "--silent" ∷ []))
    build_or_raise ts_build
    commit ← git_commit_rev_parse machine args.baseline_tag
    (rows, findings) ← run_attack_matrix (context_of machine args)
    tally ← run_fuzz (context_of machine args) args.mode
    properties ← run_properties machine
    pure (record {
      repo = repo_or slug args.repo;
      baseline_commit = commit;
      attack_rows = rows;
      attack_findings = findings;
      tally = tally;
      properties = properties;
    })

  abbrev pub after_repro : Args → Before → Repro → Action (ℕ × Evidence)
  after_repro args before repro = do
    rollback ← run_rollback_rehearsal machine args.mode args.baseline_tag before.repo
    head ← git_rev_parse machine "HEAD"
    pure (conclude args before repro rollback head)

  -- `temp` is the directory of the clone, and `removal` how its removal ends.
  unfoldable pub main : String → Args → String → Removal → Action (ℕ × Evidence)
  main github_repository args temp removal = do
    before ← before_repro github_repository args
    repro ← run_repro_check machine args.mode args.baseline_tag args.baseline_sha temp removal
    after_repro args before repro
