-- ===== src/Stabilization/Outcome.antt =====
-- The gates of tools/stabilization/run_rc_stab.py: what `main` makes of the results of the parts.
use grain_protocol.Base.{
  ℕ, suc, ◌==◌, String, str_eq, Bool, true, false, ◌&&◌, Option, List, [], ◌∷◌, length,
  if◌then◌else◌,
}
use grain_protocol.Base.Int.{ℤ}
use grain_protocol.Stabilization.Fuzz.{FuzzCase}
use grain_protocol.Stabilization.Matrix.{Finding}
use grain_protocol.Stabilization.PropertyTests.{Properties}
use grain_protocol.Stabilization.Reproduction.{Repro, Cleanup}
use grain_protocol.Stabilization.Rehearsal.{Rollback}
use grain_protocol.Stabilization.Verdicts.{Verdict, interesting_accept}

pub record Gates : Type 0 where
  pub attack_matrix_pass : Bool
  pub fuzz_no_crash_or_divergence : Bool
  pub properties_pass : Bool
  pub repro_pass : Bool
  pub rollback_rehearsal_pass : Bool

-- `True if args.mode == "smoke" else bool(report.get("pass", False))`.
abbrev pub unless_smoke : String → Bool → Bool
unless_smoke mode success = if str_eq mode "smoke" then true else success

abbrev pub gates_of : String → List Finding → List FuzzCase → Properties → Repro → Rollback → Gates
gates_of mode attack_findings fuzz_findings properties repro rollback = record {
  attack_matrix_pass = length attack_findings == 0;
  fuzz_no_crash_or_divergence = length fuzz_findings == 0;
  properties_pass = properties.rust_pass && properties.ts_pass;
  repro_pass = unless_smoke mode repro.success;
  rollback_rehearsal_pass = unless_smoke mode rollback.success;
}

-- `all(gates.values())`.
abbrev pub all_gates : Gates → Bool
all_gates gates =
    gates.attack_matrix_pass
    && (gates.fuzz_no_crash_or_divergence
        && (gates.properties_pass && (gates.repro_pass && gates.rollback_rehearsal_pass)))

-- A warning STAB_CLEANUP_WARN.
pub record Warning : Type 0 where
  pub root_path : Option String
  pub error_type : Option String
  pub errno : Option ℤ

unfoldable pub cleanup_warnings : Cleanup → List Warning
cleanup_warnings cleanup =
    if str_eq cleanup.status "failed"
    then record {
      root_path = cleanup.root_path;
      error_type = cleanup.error_type;
      errno = cleanup.errno;
    }
      ∷ []
    else []

abbrev is_interesting : Verdict → Bool
is_interesting interesting_accept = true
is_interesting _ = false

unfoldable pub interesting_total : List FuzzCase → ℕ
interesting_total [] = 0
interesting_total (c ∷ cases) =
    let rest = interesting_total cases in
    if is_interesting c.case_result.verdict then suc rest else rest

-- The evidence, without the seed, the paths of the artifacts, the clock and the digests.
pub record Evidence : Type 0 where
  pub mode : String
  pub verdict : String
  pub protocol_verdict : String
  pub repo_head : List ℕ
  pub repo : List ℕ
  pub baseline_tag : String
  pub baseline_commit : List ℕ
  pub baseline_sha : String
  pub attack_matrix_total : ℕ
  pub fuzz_total : ℕ
  pub fuzz_findings : ℕ
  pub fuzz_interesting : ℕ
  pub minimized_repros : ℕ
  pub gates : Gates
  pub cleanup_status : String
  pub warnings : List Warning
  pub properties : Properties
  pub repro : Repro
  pub rollback : Rollback
