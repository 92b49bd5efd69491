-- ===== src/Stabilization/Reproduction.antt =====
-- `run_repro_check` of tools/stabilization/run_rc_stab.py: the evidence of the baseline is made once
-- more in a clean clone. How the removal of the clone ends is an argument.
use grain_protocol.Base.{
  ℕ, String, str_eq, Bool, true, false, Option, none, some, List, [], ◌∷◌, ◌++◌, if◌then◌else◌,
  index_error, decode_error,
}
use grain_protocol.Base.Int.{ℤ}
use grain_protocol.Base.Text.{codes, codes_eq, is_space, strip}
use grain_protocol.Json.{Value, null}
use grain_protocol.Report.{JsonFile, missing, malformed, parsed}
use grain_protocol.Stabilization.Campaign.{
  Machine, Action, pure, raise, ◌>>=◌, lift_result, run_completed, certify, in_clone, shell,
  succeeded, is_line_break, output_get,
}
use grain_protocol.Stabilization.Repository.{git_commit_rev_parse}

-- How `shutil.rmtree` leaves the directory: it was not there, it is removed, or an exception of the
-- named type, with its errno.
pub data Removal : Type 0 where
  absent removed : Removal
  refused : String → Option ℤ → Removal

pub record Cleanup : Type 0 where
  pub status : String
  pub root_path : Option String
  pub error_type : Option String
  pub errno : Option ℤ

abbrev pub not_run : Cleanup
not_run = record { status = "not_run"; root_path = none; error_type = none; errno = none }

abbrev pub cleaned : String → Cleanup
cleaned path = record { status = "ok"; root_path = some path; error_type = none; errno = none }

-- `safe_rmtree`: no exception leaves it.
unfoldable pub safe_rmtree : String → Removal → Cleanup
safe_rmtree path absent = cleaned path
safe_rmtree path removed = cleaned path
safe_rmtree path (refused error_type errno) = record {
  status = "failed";
  root_path = some path;
  error_type = some error_type;
  errno = errno;
}

pub record Repro : Type 0 where
  pub executed : Bool
  pub success : Bool
  pub error : Option String
  pub baseline_commit : List ℕ
  pub return_code : Option ℤ
  pub observed : Option (List ℕ)
  pub node_version : Value
  pub cleanup : Cleanup

abbrev pub skipped : Repro
skipped = record {
  executed = false;
  success = false;
  error = none;
  baseline_commit = [];
  return_code = none;
  observed = none;
  node_version = null;
  cleanup = not_run;
}

-- A report that stops at an error.
abbrev pub stopped : String → List ℕ → Option ℤ → Repro
stopped error commit return_code = record {
  executed = true;
  success = false;
  error = some error;
  baseline_commit = commit;
  return_code = return_code;
  observed = none;
  node_version = null;
  cleanup = not_run;
}

abbrev pub with_cleanup : Cleanup → Repro → Repro
with_cleanup cleanup report = record {
  executed = report.executed;
  success = report.success;
  error = report.error;
  baseline_commit = report.baseline_commit;
  return_code = report.return_code;
  observed = report.observed;
  node_version = report.node_version;
  cleanup = cleanup;
}

-- `text.splitlines()[0]`.
unfoldable pub line_from : List ℕ → List ℕ
line_from [] = []
line_from (c ∷ s) = let rest = c ∷ line_from s in if is_line_break c then [] else rest

abbrev pub first_line : List ℕ → Option (List ℕ)
first_line [] = none
first_line (c ∷ s) = some (line_from (c ∷ s))

-- The words of `line.split()`, with the one that is being read.
abbrev pub close_word : List ℕ → List (List ℕ) → List (List ℕ)
close_word [] words = words
close_word (c ∷ word) words = (c ∷ word) ∷ words

unfoldable pub split_words : List ℕ → List ℕ → List (List ℕ)
split_words word [] = close_word word []
split_words word (c ∷ s) =
    let next = split_words [] s in
    let longer = split_words (word ++ (c ∷ [])) s in
    if is_space c then close_word word next else longer

-- `parts[1] if len(parts) > 1 else ""`.
abbrev pub second_word : List (List ℕ) → List ℕ
second_word (a ∷ b ∷ words) = b
second_word words = []

abbrev pub evidence_path : String
evidence_path = "artifacts/interop-repro/evidence.sha256"

abbrev pub inputs_path : String
inputs_path = "artifacts/interop-repro/inputs-hashes.json"

module _ (machine : Machine) where
  abbrev pub node_version_of : JsonFile → Action Value
  node_version_of missing = pure null
  node_version_of malformed = raise decode_error
  node_version_of (parsed v) = lift_result (output_get v "node_version" null)

  abbrev pub compare_line : String → List ℕ → ℤ → Option (List ℕ) → Action Repro
  compare_line baseline_sha commit return_code none = raise index_error
  compare_line baseline_sha commit return_code (some line) = do
    let seen = second_word (split_words [] (strip line))
    node_version ← node_version_of (machine.json inputs_path)
    pure (record {
      executed = true;
      success = codes_eq seen (codes baseline_sha);
      error = none;
      baseline_commit = commit;
      return_code = some return_code;
      observed = some seen;
      node_version = node_version;
      cleanup = not_run;
    })

  abbrev pub compare_evidence : String → List ℕ → ℤ → Option String → Action Repro
  compare_evidence baseline_sha commit return_code none =
      pure (stopped "missing_evidence_sha" commit (some return_code))
  compare_evidence baseline_sha commit return_code (some evidence) =
      compare_line baseline_sha commit return_code (first_line (codes evidence))

  abbrev pub certify_clone : String → List ℕ → Action Repro
  certify_clone baseline_sha commit = do
    cert ← run_completed machine (certify commit)
    if succeeded machine cert
        then compare_evidence baseline_sha commit cert.return_code (machine.text_of evidence_path)
        else pure (stopped "interop_certify_failed" commit (some cert.return_code))

  abbrev pub check_out : String → String → List ℕ → Action Repro
  check_out baseline_tag baseline_sha commit = do
    c ← run_completed machine (in_clone ("git" ∷ "checkout" ∷ baseline_tag ∷ []))
    if succeeded machine c
        then certify_clone baseline_sha commit
        else pure (stopped "checkout_failed" commit none)

  -- The body of the `try` statement.
  unfoldable pub reproduce : String → String → List ℕ → Action Repro
  reproduce baseline_tag baseline_sha commit = do
    c ← run_completed machine (shell ("git" ∷ "clone" ∷ "--quiet" ∷ "{ROOT}" ∷ "{clone}" ∷ []))
    if succeeded machine c
        then check_out baseline_tag baseline_sha commit
        else pure (stopped "clone_failed" commit none)

  -- `temp` is the directory that `tempfile.mkdtemp` makes. An exception of the body is raised again
  -- after the directory is removed.
  abbrev pub run_deep : String → String → String → Removal → Action Repro
  run_deep baseline_tag baseline_sha temp removal = do
    commit ← git_commit_rev_parse machine baseline_tag
    report ← reproduce baseline_tag baseline_sha commit
    pure (with_cleanup (safe_rmtree temp removal) report)

  unfoldable pub run_repro_check : String → String → String → String → Removal → Action Repro
  run_repro_check mode baseline_tag baseline_sha temp removal =
      if str_eq mode "deep" then run_deep baseline_tag baseline_sha temp removal else pure skipped
