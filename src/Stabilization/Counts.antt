-- ===== src/Stabilization/Counts.antt =====
-- The counts that `write_fuzz_markdown` of tools/stabilization/run_rc_stab.py reports.
use grain_protocol.Base.{ℕ, suc, String, str_eq, List, [], ◌∷◌, if◌then◌else◌}
use grain_protocol.Stabilization.Fuzz.{FuzzCase}
use grain_protocol.Stabilization.Verdicts.{
  Verdict, passed, found_bug, intentionally_rejected, interesting_accept,
}

abbrev pub verdict_text : Verdict → String
verdict_text passed = "PASS"
verdict_text found_bug = "FOUND_BUG"
verdict_text intentionally_rejected = "INTENTIONALLY_REJECTED"
verdict_text interesting_accept = "INTERESTING_ACCEPT"

-- `counts[name] = counts.get(name, 0) + 1`.
unfoldable pub count_one : String → List (String × ℕ) → List (String × ℕ)
count_one name [] = (name, 1) ∷ []
count_one name ((k, n) ∷ counts) =
    let rest = (k, n) ∷ count_one name counts in if str_eq k name then (k, suc n) ∷ counts else rest

unfoldable pub verdict_counts : List FuzzCase → List (String × ℕ) → List (String × ℕ)
verdict_counts [] counts = counts
verdict_counts (c ∷ cases) counts =
    verdict_counts cases (count_one (verdict_text c.case_result.verdict) counts)
