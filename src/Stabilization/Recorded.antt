-- ===== src/Stabilization/Recorded.antt =====
-- What the fuzz campaign keeps of its cases: the findings, the paths that it returns and the files that
-- it writes.
use mathlib.Core.List.{append_assoc, append-nil}
use grain_protocol.Base.{
  ◌≡◌, ◌≢◌, ◌<>◌, sym, ap, subst, ◌∙◌, ok-injective, Result, String, List, [], ◌∷◌, ◌++◌, All, ok,
}
use grain_protocol.Json.{Value}
use grain_protocol.Stabilization.Built.{HasId}
use grain_protocol.Stabilization.Campaign.{Failure, World}
use grain_protocol.Stabilization.Fuzz.{FuzzCase, Tally, one_if, save}
use grain_protocol.Stabilization.Judging.{IsJudged}
use grain_protocol.Stabilization.Matrix.{Context}
use grain_protocol.Stabilization.Verdicts.{
  Verdict, passed, found_bug, intentionally_rejected, interesting_accept, is_found_bug, is_saved,
}

-- The cases that found a bug.
abbrev pub bugs_of : List FuzzCase → List FuzzCase
bugs_of [] = []
bugs_of (c ∷ cases) = one_if (is_found_bug c.case_result.verdict) c ++ bugs_of cases

-- How cases, findings, saved paths and written files grow together, case by case, from the files that
-- were there: a bug is a finding and its vector is written, an accept by both is written only, and of
-- any other case nothing is kept.
pub data Recorded (directory : String) (start : List (String × Value))
    : List FuzzCase → List FuzzCase → List String → List (String × Value) → Type 0 where
  at_start : Recorded directory start [] [] [] start
  bug_added :
      {cases bugs : List FuzzCase} {saved : List String} {written : List (String × Value)}
      (c : FuzzCase) (vector : Value)
      → c.case_result.verdict ≡ found_bug
      → HasId vector c.case_result.id
      → Recorded directory start cases bugs saved written
      → Recorded directory start
          (cases ++ (c ∷ []))
          (bugs ++ (c ∷ []))
          (saved ++ ((directory <> "/" <> c.case_result.id <> ".json") ∷ []))
          (((directory <> "/" <> c.case_result.id <> ".json"), vector) ∷ written)
  accept_added :
      {cases bugs : List FuzzCase} {saved : List String} {written : List (String × Value)}
      (c : FuzzCase) (vector : Value)
      → c.case_result.verdict ≡ interesting_accept
      → HasId vector c.case_result.id
      → Recorded directory start cases bugs saved written
      → Recorded directory start
          (cases ++ (c ∷ []))
          bugs
          (saved ++ ((directory <> "/" <> c.case_result.id <> ".json") ∷ []))
          (((directory <> "/" <> c.case_result.id <> ".json"), vector) ∷ written)
  other_added :
      {cases bugs : List FuzzCase} {saved : List String} {written : List (String × Value)}
      (c : FuzzCase)
      → c.case_result.verdict ≢ found_bug
      → c.case_result.verdict ≢ interesting_accept
      → Recorded directory start cases bugs saved written
      → Recorded directory start (cases ++ (c ∷ [])) bugs saved written

-- Every case has its verdict by its answers, the findings are the cases that found a bug, and the files
-- are recorded as the cases call for.
abbrev pub IsTallied : Context → List (String × Value) → Tally → List (String × Value) → Type 0
IsTallied ctx start tally written =
    All (λ c. IsJudged c.case_result) tally.cases
    × (tally.findings ≡ bugs_of tally.cases)
    × Recorded ctx.minimized_dir start tally.cases tally.findings tally.saved written

pub bugs_of-append :
    (cases : List FuzzCase) (c : FuzzCase)
    → bugs_of (cases ++ (c ∷ [])) ≡ bugs_of cases ++ one_if (is_found_bug c.case_result.verdict) c
bugs_of-append [] c = append-nil _
bugs_of-append (d ∷ cases) c =
    ap (λ xs. one_if (is_found_bug d.case_result.verdict) d ++ xs) (bugs_of-append cases c)
    ∙ sym (append_assoc (one_if (is_found_bug d.case_result.verdict) d) (bugs_of cases) _)

module _ (ctx : Context) (start : List (String × Value)) where
  abbrev pub IsRecorded : List FuzzCase → List FuzzCase → List String → World → Type 0
  IsRecorded cases bugs saved w = Recorded ctx.minimized_dir start cases bugs saved w.written

  nothing-Recorded :
      (tally : Tally) (row : FuzzCase) (w : World) (kept : List String) (w' : World)
      → row.case_result.verdict ≢ found_bug
      → row.case_result.verdict ≢ interesting_accept
      → ◌≡◌ {A = Result Failure (List String × World)} (ok ([], w)) (ok (kept, w'))
      → IsRecorded tally.cases tally.findings tally.saved w
      → IsRecorded (tally.cases ++ (row ∷ [])) (tally.findings ++ []) (tally.saved ++ kept) w'
  nothing-Recorded tally row w kept w' no_bug no_accept h recorded =
      subst
        (λ (x : List String × World).
          IsRecorded (tally.cases ++ (row ∷ [])) (tally.findings ++ []) (tally.saved ++ x.0) x.1)
        (ok-injective h)
        (rw (append-nil tally.findings, append-nil tally.saved)
          (other_added row no_bug no_accept recorded))

  -- What is saved under a verdict is what the verdict calls for.
  pub save-Recorded :
      (v : Verdict) (tally : Tally) (row : FuzzCase) (vector : Value) (w : World)
      (kept : List String) (w' : World)
      → row.case_result.verdict ≡ v
      → HasId vector row.case_result.id
      → save ctx (is_saved v) row.case_result.id vector w ≡ ok (kept, w')
      → IsRecorded tally.cases tally.findings tally.saved w
      → IsRecorded
          (tally.cases ++ (row ∷ []))
          (tally.findings ++ one_if (is_found_bug v) row)
          (tally.saved ++ kept)
          w'
  save-Recorded found_bug tally row vector w kept w' is_v id h recorded =
      subst
        (λ (x : List String × World).
          IsRecorded (tally.cases ++ (row ∷ [])) (tally.findings ++ (row ∷ [])) (tally.saved ++ x.0)
            x.1)
        (ok-injective h) (bug_added row vector is_v id recorded)
  save-Recorded interesting_accept tally row vector w kept w' is_v id h recorded =
      subst
        (λ (x : List String × World).
          IsRecorded (tally.cases ++ (row ∷ [])) (tally.findings ++ []) (tally.saved ++ x.0) x.1)
        (ok-injective h) (rw (append-nil tally.findings) (accept_added row vector is_v id recorded))
  save-Recorded passed tally row vector w kept w' is_v id h recorded =
      nothing-Recorded tally row w kept w' (λ e. cc) (λ e. cc) h recorded
  save-Recorded intentionally_rejected tally row vector w kept w' is_v id h recorded =
      nothing-Recorded tally row w kept w' (λ e. cc) (λ e. cc) h recorded
