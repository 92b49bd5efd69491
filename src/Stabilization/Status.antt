-- ===== src/Stabilization/Status.antt =====
-- The exit status of the campaign.
use grain_protocol.Base.{
  ℕ, ◌==◌, ◌≡◌, ◌≢◌, refl, sym, subst, arith, ◌↔◌, ◌⊎◌, inl, inr, String, str_eq, Bool, true, false,
  ◌&&◌, Bool-cases, if◌then◌else◌, List, [], ◌∷◌, All, length, ok, and_parts, and_join, then_iff,
  join_iff, append-eq-nil_iff,
}
use grain_protocol.Stabilization.{
  Args, Before, build_or_raise, context_of, before_repro, after_repro, conclude, main,
}
use grain_protocol.Stabilization.Actions.{
  Returns, any-Returns, >>=-Returns, pure-Returns, bind-eq-ok,
}
use grain_protocol.Stabilization.Attacks.{IsBugFree, run_attack_matrix-eq-ok}
use grain_protocol.Stabilization.Campaign.{Machine, World, run_completed, shell, ◌>>=◌}
use grain_protocol.Stabilization.Fuzz.{FuzzCase, one_if, run_fuzz}
use grain_protocol.Stabilization.Matrix.{run_attack_matrix}
use grain_protocol.Stabilization.Outcome.{Evidence, unless_smoke}
use grain_protocol.Stabilization.PropertyTests.{run_properties}
use grain_protocol.Stabilization.Repository.{detect_repo_slug, git_rev_parse, git_commit_rev_parse}
use grain_protocol.Stabilization.Rehearsal.{Rollback, run_rollback_rehearsal}
use grain_protocol.Stabilization.Reproduction.{Repro, Removal, run_repro_check}
use grain_protocol.Stabilization.Tallies.{run_fuzz-IsTallied}
use grain_protocol.Stabilization.Recorded.{bugs_of}
use grain_protocol.Stabilization.Verdicts.{
  Verdict, found_bug, passed, intentionally_rejected, interesting_accept, is_found_bug,
}

abbrev pub IsNoBug : FuzzCase → Type 0
IsNoBug c = c.case_result.verdict ≢ found_bug

one_if-eq-nil_iff :
    (verdict : Verdict) (c : FuzzCase)
    → (one_if (is_found_bug verdict) c ≡ []) ↔ (verdict ≢ found_bug)
one_if-eq-nil_iff found_bug c = (λ h. cc, λ h. absurd (h refl))
one_if-eq-nil_iff passed c = (λ _ e. cc, λ _. refl)
one_if-eq-nil_iff intentionally_rejected c = (λ _ e. cc, λ _. refl)
one_if-eq-nil_iff interesting_accept c = (λ _ e. cc, λ _. refl)

bugs_of-eq-nil_iff : (cases : List FuzzCase) → (bugs_of cases ≡ []) ↔ All IsNoBug cases
bugs_of-eq-nil_iff [] = (λ h. tt, λ h. refl)
bugs_of-eq-nil_iff (c ∷ cases) =
    then_iff (append-eq-nil_iff (one_if (is_found_bug c.case_result.verdict) c) (bugs_of cases))
      (join_iff (one_if-eq-nil_iff c.case_result.verdict c) (bugs_of-eq-nil_iff cases))

length_iff : {A : Type 0} (xs : List A) → ((length xs == 0) ≡ true) ↔ (xs ≡ [])
length_iff [] = (λ h. refl, λ h. refl)
length_iff (x ∷ xs) = (λ h. absurd (ground arith), λ h. cc)

-- What holds before the reproduction: the findings stand for the rows and the cases.
IsCounted : Before → Type 0
IsCounted before =
    ((before.attack_findings ≡ []) ↔ All IsBugFree before.attack_rows)
    × ((before.tally.findings ≡ []) ↔ All IsNoBug before.tally.cases)

before_repro-IsCounted :
    (machine : Machine) (github_repository : String) (args : Args)
    → Returns (before_repro machine github_repository args) IsCounted
unfolding before_repro IsCounted
before_repro-IsCounted machine github_repository args =
    let ctx = context_of machine args in
    any-Returns (detect_repo_slug machine github_repository) _ (λ slug.
      any-Returns
        (run_completed machine
          (shell ("npm" ∷ "--prefix" ∷ "runner/typescript" ∷ "run" ∷ "build" ∷ "--silent" ∷ [])))
        _
        (λ ts_build. any-Returns (build_or_raise machine ts_build) _ (λ _.
          any-Returns (git_commit_rev_parse machine args.baseline_tag) _ (λ commit.
            >>=-Returns (run_attack_matrix ctx) _
              (λ w (rows, findings) v h. (run_attack_matrix-eq-ok ctx w rows findings v h).2)
              (λ (rows, findings) bug_free.
                >>=-Returns (run_fuzz ctx args.mode) _
                  (λ w tally v h. (run_fuzz-IsTallied ctx args.mode w tally v h).1)
                  (λ tally bugs. any-Returns (run_properties machine) _ (λ properties.
                    pure-Returns IsCounted _ (
                      bug_free,
                      subst (λ fs. (fs ≡ []) ↔ All IsNoBug tally.cases) (sym bugs)
                          (bugs_of-eq-nil_iff tally.cases),
                    ))))))))

-- All gates are open: no row and no case found a bug, both property tests passed, and beside a smoke run
-- the reproduction and the rehearsal succeeded.
abbrev pub Passes : Args → Before → Repro → Rollback → Type 0
Passes args before repro rollback =
    All IsBugFree before.attack_rows
    × All IsNoBug before.tally.cases
    × (before.properties.rust_pass ≡ true)
    × (before.properties.ts_pass ≡ true)
    × ((str_eq args.mode "smoke" ≡ true) ⊎ ((repro.success ≡ true) × (rollback.success ≡ true)))

and_iff {ℓ κ} :
    {P : Type ℓ} {Q : Type κ} (a b : Bool)
    → ((a ≡ true) ↔ P)
    → ((b ≡ true) ↔ Q)
    → ((a && b) ≡ true) ↔ (P × Q)
and_iff a b p q = then_iff (and_parts a b, λ h. and_join a b h.0 h.1) (join_iff p q)

itself : (b : Bool) → (b ≡ true) ↔ (b ≡ true)
itself b = (λ h. h, λ h. h)

unless_smoke_iff :
    (mode : String) (a b : Bool)
    → ((unless_smoke mode a && unless_smoke mode b) ≡ true)
      ↔ ((str_eq mode "smoke" ≡ true) ⊎ ((a ≡ true) × (b ≡ true)))
unless_smoke_iff mode a b = elim (Bool-cases (str_eq mode "smoke")) [
  | inl smoke ↦ (λ _. inl smoke, λ _. rw smoke refl)
  | inr deep ↦ rw deep (
      then_iff (and_iff a b (itself a) (itself b))
        (λ h. inr h, elim [ inl smoke ↦ cc | inr h ↦ h ]))
]

status_iff :
    (b : Bool)
    → (◌≡◌ {A = ℕ} (if str_eq (if b then "PASS" else "FAIL") "PASS" then 0 else 1) 0) ↔ (b ≡ true)
status_iff true = (λ _. refl, λ _. refl)
status_iff false = (λ h. cc, λ h. cc)

reports_iff :
    (r t : Bool) (mode : String) (a b : Bool)
    → (((r && t) && (unless_smoke mode a && unless_smoke mode b)) ≡ true)
      ↔ ((r ≡ true) × (t ≡ true) × ((str_eq mode "smoke" ≡ true) ⊎ ((a ≡ true) × (b ≡ true))))
reports_iff r t mode a b =
    then_iff (and_iff (r && t) _ (and_iff r t (itself r) (itself t)) (unless_smoke_iff mode a b))
      (λ ((h, k), rest). (h, k, rest), λ (h, k, rest). ((h, k), rest))

conclude_iff :
    (args : Args) (before : Before) (repro : Repro) (rollback : Rollback) (head : List ℕ)
    → IsCounted before
    → ((conclude args before repro rollback head).0 ≡ 0) ↔ Passes args before repro rollback
unfolding IsCounted
conclude_iff args before repro rollback head (rows, cases) = then_iff (status_iff _) (
    then_iff
      (and_iff _ _ (then_iff (length_iff before.attack_findings) rows) (
        and_iff _ _ (then_iff (length_iff before.tally.findings) cases) (
          reports_iff before.properties.rust_pass before.properties.ts_pass args.mode repro.success
            rollback.success)))
      (
        λ (a, (f, rest)). (a, f, rest.0, rest.1, rest.2),
        λ (a, f, r, t, reports). (a, (f, (r, t, reports))),
      ))

-- When the campaign returns, it has returned 0 exactly when all gates are open, where the rows and the
-- cases are those of the run itself, and the reports those of the evidence.
pub main-Passes :
    (machine : Machine) (github_repository : String) (args : Args) (temp : String)
    (removal : Removal) (w : World) (status : ℕ) (e : Evidence) (w' : World)
    → main machine github_repository args temp removal w ≡ ok ((status, e), w')
    → (before : Before) × (v : World) × (before_repro machine github_repository args w
        ≡ ok (before, v))
      × ((status ≡ 0) ↔ Passes args before e.repro e.rollback)
unfolding main
main-Passes machine github_repository args temp removal w status e w' h =
    let (before, v, at, rest) = bind-eq-ok (before_repro machine github_repository args) _ w h in
    let counted = before_repro-IsCounted machine github_repository args w before v at in
    (before, v, at, concluded before counted v _ w' rest)
  where
    concluded :
        (before : Before)
        → IsCounted before
        → Returns
            (run_repro_check machine args.mode args.baseline_tag args.baseline_sha temp removal
              >>= after_repro machine args before)
            (λ (result : ℕ × Evidence).
              (result.0 ≡ 0) ↔ Passes args before result.1.repro result.1.rollback)
    concluded before counted =
        any-Returns
          (run_repro_check machine args.mode args.baseline_tag args.baseline_sha temp removal) _
          (λ repro.
            any-Returns (run_rollback_rehearsal machine args.mode args.baseline_tag before.repo) _
              (λ rollback.
                any-Returns (git_rev_parse machine "HEAD") _ (λ head.
                  pure-Returns _ _ (conclude_iff args before repro rollback head counted))))
