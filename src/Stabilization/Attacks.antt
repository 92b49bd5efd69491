-- ===== src/Stabilization/Attacks.antt =====
-- The rows and the findings of the attack matrix.
use mathlib.Core.List.{append_assoc, append-nil}
use grain_protocol.Base.{
  ◌≡◌, ◌≢◌, refl, sym, ap, ◌∙◌, ◌↔◌, List, [], ◌∷◌, ◌++◌, All, ok, subst, then_iff, join_iff,
  append-eq-nil_iff,
}
use grain_protocol.Stabilization.Actions.{bind-eq-ok}
use grain_protocol.Stabilization.Campaign.{World}
use grain_protocol.Stabilization.Matrix.{
  Context, AttackCase, attack_cases, Row, Finding, finding_from, finding_of, attack, run_attacks,
  run_attack_matrix,
}
use grain_protocol.Stabilization.Verdicts.{
  RowReason, RowVerdict, row_passed, row_rejected, row_found_bug,
}

abbrev pub entries_of : List Row → List AttackCase
entries_of [] = []
entries_of (row ∷ rows) = row.entry ∷ entries_of rows

abbrev pub findings_of : List Row → List Finding
findings_of [] = []
findings_of (row ∷ rows) = finding_of row ++ findings_of rows

abbrev pub IsBugFree : Row → Type 0
IsBugFree row = (reason : RowReason) → row.verdict ≢ row_found_bug reason

-- What the loop adds to the rows and to the findings.
run_attacks-eq-ok :
    (ctx : Context) (entries : List AttackCase) (rows : List Row) (findings : List Finding)
    (w : World) {rows' : List Row} {findings' : List Finding} {w' : World}
    → run_attacks ctx entries rows findings w ≡ ok ((rows', findings'), w')
    → (new : List Row) × (rows' ≡ rows ++ new)
      × (findings' ≡ findings ++ findings_of new)
      × (entries_of new ≡ entries)
unfolding run_attacks
run_attacks-eq-ok ctx [] rows findings w h =
    ([], (cc) ∙ sym (append-nil rows), (cc) ∙ sym (append-nil findings), refl)
run_attacks-eq-ok ctx (entry ∷ entries) rows findings w h =
    let (verdict, v, _, rest) = bind-eq-ok (attack ctx entry) _ w h in
    let row : Row = record { entry = entry; verdict = verdict } in
    let (new, at_rows, at_findings, same) =
      run_attacks-eq-ok ctx entries (rows ++ (row ∷ [])) (findings ++ finding_of row) v rest in
    (
      row ∷ new,
      at_rows ∙ append_assoc rows (row ∷ []) new,
      at_findings ∙ append_assoc findings (finding_of row) (findings_of new),
      ap (λ es. entry ∷ es) same,
    )

finding_from-eq-nil_iff :
    (entry : AttackCase) (verdict : RowVerdict)
    → (finding_from entry verdict ≡ []) ↔ ((reason : RowReason) → verdict ≢ row_found_bug reason)
finding_from-eq-nil_iff entry row_passed = (λ _ _ e. cc, λ _. refl)
finding_from-eq-nil_iff entry row_rejected = (λ _ _ e. cc, λ _. refl)
finding_from-eq-nil_iff entry (row_found_bug reason) = (λ h. cc, λ h. absurd (h reason refl))

findings_of-eq-nil_iff : (rows : List Row) → (findings_of rows ≡ []) ↔ All IsBugFree rows
findings_of-eq-nil_iff [] = (λ h. tt, λ h. refl)
findings_of-eq-nil_iff (row ∷ rows) =
    then_iff (append-eq-nil_iff (finding_of row) (findings_of rows))
      (join_iff (finding_from-eq-nil_iff row.entry row.verdict) (findings_of-eq-nil_iff rows))

-- When the matrix is run to its end, there is one row for each case, in their order; the findings are
-- those of the rows that found a bug; and there is none exactly when no row found one.
pub run_attack_matrix-eq-ok :
    (ctx : Context) (w : World) (rows : List Row) (findings : List Finding) (w' : World)
    → run_attack_matrix ctx w ≡ ok ((rows, findings), w')
    → (entries_of rows ≡ attack_cases)
      × (findings ≡ findings_of rows)
      × ((findings ≡ []) ↔ All IsBugFree rows)
unfolding run_attack_matrix
run_attack_matrix-eq-ok ctx w rows findings w' h =
    let (new, at_rows, at_findings, same) = run_attacks-eq-ok ctx attack_cases [] [] w h in
    let same_findings : findings ≡ findings_of rows = at_findings ∙ ap findings_of (sym at_rows) in
    (
      ap entries_of at_rows ∙ same,
      same_findings,
      subst (λ fs. (fs ≡ []) ↔ All IsBugFree rows) (sym same_findings)
          (findings_of-eq-nil_iff rows),
    )
