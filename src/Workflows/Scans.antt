-- ===== src/Workflows/Scans.antt =====
-- What an accepted fixture of a scan expects of the store.
use grain_protocol.Base.{
  ◌≡◌, refl, ◌↔◌, ◌⊎◌, ◌∙◌, ap, sym, subst, String, Bool, true, false, not, ◌&&◌, List, [], ◌∷◌,
  Result, ok, require, ◌>>◌, >>=-eq-ok, require->>-eq-ok, ok-injective, inl, inr, and_parts,
  contains, Accepts, require-Accepts, unit-Accepts, unit_iff, >>_iff,
}
use grain_protocol.Base.Int.{ℤ, pos, eqb_ℤ, ltb_ℤ}
use grain_protocol.Json.{Value, int, str, arr, obj, Fields, get, get_or, has_key, in_set, py_eq}
use grain_protocol.Json.Equality.{py_eq-str_iff, OneOf}
use grain_protocol.Report.{parsed}
use grain_protocol.Workflows.{validate_fixture}
use grain_protocol.Workflows.References.{Message, Repo}
use grain_protocol.Workflows.Input.{when, is_subset, has_keys, require_in, allowed_handoff_source}
use grain_protocol.Workflows.Suite.{validate_fixture-Checked}
use grain_protocol.Workflows.Expect.{
  allowed_status, allowed_expect, workflow_status, presence_fields, count_fields, check_status,
  check_presence, check_counts, check_expect,
}
use grain_protocol.Workflows.Kinds.{
  is, leaves, check_scan_preview, check_scan_accept, check_scan_handoff, check_kind,
}

when-Accepts {ℓ} :
    {P : Type ℓ} (b : Bool) (step : Result Message (Unit {0}))
    → Accepts step P
    → Accepts (when b step) (b ≡ true → P)
when-Accepts true step p = (λ h e. p.0 h, λ h. p.1 (h refl))
when-Accepts false step p = (λ h e. cc, λ h. (tt, refl))

test-Accepts : (b : Bool) (m : Message) → Accepts (require b m) (b ≡ true)
test-Accepts b m = require-Accepts b m (λ h. h, λ h. h)

tests-Accepts :
    (b c : Bool) (m n : Message) → Accepts (require b m >> require c n) ((b ≡ true) × (c ≡ true))
tests-Accepts b c m n =
    unit-Accepts _ (>>_iff _ _ tt (test-Accepts b m) (unit_iff _ (test-Accepts c n)))

-- The scan is expected to leave the store as it is, and no record in it.
abbrev pub KeepsStore : Fields → Type 0
KeepsStore expect =
    (get expect "store_mutation" ≡ str "none")
    × (py_eq (get expect "accepted_record_count") (int (pos 0)) ≡ true)

leaves-KeepsStore : (expect : Fields) → leaves expect "none" 0 ≡ true → KeepsStore expect
leaves-KeepsStore expect h =
    let (mutation, count) = and_parts (is (get expect "store_mutation") "none") _ h in
    ((py_eq-str_iff _ "none").0 mutation, count)

is_str_refl : (v : Value) (s : String) → v ≡ str s → is v s ≡ true
is_str_refl v s e = (py_eq-str_iff v s).1 e

-- The conditions on an accepted scan, by its status.
abbrev pub ScanAccept : Fields → Value → ℤ → Type 0
ScanAccept expect status accept_attempts =
    (has_keys expect ("cose_b64" ∷ "store_mutation" ∷ "accepted_record_count" ∷ []) ≡ true)
    × ((has_key expect "accepted_record_count" ≡ true)
        × ((is status "Accepted" ≡ true
              → (eqb_ℤ accept_attempts (pos 1) ≡ true)
                × (is (get expect "store_mutation") "accepted_scan_inserted" ≡ true))
            × ((is status "AlreadyAccepted" ≡ true
                  → (not (ltb_ℤ accept_attempts (pos 2)) ≡ true)
                    × (leaves expect "accepted_scan_inserted" 1 ≡ true))
                × (is status "Rejected" ≡ true → leaves expect "none" 0 ≡ true))))

check_scan_accept_iff :
    (expect : Fields) (status : Value) (tries : ℤ) (path : String)
    → (check_scan_accept expect status tries path ≡ ok tt) ↔ ScanAccept expect status tries
unfolding check_scan_accept
check_scan_accept_iff expect status tries path = >>_iff _ _ tt (test-Accepts _ _) (
    >>_iff _ _ tt (test-Accepts _ _) (
      >>_iff _ _ tt (when-Accepts _ _ (tests-Accepts _ _ _ _)) (
        >>_iff _ _ tt (when-Accepts _ _ (tests-Accepts _ _ _ _))
          (unit_iff _ (when-Accepts _ _ (test-Accepts _ _))))))

-- A handoff uses a trust anchor of a bundle, and leaves no record or one.
abbrev pub ScanHandoff : Fields → Fields → Value → Type 0
ScanHandoff input_obj expect status =
    (has_keys expect
        ("cose_b64" ∷ "store_mutation" ∷ "accepted_record_count" ∷ "handoff_source" ∷ [])
      ≡ true)
    × (((has_key input_obj "trust_anchor_bundle_ref" && has_key input_obj "trust_anchor_id") ≡ true)
        × (OneOf allowed_handoff_source (get expect "handoff_source")
            × ((py_eq (get_or input_obj "handoff_source" (str "manual_entry"))
                    (get expect "handoff_source")
                  ≡ true)
                × ((is status "Rejected" ≡ true → leaves expect "none" 0 ≡ true)
                    × (not (is status "Rejected") ≡ true
                        → leaves expect "accepted_scan_inserted" 1 ≡ true)))))

require_in-Accepts :
    (v : Value) (names : List String) (m : Message) → Accepts (require_in v names m) (OneOf names v)
unfolding require_in in_set
require_in-Accepts (str s) names m = require-Accepts _ m (
  λ h. (s, refl, h),
  λ (t, e, h). let same : t ≡ s = cc in subst (λ x. contains names x ≡ true) same h,
)
require_in-Accepts (arr vs) names m = (λ h. cc (h.1), λ (t, e, h). cc)
require_in-Accepts (obj fs) names m = (λ h. cc (h.1), λ (t, e, h). cc)
require_in-Accepts _ names m = (λ h. cc (h.1), λ (t, e, h). cc)

check_scan_handoff_iff :
    (input_obj expect : Fields) (status : Value) (path : String)
    → (check_scan_handoff input_obj expect status path ≡ ok tt)
      ↔ ScanHandoff input_obj expect status
unfolding check_scan_handoff
check_scan_handoff_iff input_obj expect status path = >>_iff _ _ tt (test-Accepts _ _) (
    >>_iff _ _ tt (test-Accepts _ _) (
      >>_iff _ _ tt (require_in-Accepts (get expect "handoff_source") allowed_handoff_source _) (
        >>_iff _ _ tt (test-Accepts _ _) (
          >>_iff _ _ tt (when-Accepts _ _ (test-Accepts _ _))
            (unit_iff _ (when-Accepts _ _ (test-Accepts _ _)))))))

pub when-run :
    (b : Bool) (step : Result Message (Unit {0})) {u : Unit {0}}
    → when b step ≡ ok u
    → b ≡ true
    → step ≡ ok tt
when-run true step {u} h there = h
when-run false step h there = cc

check_kind-KeepsStore :
    (workflow : Value) (input_obj expect : Fields) (status : Value) (tries : ℤ × ℤ) (path : String)
    → check_kind workflow input_obj expect status tries path ≡ ok tt
    → (workflow ≡ str "scan_accept") ⊎ (workflow ≡ str "scan_handoff")
    → status ≡ str "Rejected"
    → KeepsStore expect
unfolding check_kind
check_kind-KeepsStore workflow input_obj expect status tries path h scan rejected =
    let (u1, preview, h1) =
      >>=-eq-ok (when (is workflow "scan_preview") (check_scan_preview input_obj expect path)) _
        h in
    let (u2, accept, h2) =
      >>=-eq-ok (when (is workflow "scan_accept") (check_scan_accept expect status tries.0 path)) _
        h1 in
    let (u3, handoff, h3) =
      >>=-eq-ok
        (when (is workflow "scan_handoff") (check_scan_handoff input_obj expect status path)) _
        h2 in
    let at = is_str_refl status "Rejected" rejected in
    elim scan [
      | inl e ↦
          let run = when-run _ _ accept (is_str_refl workflow "scan_accept" e) in
          let (k1, (k2, (k3, (k4, kept)))) =
            (check_scan_accept_iff expect status tries.0 path).0 run in
          leaves-KeepsStore expect (kept at)
      | inr e ↦
          let run = when-run _ _ handoff (is_str_refl workflow "scan_handoff" e) in
          let (k1, (k2, (k3, (k4, (kept, k5))))) =
            (check_scan_handoff_iff input_obj expect status path).0 run in
          leaves-KeepsStore expect (kept at)
    ]

check_expect-eq-ok :
    (expect : Fields) (workflow : Value) (path : String) {status : Value}
    → check_expect expect workflow path ≡ ok status
    → get expect "status" ≡ status
unfolding check_expect
check_expect-eq-ok expect workflow path h =
    let (there, h1) = require->>-eq-ok (has_key expect "status") _ _ h in
    let (known, h2) = require->>-eq-ok (is_subset expect allowed_expect) _ _ h1 in
    let (u1, allowed, h3) = >>=-eq-ok (require_in (get expect "status") allowed_status _) _ h2 in
    let (u2, fits, h4) =
      >>=-eq-ok (check_status workflow (get expect "status") path workflow_status) _ h3 in
    let (u3, cose, h5) = >>=-eq-ok (when (has_key expect "cose_b64") _) _ h4 in
    let (u4, mutation, h6) = >>=-eq-ok (when (has_key expect "store_mutation") _) _ h5 in
    let (u5, present, h7) = >>=-eq-ok (check_presence expect path presence_fields) _ h6 in
    let (u6, counts, h8) = >>=-eq-ok (check_counts expect path count_fields) _ h7 in ok-injective h8

pub file_injective : {fs gs : Fields} → parsed (obj fs) ≡ parsed (obj gs) → fs ≡ gs
file_injective h = cc

pub obj_injective : {fs gs : Fields} → obj fs ≡ obj gs → fs ≡ gs
obj_injective h = cc

-- A fixture whose workflow is "scan_accept" or "scan_handoff", that is accepted and expects the status
-- "Rejected", expects that the store is not changed and that no record is in it.
pub rejected_fixture-KeepsStore :
    (repo : Repo) (path : String) (seen ids : List String) (fs expect : Fields)
    → validate_fixture repo path seen ≡ ok ids
    → repo.json path ≡ parsed (obj fs)
    → get fs "expect" ≡ obj expect
    → (get fs "workflow" ≡ str "scan_accept") ⊎ (get fs "workflow" ≡ str "scan_handoff")
    → get expect "status" ≡ str "Rejected"
    → KeepsStore expect
rejected_fixture-KeepsStore repo path seen ids fs expect h there is_expect scan rejected =
    let (
      gs,
      loaded,
      (i, n, (k, (input_obj, is_input, (tries, t, (found, is_found, (status, s, (kept, same))))))),
    ) =
      validate_fixture-Checked repo path seen h in
    let e : gs ≡ fs = file_injective (sym loaded ∙ there) in
    let found_same : found ≡ expect =
      obj_injective (sym is_found ∙ (ap (λ x. get x "expect") e ∙ is_expect)) in
    let at : status ≡ str "Rejected" =
      sym (check_expect-eq-ok found (get gs "workflow") path s)
      ∙ (ap (λ x. get x "status") found_same ∙ rejected) in
    let scan' =
      subst (λ x. (get x "workflow" ≡ str "scan_accept") ⊎ (get x "workflow" ≡ str "scan_handoff"))
        (sym e) scan in
    subst KeepsStore found_same
      (check_kind-KeepsStore (get gs "workflow") input_obj found status tries path kept scan' at)
