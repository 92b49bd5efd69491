-- ===== src/Workflows/Lifecycle.antt =====
-- What an accepted fixture of a device's life cycle or of a pairing does not set.
use grain_protocol.Base.{
  ◌≡◌, ◌⊎◌, inl, inr, ◌∙◌, ap, sym, subst, String, true, false, not, List, ok, ◌>>◌, >>=-eq-ok,
  require->>-eq-ok, and_parts, not_iff, Bool-cases,
}
use grain_protocol.Base.Int.{ℤ}
use grain_protocol.Json.{Value, str, obj, Fields, get, has_key, in_set}
use grain_protocol.Json.Equality.{py_eq-str_iff}
use grain_protocol.Report.{parsed}
use grain_protocol.Workflows.{validate_fixture}
use grain_protocol.Workflows.References.{Repo, resolve_ref}
use grain_protocol.Workflows.Input.{
  allowed_input, qr_workflows, when, is_subset, check_trust_keys, check_string, check_references,
  check_input,
}
use grain_protocol.Workflows.Kinds.{
  is, sets_no_scan_input, check_scan_preview, check_scan_accept, check_scan_handoff,
  check_device_lifecycle, check_pairing, check_kind,
}
use grain_protocol.Workflows.Suite.{validate_fixture-Checked}
use grain_protocol.Workflows.Scans.{when-run, file_injective, obj_injective}

-- A bundle comes with the identity of an anchor.
check_references-anchored :
    (repo : Repo) (fs : Fields) (path : String) {u : Unit {0}}
    → check_references repo fs path ≡ ok u
    → has_key fs "trust_anchor_bundle_ref" ≡ true
    → has_key fs "trust_anchor_id" ≡ true
unfolding check_references
check_references-anchored repo fs path h there =
    let (u1, qr, h1) =
      >>=-eq-ok
        (when (has_key fs "qr_string_ref")
          (resolve_ref repo (get fs "qr_string_ref") path >> ok tt))
        _ h in
    let (u2, pub_ref, h2) =
      >>=-eq-ok
        (when (has_key fs "trust_pub_b64_ref")
          (resolve_ref repo (get fs "trust_pub_b64_ref") path >> ok tt))
        _ h1 in
    let (u3, key, h3) = >>=-eq-ok (check_string fs path "trust_pub_b64") _ h2 in
    let (u4, id, h4) = >>=-eq-ok (check_string fs path "trust_anchor_id") _ h3 in
    let run = when-run (has_key fs "trust_anchor_bundle_ref") _ h4 there in
    (require->>-eq-ok (has_key fs "trust_anchor_id") _ _ run).0

check_input-anchored :
    (repo : Repo) (fs : Fields) (workflow : Value) (path : String) {tries : ℤ × ℤ}
    → check_input repo fs workflow path ≡ ok tries
    → has_key fs "trust_anchor_bundle_ref" ≡ true
    → has_key fs "trust_anchor_id" ≡ true
unfolding check_input
check_input-anchored repo fs workflow path h there =
    let (known, h1) = require->>-eq-ok (is_subset fs allowed_input) _ _ h in
    let (u1, trust, h2) = >>=-eq-ok (check_trust_keys fs path) _ h1 in
    let (wants_qr, is_in, h3) = >>=-eq-ok (in_set workflow qr_workflows) _ h2 in
    let (u2, qr, h4) = >>=-eq-ok (when wants_qr _) _ h3 in
    let (u3, refs, h5) = >>=-eq-ok (check_references repo fs path) _ h4 in
    check_references-anchored repo fs path refs there

-- No code to scan and no trust material of any kind.
abbrev pub SetsNoTrust : Fields → Type 0
SetsNoTrust fs =
    (has_key fs "qr_string_ref" ≡ false)
    × ((has_key fs "trust_pub_b64_ref" ≡ false)
        × ((has_key fs "trust_pub_b64" ≡ false)
            × ((has_key fs "trust_anchor_id" ≡ false)
                × (has_key fs "trust_anchor_bundle_ref" ≡ false))))

SetsNoTrust-join :
    (fs : Fields)
    → sets_no_scan_input fs ≡ true
    → (has_key fs "trust_anchor_bundle_ref" ≡ true → has_key fs "trust_anchor_id" ≡ true)
    → SetsNoTrust fs
SetsNoTrust-join fs h anchored =
    let (a, rest) = and_parts (not (has_key fs "qr_string_ref")) _ h in
    let (b, rest') = and_parts (not (has_key fs "trust_pub_b64_ref")) _ rest in
    let (c, d) = and_parts (not (has_key fs "trust_pub_b64")) _ rest' in
    let no_id = (not_iff _).0 d in
    (
      (not_iff _).0 a,
      (
        (not_iff _).0 b,
        (
          (not_iff _).0 c,
          (
            no_id,
            elim (Bool-cases (has_key fs "trust_anchor_bundle_ref")) [
              | inl there ↦ cc (anchored there, no_id)
              | inr absent ↦ absent
            ],
          ),
        ),
      ),
    )

first_of_device :
    (input_obj expect : Fields) (path : String)
    → check_device_lifecycle input_obj expect path ≡ ok tt
    → sets_no_scan_input input_obj ≡ true
unfolding check_device_lifecycle
first_of_device input_obj expect path e = (require->>-eq-ok (sets_no_scan_input input_obj) _ _ e).0

first_of_pairing :
    (input_obj expect : Fields) (status : Value) (tries : ℤ) (path : String)
    → check_pairing input_obj expect status tries path ≡ ok tt
    → sets_no_scan_input input_obj ≡ true
unfolding check_pairing
first_of_pairing input_obj expect status tries path e =
    (require->>-eq-ok (sets_no_scan_input input_obj) _ _ e).0

check_kind-sets_no_scan_input :
    (workflow : Value) (input_obj expect : Fields) (status : Value) (tries : ℤ × ℤ) (path : String)
    → check_kind workflow input_obj expect status tries path ≡ ok tt
    → (workflow ≡ str "device_lifecycle") ⊎ (workflow ≡ str "pairing")
    → sets_no_scan_input input_obj ≡ true
unfolding check_kind
check_kind-sets_no_scan_input workflow input_obj expect status tries path h kind =
    let (u1, preview, h1) =
      >>=-eq-ok (when (is workflow "scan_preview") (check_scan_preview input_obj expect path)) _
        h in
    let (u2, accept, h2) =
      >>=-eq-ok (when (is workflow "scan_accept") (check_scan_accept expect status tries.0 path)) _
        h1 in
    let (u3, handoff, h3) =
      >>=-eq-ok
        (when (is workflow "scan_handoff") (check_scan_handoff input_obj expect status path)) _
        h2 in
    let (u4, device, h4) =
      >>=-eq-ok
        (when (is workflow "device_lifecycle") (check_device_lifecycle input_obj expect path)) _
        h3 in
    let (u5, pair, h5) =
      >>=-eq-ok (when (is workflow "pairing") (check_pairing input_obj expect status tries.0 path))
        _ h4 in
    elim kind [
      | inl e ↦
          first_of_device input_obj expect path
            (when-run _ _ device ((py_eq-str_iff workflow "device_lifecycle").1 e))
      | inr e ↦
          first_of_pairing input_obj expect status tries.0 path
            (when-run _ _ pair ((py_eq-str_iff workflow "pairing").1 e))
    ]

-- A fixture of a device's life cycle or of a pairing that is accepted sets no code to scan and no trust
-- material, not even a bundle of anchors, of which its own rule does not speak.
pub unscanned_fixture-SetsNoTrust :
    (repo : Repo) (path : String) (seen ids : List String) (fs input_obj : Fields)
    → validate_fixture repo path seen ≡ ok ids
    → repo.json path ≡ parsed (obj fs)
    → get fs "input" ≡ obj input_obj
    → (get fs "workflow" ≡ str "device_lifecycle") ⊎ (get fs "workflow" ≡ str "pairing")
    → SetsNoTrust input_obj
unscanned_fixture-SetsNoTrust repo path seen ids fs input_obj h there is_input kind =
    let (
      gs,
      loaded,
      (i, n, (k, (found, is_found, (tries, read, (expect, e, (status, s, (kept, same))))))),
    ) =
      validate_fixture-Checked repo path seen h in
    let same_fs : gs ≡ fs = file_injective (sym loaded ∙ there) in
    let same_input : found ≡ input_obj =
      obj_injective (sym is_found ∙ (ap (λ x. get x "input") same_fs ∙ is_input)) in
    let kind' =
      subst (λ x. (get x "workflow" ≡ str "device_lifecycle") ⊎ (get x "workflow" ≡ str "pairing"))
        (sym same_fs) kind in
    subst SetsNoTrust same_input (
      SetsNoTrust-join found
        (check_kind-sets_no_scan_input (get gs "workflow") found expect status tries path kept
          kind')
        (check_input-anchored repo found (get gs "workflow") path read))
