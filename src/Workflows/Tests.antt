-- ===== src/Workflows/Tests.antt =====
-- A suite with one fixture of each workflow, and the theorems at it.
use grain_protocol.Base.{
  ℕ, ◌≡◌, refl, ◌↔◌, inl, inr, String, str_eq, true, false, if◌then◌else◌, List, [], ◌∷◌, contains,
  keys, lookup, all, All, length, ◌==◌, Option, none, some, ok, err, exit,
}
use grain_protocol.Base.Int.{pos}
use grain_protocol.Base.Text.{codes_eq, strip, sorted}
use grain_protocol.Json.{
  Value, int, str, bool, arr, obj, nil, cons, end, field, Fields, get, get_or, has_key, in_set,
  py_eq,
}
use grain_protocol.Report.{JsonFile, missing, parsed}
use grain_protocol.Base64.{decode}
use grain_protocol.Workflows.{
  allowed_workflow, as_object, as_text, file_name, drop_suffix, check_top_level, check_id,
  check_meta, validate_fixture, workflow_of, validate_fixtures, main,
}
use grain_protocol.Workflows.References.{
  said_value, said_key, Repo, load_json, some_letters, is_ref, is_trust_bundle_ref, split_ref,
  split_slash, replace_from, unescape, follow, resolve_ref, has_exactly, check_anchor,
  check_anchors, resolve_trust_anchor_bundle_ref,
}
use grain_protocol.Workflows.Input.{
  is_subset, has_keys, require_in, check_trust_keys, check_string, check_references, attempts,
  check_input,
}
use grain_protocol.Workflows.Expect.{
  check_status, check_presence, check_counts, extra_keys, check_expect, require_string_list,
  check_diag,
}
use grain_protocol.Workflows.Kinds.{
  check_scan_preview, check_scan_accept, check_scan_handoff, check_device_lifecycle, check_pairing,
  check_sync_bundle, check_store_snapshot, check_kind,
}
use grain_protocol.Workflows.Resolve.{Resolves, resolve_ref_iff}
use grain_protocol.Workflows.Suite.{AreNamed, AreFresh}
use grain_protocol.Workflows.Coverage.{main-eq-ok}
use grain_protocol.Workflows.Scans.{KeepsStore, rejected_fixture-KeepsStore}
use grain_protocol.Workflows.Lifecycle.{SetsNoTrust, unscanned_fixture-SetsNoTrust}

abbrev fixture : String → String → Fields → Fields → Fields
fixture fixture_id workflow input_obj expect = field "fixture_id" (str fixture_id) (
    field "workflow" (str workflow) (
      field "strict" (bool true) (
        field "input" (obj input_obj) (
          field "expect" (obj expect) (field "meta" (obj (field "desc" (str "a case") end)) end)))))

abbrev count : String → ℕ → Fields → Fields
count key n rest = field key (int (pos n)) rest

abbrev present : String → Fields → Fields
present key rest = field key (str "present") rest

abbrev silent : String → Fields → Fields
silent status rest = field "status" (str status) (field "diag" (arr nil) rest)

abbrev ref : Value
ref = str "conformance/vectors/qr/a.json#/input/qr~1string"

abbrev qr : Fields → Fields
qr rest = field "qr_string_ref" ref rest

abbrev trust : Fields
trust = qr (field "trust_pub_b64" (str "AAEC") end)

abbrev rejected_expect : Fields
rejected_expect = field "status" (str "Rejected") (
    field "diag_contains" (arr (cons (str "E_SIG") nil)) (
      field "cose_b64" (str "absent")
        (field "store_mutation" (str "none") (count "accepted_record_count" 0 end))))

abbrev rejected : Fields
rejected = fixture "b" "scan_accept" (qr end) rejected_expect

abbrev suite : List (String × Value)
suite =
    (
      "f/a.json",
      obj (
          fixture "a" "scan_preview" (qr end)
            (silent "Verified" (present "cose_b64" (field "store_mutation" (str "none") end)))),
    )
    ∷ ("f/b.json", obj rejected)
    ∷ (
      "f/c.json",
      obj (
          fixture "c" "scan_handoff"
            (field "trust_anchor_bundle_ref" (str "sdk/trust/fixtures/one.json")
              (field "trust_anchor_id" (str "root") end))
            (silent "Accepted" (
              present "cose_b64" (
                field "store_mutation" (str "accepted_scan_inserted") (
                  count "accepted_record_count" 1
                    (field "handoff_source" (str "manual_entry") end)))))),
    )
    ∷ (
      "f/d.json",
      obj (
          fixture "d" "device_lifecycle" end (
            silent "Ready" (
              present "root_kid" (
                present "active_ak" (
                  present "device_ak" (
                    count "device_count" 1 (
                      count "revoked_count" 0 (
                        count "accepted_record_count" 0
                          (count "lifecycle_event_count" 1 end))))))))),
    )
    ∷ (
      "f/e.json",
      obj (
          fixture "e" "pairing" end (
            silent "Paired" (
              present "root_kid"
                (present "pairing_id" (present "envelope_b64" (count "device_count" 2 end)))))),
    )
    ∷ (
      "f/g.json",
      obj (
          fixture "g" "sync_bundle" trust (
            silent "Imported" (
              present "bundle_b64" (
                count "accepted_record_count" 1
                  (count "device_count" 1 (count "lifecycle_event_count" 1 end)))))),
    )
    ∷ (
      "f/h.json",
      obj (
          fixture "h" "store_snapshot" trust (
            silent "Exported" (
              present "snapshot_b64" (
                count "accepted_record_count" 1
                  (count "device_count" 1 (count "lifecycle_event_count" 1 end)))))),
    )
    ∷ (
      "conformance/vectors/qr/a.json",
      obj (field "input" (obj (field "qr/string" (str "GR1") end)) end),
    )
    ∷ (
      "sdk/trust/fixtures/one.json",
      obj (
          field "bundle_v" (int (pos 1)) (
            field "anchors"
              (arr
                (cons (obj (field "id" (str "root") (field "trust_pub_b64" (str "AA==") end))) nil))
              end)),
    )
    ∷ []

abbrev file_of : Option Value → JsonFile
file_of none = missing
file_of (some v) = parsed v

abbrev find : String → List (String × Value) → Option Value
find path [] = none
find path ((name, v) ∷ rows) = if str_eq name path then some v else find path rows

abbrev repo : Repo
repo = record { json = λ path. file_of (find path suite); resolve = λ path. path }

abbrev paths : List String
paths =
    "f/a.json" ∷ "f/b.json" ∷ "f/c.json" ∷ "f/d.json" ∷ "f/e.json" ∷ "f/g.json" ∷ "f/h.json" ∷ []

json : Unit {0}
unfolding contains keys lookup all get get_or has_key in_set py_eq codes_eq strip sorted decode
json = tt

references : Unit {0}
unfolding json load_json some_letters is_ref is_trust_bundle_ref split_ref split_slash replace_from
    unescape follow resolve_ref has_exactly check_anchor check_anchors
    resolve_trust_anchor_bundle_ref
references = tt

checks : Unit {0}
unfolding references is_subset has_keys require_in check_trust_keys check_string check_references
    attempts check_input check_status check_presence check_counts extra_keys check_expect
    require_string_list check_diag check_scan_preview check_scan_accept check_scan_handoff
    check_device_lifecycle check_pairing check_sync_bundle check_store_snapshot check_kind
checks = tt

whole : Unit {0}
unfolding checks as_object as_text file_name drop_suffix check_top_level check_id check_meta
    validate_fixture workflow_of validate_fixtures main
whole = tt

reference_runs :
    (resolve_ref repo ref "f" ≡ ok "GR1")
    × (resolve_ref repo (str "conformance/vectors/../a.json#/x") "f"
        ≡ err (exit (said_value "f" "invalid ref" (str "conformance/vectors/../a.json#/x"))))
unfolding references
reference_runs = (refl, refl)

suite_runs :
    (main repo paths ≡ ok 7)
    × (validate_fixture repo "f/b.json" [] ≡ ok ("b" ∷ []))
    × (validate_fixture repo "f/b.json" ("b" ∷ [])
        ≡ err (exit (said_key "f/b.json" "duplicate fixture_id" "b")))
unfolding whole
suite_runs = (refl, refl, refl)

main-eq-ok_example :
    (7 ≡ length paths)
    × ((length paths == 0) ≡ false)
    × ((rows : List (String × String)) × AreNamed repo paths rows
        × (AreFresh [] rows × All (λ w. contains (keys rows) w ≡ true) allowed_workflow))
unfolding whole
main-eq-ok_example = main-eq-ok repo paths 7 refl

resolve_ref_iff_example : (resolve_ref repo ref "f" ≡ ok "GR1") ↔ Resolves repo ref "GR1"
resolve_ref_iff_example = resolve_ref_iff repo ref "f" "GR1"

rejected_fixture-KeepsStore_example : KeepsStore rejected_expect
unfolding whole
rejected_fixture-KeepsStore_example =
    rejected_fixture-KeepsStore repo "f/b.json" [] ("b" ∷ []) rejected rejected_expect refl refl
      refl (inl refl) refl

abbrev pairing_expect : Fields
pairing_expect = silent "Paired" (
    present "root_kid" (present "pairing_id" (present "envelope_b64" (count "device_count" 2 end))))

unscanned_fixture-SetsNoTrust_example : SetsNoTrust end
unfolding whole
unscanned_fixture-SetsNoTrust_example =
    unscanned_fixture-SetsNoTrust repo "f/e.json" [] ("e" ∷ [])
      (fixture "e" "pairing" end pairing_expect) end refl refl refl (inr refl)
