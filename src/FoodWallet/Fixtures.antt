-- ===== src/FoodWallet/Fixtures.antt =====
-- The directory of fixtures: `validate_fixture` and `validate_fixtures`.
use grain_protocol.Base.{
  ℕ, ◌≡◌, refl, ◌↔◌, sym, subst, String, Bool, Option, some, List, ◌<>◌, keys, ok, >>=_iff, >>_iff,
  unit-Accepts, Accepts, Option-cases, inl, inr,
}
use grain_protocol.Base.Text.{sorted}
use grain_protocol.Json.{str, obj, Fields, get}
use grain_protocol.Report.{Files, JsonFile, missing, malformed, parsed}
use grain_protocol.Report.Laws.{require_equal-str}
use grain_protocol.FoodWallet.{
  fixture_schema, expected_fixtures, validate_kind, remove_suffix, validate_fixture, validate_each,
  validate_fixtures,
}
use grain_protocol.FoodWallet.Checks.{load_json}
use grain_protocol.FoodWallet.Draft.{
  IsDraft, IsCandidate, IsOffer, validate_draft_iff, validate_candidate_iff, validate_offer_iff,
}
use grain_protocol.FoodWallet.Summary.{IsSafeSummary, fields-Accepts, validate_safe_summary_iff}
use grain_protocol.FoodWallet.Clean.{AreCleanFields, reject_forbidden_raw_material_iff}

load_json_iff :
    (files : Files) (path : String) (fs : Fields)
    → (load_json files path ≡ ok fs) ↔ (files.json path ≡ parsed (obj fs))
unfolding load_json
load_json_iff files path fs = go (files.json path) refl
  where
    go :
        (f : JsonFile)
        → files.json path ≡ f
        → (load_json files path ≡ ok fs) ↔ (files.json path ≡ parsed (obj fs))
    go missing e = rw e (λ h. cc, λ h. cc)
    go malformed e = rw e (λ h. cc, λ h. cc)
    go (parsed (obj gs)) e = rw e (λ h. cc, λ h. cc)
    go (parsed _) e = rw e (λ h. cc, λ h. cc)

module _ (is_wide_word : ℕ → Bool) (files : Files) (directory : String) where
  -- A file of the directory that holds no raw material and is a fixture of its kind and its name.
  abbrev pub IsFixture : String → String → (Fields → Type 0) → Type 0
  IsFixture name kind Holds =
      (fixture : Fields) × (files.json ((directory <> "/") <> name) ≡ parsed (obj fixture))
      × (AreCleanFields is_wide_word fixture
          × ((get fixture "schema" ≡ str fixture_schema)
              × ((get fixture "kind" ≡ str kind)
                  × ((get fixture "fixture_id" ≡ str (remove_suffix ".json" name))
                      × Holds fixture))))

  validate_fixture-Accepts :
      (name kind : String) (Holds : Fields → Type 0)
      → ((fixture : Fields) → (validate_kind fixture name kind ≡ ok tt) ↔ Holds fixture)
      → Accepts
          (validate_fixture is_wide_word files directory name kind)
          (IsFixture name kind Holds)
  unfolding validate_fixture
  validate_fixture-Accepts name kind Holds held = unit-Accepts _ (
      >>=_iff _ _ tt (load_json_iff files _) (λ fixture.
        >>_iff _ _ tt (unit-Accepts _ (reject_forbidden_raw_material_iff is_wide_word fixture _)) (
          >>_iff _ _ tt (require_equal-str _ _ _ _) (
            >>_iff _ _ tt (require_equal-str _ _ _ _)
              (>>_iff _ _ tt (require_equal-str _ _ _ _) (held fixture))))))

  -- The four fixtures that the directory has to hold.
  abbrev pub AreFixtures : Type 0
  AreFixtures =
      IsFixture "food-wallet-fake-photo-estimate.v1.json" "fake_photo_estimate"
        (λ fixture. IsCandidate (get fixture "candidate"))
      × (IsFixture "food-wallet-verified-qr-draft.v1.json" "verified_qr_draft"
            (λ fixture. IsOffer (get fixture "offer") × IsDraft (get fixture "draft") "verified")
          × (IsFixture "food-wallet-self-issued-draft.v1.json" "self_issued_draft"
                (λ fixture. IsDraft (get fixture "draft") "self_issued")
              × (IsFixture "food-wallet-safe-summary.v1.json" "safe_summary_export"
                    (λ fixture. IsSafeSummary (get fixture "summary"))
                  × Unit {0})))

  validate_each_iff :
      (validate_each is_wide_word files directory expected_fixtures ≡ ok tt) ↔ AreFixtures
  unfolding validate_each validate_kind
  validate_each_iff =
      >>_iff _ _ tt (validate_fixture-Accepts _ _ _ (λ fixture. validate_candidate_iff _ _)) (
        >>_iff _ _ tt
          (validate_fixture-Accepts _ _ _ (λ fixture.
            >>_iff _ _ tt (unit-Accepts _ (validate_offer_iff _ _)) (validate_draft_iff _ _ _ _)))
          (>>_iff _ _ tt (validate_fixture-Accepts _ _ _ (λ fixture. validate_draft_iff _ _ _ _)) (
            >>_iff _ _ tt
              (validate_fixture-Accepts _ _ _ (λ fixture. validate_safe_summary_iff _ _))
              (λ h. tt, λ h. refl))))

  -- The directory passes exactly when it is there, the matching names in it are the expected ones, and
  -- each of the four files is a fixture of its kind without raw material.
  pub validate_fixtures_iff :
      (listing : String → Option (List String))
      → (validate_fixtures is_wide_word files listing directory ≡ ok tt) ↔ (
          (names : List String) × (listing directory ≡ some names)
          × ((sorted names ≡ sorted (keys expected_fixtures)) × AreFixtures))
  unfolding validate_fixtures
  validate_fixtures_iff listing = elim (Option-cases (listing directory)) [
    | inl absent ↦ rw (validate_fixtures, absent) (λ h. cc, λ h. cc)
    | inr (found, there) ↦
        let steps =
          >>_iff _ _ tt (fields-Accepts (sorted found) (sorted (keys expected_fixtures)) _ _)
            validate_each_iff in
        rw (validate_fixtures, there)
          (
            λ h. (found, refl, steps.0 h),
            λ (names, same, (sort, are)).
                let e : found ≡ names = cc in
                steps.1 (subst (λ l. sorted l ≡ sorted (keys expected_fixtures)) (sym e) sort, are),
          )
  ]
