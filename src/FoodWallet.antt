-- ===== src/FoodWallet.antt =====
-- tools/ci/check_food_wallet_contract.py: the contract of the food wallet. The checks on values are in
-- FoodWallet/Checks, those on entries and drafts in FoodWallet/Shapes, the search for raw material in
-- FoodWallet/Privacy.
pub mod Checks
pub mod Privacy
pub mod Shapes
pub mod Entry
pub mod Draft
pub mod Summary
pub mod Forbidden
pub mod Material
pub mod Clean
pub mod Fixtures
mod Tests
use Prim.Native.String
use grain_protocol.Base.{
  ℕ, String, str_eq, Bool, true, false, not, ◌||◌, List, [], ◌∷◌, ◌++◌, ◌<>◌, keys, length,
  if◌then◌else◌, Result, ok, err, exit, require, ◌>>=◌, ◌>>◌, Option, none, some,
}
use grain_protocol.Base.Int.{pos}
use grain_protocol.Base.Text.{sorted, codes, lower, has_infix}
use grain_protocol.Json.{Value, int, str, arr, Items, nil, cons, Fields, texts, get, has_key, py_eq}
use grain_protocol.Report.{Detail, text, plus, Message, coded, require_equal, Files}
use Checks.{trust_status_values, source_class_values, load_json, as_dict, as_list}
use Privacy.{reject_forbidden_raw_material}
use Shapes.{
  allowed_summary_fields, validate_draft, validate_candidate, validate_offer, validate_safe_summary,
}

abbrev pub contract_schema : String
contract_schema = "grain.food-wallet.v1"

abbrev pub fixture_schema : String
fixture_schema = "grain.food-wallet.fixture.v1"

abbrev pub concept_names : List String
concept_names =
    "FoodIntakeEntry" ∷ "MealEstimateCandidate" ∷ "VerifiedServingOffer" ∷ "FoodIntakeDraft"
    ∷ "TrustStatus" ∷ "FoodSourceClass" ∷ "NutritionInsight" ∷ "SafeFoodSummary" ∷ []

abbrev pub forbidden_raw_material : List String
forbidden_raw_material =
    "raw_photo" ∷ "raw_image" ∷ "raw_trust_bundle" ∷ "raw_snapshot" ∷ "private_key"
    ∷ "raw_qr_payload" ∷ []

abbrev pub expected_fixtures : List (String × String)
expected_fixtures =
    ("food-wallet-fake-photo-estimate.v1.json", "fake_photo_estimate")
    ∷ ("food-wallet-verified-qr-draft.v1.json", "verified_qr_draft")
    ∷ ("food-wallet-self-issued-draft.v1.json", "self_issued_draft")
    ∷ ("food-wallet-safe-summary.v1.json", "safe_summary_export")
    ∷ []

-- `s in vs`, for a text in a list of values.
unfoldable pub holds_text : Items → String → Bool
holds_text nil s = false
holds_text (cons v vs) s = py_eq v (str s) || holds_text vs s

-- The loop over the concepts.
unfoldable pub require_concepts : Fields → Items → Fields → List String → Result Message (Unit {0})
require_concepts defs required properties [] = ok tt
require_concepts defs required properties (concept ∷ concepts) = do
  require (has_key defs concept) (coded "FOOD_WALLET_CONTRACT_ERR_CONCEPT_MISSING" (text concept))
  require (holds_text required concept)
      (coded "FOOD_WALLET_CONTRACT_ERR_CONCEPT_MISSING" (text concept))
  require (has_key properties concept)
      (coded "FOOD_WALLET_CONTRACT_ERR_CONCEPT_MISSING" (text concept))
  require_concepts defs required properties concepts

abbrev pub policy_code : String
policy_code = "FOOD_WALLET_CONTRACT_ERR_SAFE_POLICY"

unfoldable pub validate_schema : Fields → Result Message (Unit {0})
validate_schema schema = do
  properties ←
      as_dict (get schema "properties") "FOOD_WALLET_CONTRACT_ERR_PROPERTIES" (text "properties")
  schema_field ←
      as_dict (get properties "schema") "FOOD_WALLET_CONTRACT_ERR_SCHEMA" (text "properties.schema")
  require_equal (get schema_field "const") (str contract_schema) "FOOD_WALLET_CONTRACT_ERR_SCHEMA"
      (text "schema.const")
  version ←
      as_dict (get properties "version") "FOOD_WALLET_CONTRACT_ERR_VERSION"
        (text "properties.version")
  require_equal (get version "const") (int (pos 1)) "FOOD_WALLET_CONTRACT_ERR_VERSION"
      (text "version.const")
  defs ← as_dict (get schema "$defs") "FOOD_WALLET_CONTRACT_ERR_DEFS" (text "$defs")
  concepts ←
      as_dict (get properties "concepts") "FOOD_WALLET_CONTRACT_ERR_CONCEPTS"
        (text "properties.concepts")
  concept_required ←
      as_list (get concepts "required") "FOOD_WALLET_CONTRACT_ERR_CONCEPTS"
        (text "concepts.required")
  concept_properties ←
      as_dict (get concepts "properties") "FOOD_WALLET_CONTRACT_ERR_CONCEPTS"
        (text "concepts.properties")
  require_concepts defs concept_required concept_properties concept_names
  trust_status ←
      as_dict (get defs "TrustStatus") "FOOD_WALLET_CONTRACT_ERR_TRUST_STATUS" (text "TrustStatus")
  source_class ←
      as_dict (get defs "FoodSourceClass") "FOOD_WALLET_CONTRACT_ERR_SOURCE_CLASS"
        (text "FoodSourceClass")
  require_equal (get trust_status "enum") (arr (texts trust_status_values))
      "FOOD_WALLET_CONTRACT_ERR_TRUST_STATUS" (text "TrustStatus.enum")
  require_equal (get source_class "enum") (arr (texts source_class_values))
      "FOOD_WALLET_CONTRACT_ERR_SOURCE_CLASS" (text "FoodSourceClass.enum")
  policy ← as_dict (get properties "safe_summary_policy") policy_code (text "safe_summary_policy")
  policy_props ←
      as_dict (get policy "properties") policy_code (text "safe_summary_policy.properties")
  forbidden ←
      as_dict (get policy_props "forbidden_raw_material") policy_code
        (text "forbidden_raw_material")
  forbidden_items ←
      as_dict (get forbidden "items") policy_code (text "forbidden_raw_material.items")
  allowed ←
      as_dict (get policy_props "allowed_summary_fields") policy_code
        (text "allowed_summary_fields")
  allowed_items ← as_dict (get allowed "items") policy_code (text "allowed_summary_fields.items")
  require_equal (get forbidden_items "enum") (arr (texts forbidden_raw_material)) policy_code
      (text "forbidden_raw_material")
  require_equal (get allowed_items "enum") (arr (texts allowed_summary_fields)) policy_code
      (text "allowed_summary_fields")

-- A loop over texts that have to stand in a text.
unfoldable pub require_texts : List ℕ → String → List String → Result Message (Unit {0})
require_texts content code [] = ok tt
require_texts content code (value ∷ values) = do
  require (has_infix content (codes value)) (coded code (text value))
  require_texts content code values

-- The loop over the phrases, in lower case.
unfoldable pub require_phrases : List ℕ → List String → Result Message (Unit {0})
require_phrases content [] = ok tt
require_phrases content (phrase ∷ phrases) = do
  require (has_infix content (lower (codes phrase)))
      (coded "FOOD_WALLET_CONTRACT_ERR_README_PRIVACY_MISSING" (text phrase))
  require_phrases content phrases

unfoldable pub validate_readme : Files → String → Result Message (Unit {0})
validate_readme files path = elim (files.text_of path) [
  | none ↦ err (exit (coded "FOOD_WALLET_CONTRACT_ERR_README_MISSING" (text path)))
  | some content ↦ do
    require_texts (codes content) "FOOD_WALLET_CONTRACT_ERR_README_CONCEPT_MISSING" concept_names
    require_texts (codes content) "FOOD_WALLET_CONTRACT_ERR_README_VALUE_MISSING"
        (trust_status_values ++ source_class_values)
    require_phrases (lower (codes content)) (
        "raw photos" ∷ "raw trust bundles" ∷ "raw snapshots" ∷ "private keys" ∷ "raw QR payload"
        ∷ [])
]

-- `s.removesuffix(suffix)`.
unfoldable pub remove_suffix : String → String → String
remove_suffix suffix String.[] = ""
remove_suffix suffix (String.◌∷◌ c s) =
    let rest = String.◌∷◌ c (remove_suffix suffix s) in
    if str_eq (String.◌∷◌ c s) suffix then "" else rest

-- What the kind of a fixture adds to its checks.
unfoldable pub validate_kind : Fields → String → String → Result Message (Unit {0})
validate_kind fixture name expected_kind =
    if str_eq expected_kind "fake_photo_estimate"
    then validate_candidate (get fixture "candidate") (plus (text name) ".candidate")
    else if str_eq expected_kind "verified_qr_draft"
    then (validate_offer (get fixture "offer") (plus (text name) ".offer")
        >> validate_draft (get fixture "draft") "FOOD_WALLET_CONTRACT_ERR_VERIFIED_QR_DRAFT"
            (plus (text name) ".draft") "verified")
    else if str_eq expected_kind "self_issued_draft"
    then validate_draft (get fixture "draft") "FOOD_WALLET_CONTRACT_ERR_SELF_ISSUED_DRAFT"
        (plus (text name) ".draft") "self_issued"
    else if str_eq expected_kind "safe_summary_export"
    then validate_safe_summary (get fixture "summary") (plus (text name) ".summary")
    else ok tt

pub record FoodWalletContractResult : Type 0 where
  pub schema : String
  pub checked_concepts : ℕ
  pub checked_fixtures : ℕ

-- `path or root / default`.
abbrev pub path_or : Option String → String → String
path_or none default = default
path_or (some path) default = path

-- A directory is given by its path, and a fixture in it by its name.
module _ (is_wide_word : ℕ → Bool) (files : Files) where
  unfoldable pub validate_fixture : String → String → String → Result Message (Unit {0})
  validate_fixture directory name expected_kind = do
    let path = (directory <> "/") <> name
    fixture ← load_json files path
    reject_forbidden_raw_material is_wide_word fixture path
    require_equal (get fixture "schema") (str fixture_schema)
        "FOOD_WALLET_CONTRACT_ERR_FIXTURE_SCHEMA" (text name)
    require_equal (get fixture "kind") (str expected_kind) "FOOD_WALLET_CONTRACT_ERR_FIXTURE_KIND"
        (text name)
    require_equal (get fixture "fixture_id") (str (remove_suffix ".json" name))
        "FOOD_WALLET_CONTRACT_ERR_FIXTURE_ID" (text name)
    validate_kind fixture name expected_kind

  -- The loop over the expected fixtures.
  unfoldable pub validate_each : String → List (String × String) → Result Message (Unit {0})
  validate_each directory [] = ok tt
  validate_each directory ((filename, expected_kind) ∷ expected) = do
    validate_fixture directory filename expected_kind
    validate_each directory expected

  -- `listing` gives the names that `glob("food-wallet-*.json")` finds in a directory.
  unfoldable pub validate_fixtures :
      (String → Option (List String)) → String → Result Message (Unit {0})
  validate_fixtures listing directory = elim (listing directory) [
    | none ↦ err (exit (coded "FOOD_WALLET_CONTRACT_ERR_FIXTURE_DIR_MISSING" (text directory)))
    | some names ↦ do
      require_equal (arr (texts (sorted names))) (arr (texts (sorted (keys expected_fixtures))))
          "FOOD_WALLET_CONTRACT_ERR_FIXTURE_SET" (text "food-wallet fixtures")
      validate_each directory expected_fixtures
  ]

  unfoldable pub check_food_wallet_contract :
      (String → Option (List String))
      → String
      → Option String
      → Option String
      → Option String
      → Result Message FoodWalletContractResult
  check_food_wallet_contract listing root contract_path readme_path fixture_dir = do
    schema ←
        load_json files
          (path_or contract_path (root <> "/sdk/food/contract/food_wallet_v1.schema.json"))
    validate_schema schema
    validate_readme files (path_or readme_path (root <> "/sdk/food/README.md"))
    validate_fixtures listing (path_or fixture_dir (root <> "/examples/reference-fixtures"))
    ok (record {
      schema = contract_schema;
      checked_concepts = length concept_names;
      checked_fixtures = length expected_fixtures;
    })
