-- ===== src/FoodProfile.antt =====
-- tools/ci/check_food_profile.py: the constraints of Food Profile 1.0. The checks on values and on
-- the local pilot fixture are in FoodProfile/Pilot.
pub mod Pilot
pub mod Intake
pub mod Totals
pub mod Fixture
mod Tests
use grain_protocol.Base.{
  ℕ, String, Bool, true, false, List, [], ◌∷◌, if◌then◌else◌, Result, ok, err, exit, require, ◌>>=◌,
  ◌>>◌, Option, none, some,
}
use grain_protocol.Base.Int.{pos, negsuc}
use grain_protocol.Base.Text.{codes, has_infix}
use grain_protocol.Json.{
  Value, int, str, arr, obj, Items, Fields, end, field, items, get, texts, in_list,
}
use grain_protocol.Report.{Detail, text, Message, coded, lacks, require_equal, Files}
use Pilot.{expected_source_classes, load_json, require_object, validate_local_pilot_fixture}

abbrev pub profile_path : String
profile_path = "spec/profiles/food-profile.v1.json"

abbrev pub profile_md_path : String
profile_md_path = "spec/profiles/food-profile.md"

abbrev pub cddl_path : String
cddl_path = "spec/schemas/grain-v0.1.cddl"

abbrev pub expected_reducer_visible_nutrients : Value
expected_reducer_visible_nutrients = obj (
    field "kcal"
      (obj (
        field "unit" (str "kilocalorie")
          (field "scale_exp10" (int (pos 0)) (field "integer_domain" (str "int64") end))))
      end)

abbrev quantity_field : String → Value
quantity_field unit = obj (
    field "unit" (str unit) (
      field "scale_exp10" (int (pos 0))
        (field "integer_domain" (str "int64") (field "minimum" (int (pos 0)) end))))

abbrev pub expected_quantity_fields : Value
expected_quantity_fields = obj (
    field "amount_g" (quantity_field "gram") (
      field "yield_g" (quantity_field "gram") (
        field "serving_g" (quantity_field "gram")
          (field "servings" (quantity_field "serving") end))))

abbrev pub expected_reducer_outputs : List String
expected_reducer_outputs = "sum_mean" ∷ "sum_var" ∷ []

pub record FoodProfileCheck : Type 0 where
  pub profile : String
  pub source_classes : List Value
  pub reducer_visible_nutrients : List String
  pub quantity_fields : List String
  pub local_pilot_fixture : String

-- `require_contains(text, needle, code, path)`.
unfoldable pub require_contains : String → String → String → String → Result Message (Unit {0})
require_contains content needle code path =
    require (has_infix (codes content) (codes needle)) (lacks code path needle)

unfoldable pub read_text : Files → String → Result Message String
read_text files path = elim (files.text_of path) [
  | none ↦ err (exit (coded "FOOD_PROFILE_ERR_MISSING" (text path)))
  | some content ↦ ok content
]

-- The first loop over the texts, and the second.
unfoldable pub require_classes : String → String → List String → Result Message (Unit {0})
require_classes profile_md cddl [] = ok tt
require_classes profile_md cddl (value ∷ values) = do
  require_contains profile_md value "FOOD_PROFILE_ERR_DOC_ANCHOR" profile_md_path
  require_contains cddl value "FOOD_PROFILE_ERR_CDDL_ANCHOR" cddl_path
  require_classes profile_md cddl values

unfoldable pub require_anchors : String → List String → Result Message (Unit {0})
require_anchors profile_md [] = ok tt
require_anchors profile_md (value ∷ values) = do
  require_contains profile_md value "FOOD_PROFILE_ERR_DOC_ANCHOR" profile_md_path
  require_anchors profile_md values

-- The checks on the profile itself, which return its source class.
unfoldable pub check_profile : Fields → Result Message Fields
check_profile profile = do
  require_equal (get profile "schema") (str "grain.food-profile.constraints.v1")
      "FOOD_PROFILE_ERR_SCHEMA" (text "schema")
  require_equal (get profile "profile") (str "food-v0.1") "FOOD_PROFILE_ERR_PROFILE"
      (text "profile")
  require_equal (get profile "protocol_schema_major") (int (pos 1)) "FOOD_PROFILE_ERR_SCHEMA_MAJOR"
      (text "protocol_schema_major")
  source_class ←
      require_object (get profile "source_class") "FOOD_PROFILE_ERR_SOURCE_CLASS"
        (text "source_class")
  require_equal (get source_class "allowed") (arr (texts expected_source_classes))
      "FOOD_PROFILE_ERR_SOURCE_CLASS" (text "source_class.allowed")
  require (in_list (get source_class "default") expected_source_classes) (
      coded "FOOD_PROFILE_ERR_SOURCE_CLASS"
        (text "source_class.default must be one of the allowed values"))
  require_equal (get profile "reducer_visible_nutrients") expected_reducer_visible_nutrients
      "FOOD_PROFILE_ERR_NUTRIENTS" (text "reducer_visible_nutrients")
  require_equal (get profile "quantity_fields") expected_quantity_fields
      "FOOD_PROFILE_ERR_QUANTITY_SCALE" (text "quantity_fields")
  require_equal (get profile "reducer_outputs") (arr (texts expected_reducer_outputs))
      "FOOD_PROFILE_ERR_REDUCER_OUTPUTS" (text "reducer_outputs")
  ok source_class

-- `list(v)` of a value that the checks have found to be a list.
abbrev pub list_of : Value → List Value
list_of (arr vs) = items vs
list_of _ = []

-- `str(v)` of a value that the checks have found to be a text.
abbrev pub str_of : Value → String
str_of (str s) = s
str_of _ = ""

unfoldable pub check_food_profile : Files → Result Message FoodProfileCheck
check_food_profile files = do
  profile ← load_json files profile_path
  source_class ← check_profile profile
  profile_md ← read_text files profile_md_path
  cddl ← read_text files cddl_path
  require_classes profile_md cddl expected_source_classes
  require_anchors profile_md
      ("kcal" ∷ "scale_exp10 = 0" ∷ "amount_g" ∷ "yield_g" ∷ "serving_g" ∷ "servings" ∷ [])
  require_contains cddl "Food Profile 1.0" "FOOD_PROFILE_ERR_CDDL_ANCHOR" cddl_path
  local_pilot_fixture ← validate_local_pilot_fixture files
  ok (record {
    profile = str_of (get profile "profile");
    source_classes = list_of (get source_class "allowed");
    reducer_visible_nutrients = "kcal" ∷ [];
    quantity_fields = "amount_g" ∷ "yield_g" ∷ "serving_g" ∷ "servings" ∷ [];
    local_pilot_fixture = local_pilot_fixture;
  })
