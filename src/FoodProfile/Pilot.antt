-- ===== src/FoodProfile/Pilot.antt =====
-- The first part of tools/ci/check_food_profile.py: the checks on values, on an intake event, and on
-- the local pilot fixture.
use grain_protocol.Base.{
  ℕ, suc, String, starts_with, Bool, true, false, not, ◌||◌, List, [], ◌∷◌, if◌then◌else◌, Result,
  ok, err, exit, decode_error, require, ◌>>=◌, ◌>>◌,
}
use grain_protocol.Base.Int.{ℤ, pos, ltb_ℤ, ◌+ℤ◌}
use grain_protocol.Json.{
  is_nil, Value, bool, int, str, arr, obj, Items, Fields, end, field, items, get, has_key, in_list,
  py_eq,
}
use grain_protocol.Report.{
  Detail, text, at, plus, Message, coded, require_equal, missing, malformed, parsed, Files,
  int64_min, int64_max,
}

abbrev pub expected_source_classes : List String
expected_source_classes = "attested" ∷ "measured" ∷ "estimated" ∷ []

abbrev pub expected_local_pilot_fixture_id : String
expected_local_pilot_fixture_id = "food-local-pilot.valid.v1"

abbrev pub expected_local_pilot_catalog_id : String
expected_local_pilot_catalog_id = "profile.food-local-pilot.valid"

abbrev pub expected_local_pilot_fixture_path : String
expected_local_pilot_fixture_path = "examples/reference-fixtures/food-local-pilot.valid.v1.json"

abbrev pub catalog_path : String
catalog_path = "examples/reference-fixtures/catalog.v1.json"

unfoldable pub load_json : Files → String → Result Message Fields
load_json files path = elim (files.json path) [
  | missing ↦ err (exit (coded "FOOD_PROFILE_ERR_MISSING" (text path)))
  | malformed ↦ err decode_error
  | parsed (obj fs) ↦ ok fs
  | parsed _ ↦ err (exit (coded "FOOD_PROFILE_ERR_SCHEMA" (text "profile JSON must be an object")))
]

unfoldable pub require_object : Value → String → Detail → Result Message Fields
require_object (obj fs) code detail = ok fs
require_object _ code detail = err (exit (coded code (plus detail " must be an object")))

unfoldable pub require_list : Value → String → Detail → Result Message Items
require_list (arr vs) code detail = ok vs
require_list _ code detail = err (exit (coded code (plus detail " must be a list")))

unfoldable pub require_json_int : Value → String → Detail → Result Message ℤ
require_json_int (int n) code detail =
    if ltb_ℤ n int64_min || ltb_ℤ int64_max n
    then err (exit (coded code (plus detail " must fit int64")))
    else ok n
require_json_int _ code detail = err (exit (coded code (plus detail " must be an integer")))

unfoldable pub require_non_negative_int64 : Value → String → Detail → Result Message ℤ
require_non_negative_int64 value code detail = do
  n ← require_json_int value code detail
  if ltb_ℤ n (pos 0) then err (exit (coded code (plus detail " must be non-negative"))) else ok n

unfoldable pub require_kcal_map : Bool → Value → String → Detail → Result Message ℤ
require_kcal_map non_negative value code detail = do
  nutrient_map ← require_object value code detail
  require (has_key nutrient_map "kcal") (coded code (plus detail ".kcal is required"))
  if non_negative
      then require_non_negative_int64 (get nutrient_map "kcal") code (plus detail ".kcal")
      else require_json_int (get nutrient_map "kcal") code (plus detail ".kcal")

abbrev at_event : ℕ → String → Detail
at_event index suffix = plus (at (text "pilot.events") index) suffix

-- `isinstance(v, str) and v.startswith("meal-scan:")`.
abbrev pub is_meal_scan : Value → Bool
is_meal_scan (str s) = starts_with s "meal-scan:"
is_meal_scan _ = false

-- The loop over the quantities that an event must have.
unfoldable pub require_quantities : Fields → ℕ → List String → Result Message (Unit {0})
require_quantities body index [] = ok tt
require_quantities body index (name ∷ names) = do
  require (has_key body name) (
      coded "FOOD_PROFILE_ERR_LOCAL_PILOT_QUANTITY"
        (plus (plus (at_event index ".body.") name) " is required"))
  require_non_negative_int64 (get body name) "FOOD_PROFILE_ERR_LOCAL_PILOT_QUANTITY"
      (plus (at_event index ".body.") name)
  require_quantities body index names

-- `if "yield_g" in body`.
unfoldable pub check_yield : Fields → ℕ → Result Message (Unit {0})
check_yield body index =
    if has_key body "yield_g"
    then (do
      require_non_negative_int64 (get body "yield_g") "FOOD_PROFILE_ERR_LOCAL_PILOT_QUANTITY"
          (at_event index ".body.yield_g")
      ok tt)
    else ok tt

-- The checks on the body of an event, which return its mean and its variance.
unfoldable pub validate_body : Fields → ℕ → Result Message (ℤ × ℤ)
validate_body body index = do
  require (in_list (get body "source_class") expected_source_classes)
      (coded "FOOD_PROFILE_ERR_LOCAL_PILOT_SOURCE_CLASS" (at_event index ".body.source_class"))
  mean_kcal ←
      require_kcal_map false (get body "mean") "FOOD_PROFILE_ERR_LOCAL_PILOT_NUTRIENTS"
        (at_event index ".body.mean")
  var_kcal ←
      require_kcal_map true (get body "var") "FOOD_PROFILE_ERR_LOCAL_PILOT_NUTRIENTS"
        (at_event index ".body.var")
  require_quantities body index ("amount_g" ∷ "serving_g" ∷ "servings" ∷ [])
  check_yield body index
  ok (mean_kcal, var_kcal)

unfoldable pub validate_food_event : Value → ℕ → Result Message (ℤ × ℤ)
validate_food_event event index = do
  item ← require_object event "FOOD_PROFILE_ERR_LOCAL_PILOT_EVENT" (at (text "pilot.events") index)
  require_equal (get item "t") (str "IntakeEvent") "FOOD_PROFILE_ERR_LOCAL_PILOT_EVENT"
      (at_event index ".t")
  require (is_meal_scan (get item "payload_cid")) (
      coded "FOOD_PROFILE_ERR_LOCAL_PILOT_EVENT"
        (at_event index ".payload_cid must use meal-scan: identity"))
  body ←
      require_object (get item "body") "FOOD_PROFILE_ERR_LOCAL_PILOT_EVENT" (at_event index ".body")
  validate_body body index

unfoldable pub validate_scanner_offer : Value → Result Message (Unit {0})
validate_scanner_offer value = do
  offer ← require_object value "FOOD_PROFILE_ERR_LOCAL_PILOT_OFFER" (text "pilot.scanner_offer")
  require_equal (get offer "t") (str "ServingOffer") "FOOD_PROFILE_ERR_LOCAL_PILOT_OFFER"
      (text "pilot.scanner_offer.t")
  require_non_negative_int64 (get offer "serving_g") "FOOD_PROFILE_ERR_LOCAL_PILOT_OFFER"
      (text "pilot.scanner_offer.serving_g")
  require_kcal_map false (get offer "mean") "FOOD_PROFILE_ERR_LOCAL_PILOT_OFFER"
      (text "pilot.scanner_offer.mean")
  require_kcal_map true (get offer "var") "FOOD_PROFILE_ERR_LOCAL_PILOT_OFFER"
      (text "pilot.scanner_offer.var")
  ok tt

-- The loop over the events, with the two sums and the index.
unfoldable pub sum_events : ℕ → ℤ → ℤ → List Value → Result Message (ℤ × ℤ)
sum_events index sum_mean sum_var [] = ok (sum_mean, sum_var)
sum_events index sum_mean sum_var (event ∷ events) = do
  sums ← validate_food_event event index
  sum_events (suc index) (sum_mean +ℤ sums.0) (sum_var +ℤ sums.1) events

abbrev pub kcal_of : ℤ → Value
kcal_of n = obj (field "kcal" (int n) end)

abbrev pub expected_reducer : ℤ → ℤ → Value
expected_reducer sum_mean sum_var =
    obj (field "sum_mean" (kcal_of sum_mean) (field "sum_var" (kcal_of sum_var) end))

-- `for field in fields: require_equal(pilot.get(field), False, ...)`.
unfoldable pub require_closed : Fields → List String → Result Message (Unit {0})
require_closed pilot [] = ok tt
require_closed pilot (name ∷ names) = do
  require_equal (get pilot name) (bool false) "FOOD_PROFILE_ERR_LOCAL_PILOT_BOUNDARY"
      (plus (text "pilot.") name)
  require_closed pilot names

-- The checks on the `pilot` object of the fixture.
unfoldable pub validate_pilot : Fields → Result Message (Unit {0})
validate_pilot pilot = do
  require_equal (get pilot "scope") (str "local-source-validation-only")
      "FOOD_PROFILE_ERR_LOCAL_PILOT_SCOPE" (text "pilot.scope")
  require_closed pilot (
      "requires_external_apps" ∷ "requires_external_devices" ∷ "requires_external_credentials" ∷ [])
  events ←
      require_list (get pilot "events") "FOOD_PROFILE_ERR_LOCAL_PILOT_EVENT" (text "pilot.events")
  require (not (is_nil events))
      (coded "FOOD_PROFILE_ERR_LOCAL_PILOT_EVENT" (text "pilot.events must not be empty"))
  sums ← sum_events 0 (pos 0) (pos 0) (items events)
  validate_scanner_offer (get pilot "scanner_offer")
  expected ←
      require_object (get pilot "expected_reducer") "FOOD_PROFILE_ERR_LOCAL_PILOT_EXPECTED"
        (text "pilot.expected_reducer")
  require_equal (obj expected) (expected_reducer sums.0 sums.1)
      "FOOD_PROFILE_ERR_LOCAL_PILOT_EXPECTED" (text "pilot.expected_reducer")

-- The checks on the catalog entry that names the fixture.
unfoldable pub validate_catalog_entry : Fields → Result Message String
validate_catalog_entry entry = do
  require_equal (get entry "path") (str expected_local_pilot_fixture_path)
      "FOOD_PROFILE_ERR_LOCAL_PILOT_CATALOG" (text expected_local_pilot_catalog_id)
  require_equal (get entry "profile_id") (str "food-v0.1") "FOOD_PROFILE_ERR_LOCAL_PILOT_CATALOG"
      (text expected_local_pilot_catalog_id)
  ok expected_local_pilot_fixture_path

-- The loop over the catalog: the first entry with the fixture's id decides, and without one the
-- check fails.
unfoldable pub find_catalog_entry : List Value → Result Message String
find_catalog_entry [] =
    err (exit (coded "FOOD_PROFILE_ERR_LOCAL_PILOT_CATALOG" (text expected_local_pilot_catalog_id)))
find_catalog_entry (obj entry ∷ entries) =
    let later = find_catalog_entry entries in
    if py_eq (get entry "fixture_id") (str expected_local_pilot_catalog_id)
    then validate_catalog_entry entry
    else later
find_catalog_entry (_ ∷ entries) = find_catalog_entry entries

unfoldable pub validate_local_pilot_fixture : Files → Result Message String
validate_local_pilot_fixture files = do
  fixture ← load_json files expected_local_pilot_fixture_path
  require_equal (get fixture "fixture_id") (str expected_local_pilot_fixture_id)
      "FOOD_PROFILE_ERR_LOCAL_PILOT_ID" (text "fixture_id")
  require_equal (get fixture "profile_id") (str "food-v0.1") "FOOD_PROFILE_ERR_LOCAL_PILOT_PROFILE"
      (text "profile_id")
  pilot ← require_object (get fixture "pilot") "FOOD_PROFILE_ERR_LOCAL_PILOT" (text "pilot")
  validate_pilot pilot
  catalog ← load_json files catalog_path
  fixtures ←
      require_list (get catalog "fixtures") "FOOD_PROFILE_ERR_LOCAL_PILOT_CATALOG"
        (text "catalog.fixtures")
  find_catalog_entry (items fixtures)
