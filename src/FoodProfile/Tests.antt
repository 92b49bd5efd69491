-- ===== src/FoodProfile/Tests.antt =====
-- Runs of the checks on a fixture with two events, and the theorems at concrete data.
use grain_protocol.Base.{
  ◌≡◌, refl, ◌↔◌, String, str_eq, false, if◌then◌else◌, contains, keys, lookup, List, [], ◌∷◌, ok,
  err, exit, none,
}
use grain_protocol.Base.Int.{ℤ, pos, negsuc, ◌+ℤ◌}
use grain_protocol.Json.{
  Value, Items, int, str, bool, arr, obj, nil, cons, end, field, Fields, items, get, has_key,
  in_list, py_eq,
}
use grain_protocol.Report.{text, at, plus, coded, differs, Files, parsed, missing, require_equal}
use grain_protocol.FoodProfile.Pilot.{
  expected_local_pilot_fixture_path, expected_local_pilot_fixture_id, catalog_path,
  expected_reducer, kcal_of, load_json, require_object, require_list, require_json_int,
  require_non_negative_int64, require_kcal_map, require_quantities, check_yield, validate_body,
  validate_food_event, validate_scanner_offer, sum_events, require_closed, validate_pilot,
  validate_catalog_entry, find_catalog_entry, validate_local_pilot_fixture,
}
use grain_protocol.FoodProfile.Intake.{IsIntakeEvent, validate_food_event_iff}
use grain_protocol.FoodProfile.Totals.{Reported, sum_of, mean_of, var_of, sum_events_iff}
use grain_protocol.FoodProfile.Fixture.{
  IsPilot, IsListed, validate_pilot_iff, validate_local_pilot_fixture_iff,
}

abbrev meal : ℤ → ℤ → Value
meal mean var = obj (
    field "t" (str "IntakeEvent") (
      field "payload_cid" (str "meal-scan:1") (
        field "body"
          (obj (
            field "source_class" (str "measured") (
              field "mean" (kcal_of mean) (
                field "var" (kcal_of var) (
                  field "amount_g" (int (pos 100))
                    (field "serving_g" (int (pos 100)) (field "servings" (int (pos 1)) end)))))))
          end)))

abbrev offer : Value
offer = obj (
    field "t" (str "ServingOffer") (
      field "serving_g" (int (pos 80))
        (field "mean" (kcal_of (pos 90)) (field "var" (kcal_of (pos 4)) end))))

abbrev pilot : ℤ → Fields
pilot sum = field "scope" (str "local-source-validation-only") (
    field "requires_external_apps" (bool false) (
      field "requires_external_devices" (bool false) (
        field "requires_external_credentials" (bool false) (
          field "events" (arr (cons (meal (pos 500) (pos 9)) (cons (meal (negsuc 19) (pos 1)) nil)))
            (field "scanner_offer" offer
              (field "expected_reducer" (expected_reducer sum (pos 10)) end))))))

abbrev fixture : Value
fixture = obj (
    field "fixture_id" (str "food-local-pilot.valid.v1")
      (field "profile_id" (str "food-v0.1") (field "pilot" (obj (pilot (pos 480))) end)))

abbrev catalog : Value
catalog = obj (
    field "fixtures"
      (arr (
        cons (int (pos 3)) (
          cons
            (obj (
              field "fixture_id" (str "profile.food-local-pilot.valid") (
                field "path" (str expected_local_pilot_fixture_path)
                  (field "profile_id" (str "food-v0.1") end))))
            nil)))
      end)

abbrev files : Files
files = record {
  json = λ path.
      if str_eq path expected_local_pilot_fixture_path
      then parsed fixture
      else if str_eq path catalog_path
      then parsed catalog
      else missing;
  text_of = λ path. none;
}

tools : Unit {0}
unfolding contains keys lookup get has_key in_list py_eq ◌+ℤ◌ require_equal load_json require_object
    require_list require_json_int require_non_negative_int64 require_kcal_map require_quantities
    check_yield validate_body validate_food_event validate_scanner_offer sum_events require_closed
    validate_pilot validate_catalog_entry find_catalog_entry validate_local_pilot_fixture
tools = tt

event_runs :
    (validate_food_event (meal (pos 500) (pos 9)) 0 ≡ ok (pos 500, pos 9))
    × (validate_food_event (meal (pos 500) (negsuc 0)) 2
        ≡ err (
            exit (
              coded "FOOD_PROFILE_ERR_LOCAL_PILOT_NUTRIENTS" (
                plus
                  (plus (plus (at (text "pilot.events") 2) ".body.var") ".kcal")
                  " must be non-negative"))))
unfolding tools
event_runs = (refl, refl)

pilot_runs :
    (validate_pilot (pilot (pos 480)) ≡ ok tt)
    × (validate_pilot (pilot (pos 481))
        ≡ err (
            exit (
              differs "FOOD_PROFILE_ERR_LOCAL_PILOT_EXPECTED"
                (text "pilot.expected_reducer")
                (expected_reducer (pos 480) (pos 10))
                (expected_reducer (pos 481) (pos 10)))))
    × (validate_local_pilot_fixture files ≡ ok expected_local_pilot_fixture_path)
unfolding tools
pilot_runs = (refl, refl, refl)

validate_food_event_iff_example :
    (validate_food_event (meal (pos 500) (pos 9)) 0 ≡ ok (pos 500, pos 9))
    ↔ IsIntakeEvent (meal (pos 500) (pos 9)) (pos 500) (pos 9)
validate_food_event_iff_example =
    validate_food_event_iff (meal (pos 500) (pos 9)) 0 (pos 500) (pos 9)

abbrev total : ℤ × ℤ
total = (pos 500, pos 9)

sum_events_iff_example : (sum_events 0 (pos 0) (pos 0) (meal (pos 500) (pos 9) ∷ []) ≡ ok total) ↔ (
    (ps : List (ℤ × ℤ)) × Reported (meal (pos 500) (pos 9) ∷ []) ps
    × (total ≡ (sum_of mean_of ps, sum_of var_of ps)))
sum_events_iff_example = sum_events_iff (meal (pos 500) (pos 9) ∷ []) total

validate_pilot_iff_example : (validate_pilot (pilot (pos 480)) ≡ ok tt) ↔ IsPilot (pilot (pos 480))
validate_pilot_iff_example = validate_pilot_iff (pilot (pos 480))

abbrev path : String
path = expected_local_pilot_fixture_path

validate_local_pilot_fixture_iff_example : (validate_local_pilot_fixture files ≡ ok path) ↔ (
    (fixture : Fields) × (files.json path ≡ parsed (obj fixture))
    × ((get fixture "fixture_id" ≡ str expected_local_pilot_fixture_id)
        × ((get fixture "profile_id" ≡ str "food-v0.1")
            × ((pilot : Fields) × (get fixture "pilot" ≡ obj pilot)
                × (IsPilot pilot
                    × ((catalog : Fields) × (files.json catalog_path ≡ parsed (obj catalog))
                        × ((entries : Items) × (get catalog "fixtures" ≡ arr entries)
                            × (IsListed (items entries) × (path ≡ path)))))))))
validate_local_pilot_fixture_iff_example = validate_local_pilot_fixture_iff files path
