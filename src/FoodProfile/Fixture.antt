-- ===== src/FoodProfile/Fixture.antt =====
-- The local pilot fixture and its place in the catalog.
use grain_protocol.Base.{
  ◌≡◌, refl, ◌↔◌, ◌∙◌, ap, sym, subst, String, true, false, List, [], ◌∷◌, All, ok, >>=_iff, >>_iff,
  ok_iff, require-Accepts, any-Accepts, unit-Accepts, unit_iff, Bool-cases, not_iff, inl, inr,
}
use grain_protocol.Base.Int.{ℤ}
use grain_protocol.Json.{Value, str, arr, obj, bool, Items, items, is_nil, Fields, get, py_eq}
use grain_protocol.Json.Equality.{py_eq-str_iff}
use grain_protocol.Report.{Detail, Files, parsed, JsonFile, missing, malformed}
use grain_protocol.Report.Laws.{IsCount, require_equal-str, require_equal-Accepts}
use grain_protocol.FoodProfile.Pilot.{
  expected_local_pilot_fixture_id, expected_local_pilot_catalog_id,
  expected_local_pilot_fixture_path, catalog_path, load_json, require_list, require_closed,
  validate_scanner_offer, expected_reducer, validate_pilot, validate_catalog_entry,
  find_catalog_entry, validate_local_pilot_fixture,
}
use grain_protocol.FoodProfile.Intake.{
  require_object_iff, IsKcalMap, IsCount-Accepts, require_kcal_map_iff,
}
use grain_protocol.FoodProfile.Totals.{Reported, sum_of, mean_of, var_of, sum_events_iff}

require_list_iff :
    (v : Value) (code : String) (detail : Detail) (vs : Items)
    → (require_list v code detail ≡ ok vs) ↔ (v ≡ arr vs)
unfolding require_list
require_list_iff (arr ws) code detail vs = (λ h. cc, λ h. cc)
require_list_iff _ code detail vs = (λ h. cc, λ h. cc)

load_json_iff :
    (files : Files) (path : String) (fs : Fields)
    → (load_json files path ≡ ok fs) ↔ (files.json path ≡ parsed (obj fs))
unfolding load_json
load_json_iff files path fs = go (files.json path) refl
  where
    go :
        (f : JsonFile)
        → files.json path ≡ f
        → (load_json files path ≡ ok fs) ↔ (files.json path ≡ parsed (obj fs))
    go missing e = rw e (λ h. cc, λ h. cc)
    go malformed e = rw e (λ h. cc, λ h. cc)
    go (parsed (obj gs)) e = rw e (λ h. cc, λ h. cc)
    go (parsed _) e = rw e (λ h. cc, λ h. cc)

-- Each of these flags is false, in Python's sense of `==`.
abbrev pub AreClosed : Fields → List String → Type 0
AreClosed pilot names = All (λ name. py_eq (get pilot name) (bool false) ≡ true) names

require_closed_iff :
    (pilot : Fields) (names : List String)
    → (require_closed pilot names ≡ ok tt) ↔ AreClosed pilot names
unfolding require_closed
require_closed_iff pilot [] = (λ h. tt, λ h. refl)
require_closed_iff pilot (name ∷ names) =
    >>_iff _ _ tt (require_equal-Accepts _ _ _ (bool false)) (require_closed_iff pilot names)

-- A catalog whose first entry for the fixture has the fixture's path and profile.
pub data IsListed : List Value → Type 0 where
  found :
      {entry : Fields} {rest : List Value}
      → get entry "fixture_id" ≡ str expected_local_pilot_catalog_id
      → get entry "path" ≡ str expected_local_pilot_fixture_path
      → get entry "profile_id" ≡ str "food-v0.1"
      → IsListed (obj entry ∷ rest)
  later :
      {v : Value} {rest : List Value}
      → ((entry : Fields)
          → v ≡ obj entry
          → ¬ (get entry "fixture_id" ≡ str expected_local_pilot_catalog_id))
      → IsListed rest
      → IsListed (v ∷ rest)

validate_catalog_entry_iff :
    (entry : Fields) (path : String)
    → (validate_catalog_entry entry ≡ ok path) ↔ (
        (get entry "path" ≡ str expected_local_pilot_fixture_path)
        × ((get entry "profile_id" ≡ str "food-v0.1") × (expected_local_pilot_fixture_path ≡ path)))
unfolding validate_catalog_entry
validate_catalog_entry_iff entry path =
    >>_iff _ _ path (require_equal-str _ _ _ _)
      (>>_iff _ _ path (require_equal-str _ _ _ _) (ok_iff _ path))

not_named :
    (entry e : Fields)
    → py_eq (get entry "fixture_id") (str expected_local_pilot_catalog_id) ≡ false
    → obj entry ≡ obj e
    → ¬ (get e "fixture_id" ≡ str expected_local_pilot_catalog_id)
not_named entry e other is_obj named =
    let same : e ≡ entry = cc in
    let here = subst (λ x. get x "fixture_id" ≡ str expected_local_pilot_catalog_id) same named in
    cc ((py_eq-str_iff _ _).1 here)

find_catalog_entry-IsListed :
    (entries : List Value) (path : String)
    → find_catalog_entry entries ≡ ok path
    → IsListed entries × (path ≡ expected_local_pilot_fixture_path)
unfolding find_catalog_entry
find_catalog_entry-IsListed [] path h = cc
find_catalog_entry-IsListed (obj entry ∷ entries) path h =
    elim (Bool-cases (py_eq (get entry "fixture_id") (str expected_local_pilot_catalog_id))) [
      | inl named ↦
          let (at_path, (profile, same)) =
            (validate_catalog_entry_iff entry path).0 (rw (named, find_catalog_entry) at h) in
          (found ((py_eq-str_iff _ _).0 named) at_path profile, sym same)
      | inr other ↦
          let (rest, same) =
            find_catalog_entry-IsListed entries path (rw (other, find_catalog_entry) at h) in
          (later (λ e is_obj. not_named entry e other is_obj) rest, same)
    ]
find_catalog_entry-IsListed (v ∷ entries) path h =
    let (rest, same) = find_catalog_entry-IsListed entries path h in
    (later (λ e is_obj. cc) rest, same)

IsListed-find_catalog_entry :
    {entries : List Value}
    → IsListed entries
    → find_catalog_entry entries ≡ ok expected_local_pilot_fixture_path
unfolding find_catalog_entry
IsListed-find_catalog_entry (found {entry = entry} named at_path profile) =
    rw ((py_eq-str_iff _ _).1 named)
      ((validate_catalog_entry_iff entry _).1 (at_path, (profile, refl)))
IsListed-find_catalog_entry (later {v = obj entry} other rest) =
    elim (Bool-cases (py_eq (get entry "fixture_id") (str expected_local_pilot_catalog_id))) [
      | inl named ↦ absurd (other entry refl ((py_eq-str_iff _ _).0 named))
      | inr unnamed ↦ rw unnamed (IsListed-find_catalog_entry rest)
    ]
IsListed-find_catalog_entry (later other rest) = IsListed-find_catalog_entry rest

find_catalog_entry_iff :
    (entries : List Value) (path : String)
    → (find_catalog_entry entries ≡ ok path)
      ↔ (IsListed entries × (path ≡ expected_local_pilot_fixture_path))
find_catalog_entry_iff entries path = (
  find_catalog_entry-IsListed entries path,
  λ h. IsListed-find_catalog_entry h.0 ∙ ap ok (sym h.1),
)

-- A serving offer with a count of grams, and kcal maps for its mean and its variance.
abbrev pub IsOffer : Value → Type 0
IsOffer v =
    (offer : Fields) × (v ≡ obj offer)
    × ((get offer "t" ≡ str "ServingOffer")
        × (IsCount (get offer "serving_g")
            × (((mean : ℤ) × IsKcalMap false (get offer "mean") mean)
                × ((var : ℤ) × IsKcalMap true (get offer "var") var))))

validate_scanner_offer_iff : (v : Value) → (validate_scanner_offer v ≡ ok tt) ↔ IsOffer v
unfolding validate_scanner_offer
validate_scanner_offer_iff v = >>=_iff _ _ tt (require_object_iff v _ _) (λ offer.
    >>_iff _ _ tt (require_equal-str _ _ _ _) (
      >>_iff _ _ tt (IsCount-Accepts (get offer "serving_g") _ _) (
        >>_iff _ _ tt (any-Accepts _ (require_kcal_map_iff false (get offer "mean") _ _)) (
          let last =
            >>_iff _ (ok tt) tt (any-Accepts _ (require_kcal_map_iff true (get offer "var") _ _))
              (ok_iff tt tt) in
          (λ h. (last.0 h).0, λ h. last.1 (h, refl))))))

-- What the fixture expects of the reducer is what its events sum up to.
abbrev pub ExpectsSums : Fields → Items → Type 0
ExpectsSums pilot events =
    (ps : List (ℤ × ℤ)) × Reported (items events) ps
    × ((expected : Fields) × (get pilot "expected_reducer" ≡ obj expected)
        × (py_eq (obj expected) (expected_reducer (sum_of mean_of ps) (sum_of var_of ps)) ≡ true))

-- The conditions on the `pilot` object of a fixture.
abbrev pub IsPilot : Fields → Type 0
IsPilot pilot =
    (get pilot "scope" ≡ str "local-source-validation-only")
    × (AreClosed pilot (
          "requires_external_apps" ∷ "requires_external_devices" ∷ "requires_external_credentials"
          ∷ [])
        × ((events : Items) × (get pilot "events" ≡ arr events)
            × ((is_nil events ≡ false)
                × (IsOffer (get pilot "scanner_offer") × ExpectsSums pilot events))))

abbrev ReducerMatches : ℤ × ℤ → Fields → Type 0
ReducerMatches sums pilot =
    (expected : Fields) × (get pilot "expected_reducer" ≡ obj expected)
    × (py_eq (obj expected) (expected_reducer sums.0 sums.1) ≡ true)

-- A pilot is accepted exactly when it is local, claims no outside needs, has at least one event and
-- intake events only, its offer is valid, and the sums that it expects are those of its events.
pub validate_pilot_iff : (pilot : Fields) → (validate_pilot pilot ≡ ok tt) ↔ IsPilot pilot
unfolding validate_pilot
validate_pilot_iff pilot =
    let steps = >>_iff _ _ tt (require_equal-str (get pilot "scope") _ _ _) (
      >>_iff _ _ tt (unit-Accepts _ (require_closed_iff pilot _)) (
        >>=_iff _ _ tt (require_list_iff (get pilot "events") _ _) (λ events.
          >>_iff _ _ tt (require-Accepts _ _ (not_iff (is_nil events))) (
            >>=_iff _ _ tt (sum_events_iff (items events)) (λ sums.
              >>_iff _ _ tt
                (unit-Accepts _ (validate_scanner_offer_iff (get pilot "scanner_offer")))
                (>>=_iff _ _ tt (require_object_iff (get pilot "expected_reducer") _ _) (λ expected.
                  unit_iff _ (
                    require_equal-Accepts (obj expected) _ _
                      (expected_reducer sums.0 sums.1))))))))) in
    (
      λ h.
          let (
            scope,
            (
              closed,
              (events, is_list, (some_event, (sums, (ps, reported, same), (offer, expects)))),
            ),
          ) =
            steps.0 h in
          (
            scope,
            (
              closed,
              (
                events,
                is_list,
                (
                  some_event,
                  (offer, (ps, reported, subst (λ s. ReducerMatches s pilot) same expects)),
                ),
              ),
            ),
          ),
      λ (scope, (closed, (events, is_list, (some_event, (offer, (ps, reported, expects)))))).
          steps.1 (
            scope,
            (
              closed,
              (
                events,
                is_list,
                (
                  some_event,
                  ((sum_of mean_of ps, sum_of var_of ps), (ps, reported, refl), (offer, expects)),
                ),
              ),
            ),
          ),
    )

-- The fixture is accepted, and its path returned, exactly when its file names the fixture and the
-- profile and holds such a pilot, and the catalog lists it.
pub validate_local_pilot_fixture_iff :
    (files : Files) (path : String)
    → (validate_local_pilot_fixture files ≡ ok path) ↔ (
        (fixture : Fields) × (files.json expected_local_pilot_fixture_path ≡ parsed (obj fixture))
        × ((get fixture "fixture_id" ≡ str expected_local_pilot_fixture_id)
            × ((get fixture "profile_id" ≡ str "food-v0.1")
                × ((pilot : Fields) × (get fixture "pilot" ≡ obj pilot)
                    × (IsPilot pilot
                        × ((catalog : Fields) × (files.json catalog_path ≡ parsed (obj catalog))
                            × ((entries : Items) × (get catalog "fixtures" ≡ arr entries)
                                × (IsListed (items entries)
                                    × (path ≡ expected_local_pilot_fixture_path)))))))))
unfolding validate_local_pilot_fixture
validate_local_pilot_fixture_iff files path =
    >>=_iff _ _ path (load_json_iff files expected_local_pilot_fixture_path) (λ fixture.
      >>_iff _ _ path (require_equal-str _ _ _ _) (
        >>_iff _ _ path (require_equal-str _ _ _ _) (
          >>=_iff _ _ path (require_object_iff (get fixture "pilot") _ _) (λ pilot.
            >>_iff _ _ path (unit-Accepts _ (validate_pilot_iff pilot)) (
              >>=_iff _ _ path (load_json_iff files catalog_path) (λ catalog.
                >>=_iff _ _ path (require_list_iff (get catalog "fixtures") _ _)
                  (λ entries. find_catalog_entry_iff (items entries) path)))))))
