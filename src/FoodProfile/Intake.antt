-- ===== src/FoodProfile/Intake.antt =====
-- An intake event: `validate_food_event` against the constraints of the profile.
use text.Mathlib.TextBridge.{IsPrefix}
use text.Mathlib.TextEquality.{starts_with_iff}
use grain_protocol.Report.Laws.{require_equal-str, IsInt, IsCount}
use grain_protocol.Base.{
  ℕ, ◌≡◌, refl, ◌↔◌, ap, subst, arith, String, Bool, true, false, List, [], ◌∷◌, All, ok, >>=-eq-ok,
  >>=_iff, >>_iff, ok_iff, require-Accepts, any-Accepts, unit-Accepts, Accepts, Bool-cases, inl,
  inr, if◌then◌else◌,
}
use grain_protocol.Base.Int.{ℤ, pos, ltb_ℤ, ◌≤ℤ◌}
use grain_protocol.Json.{Value, int, str, obj, Fields, get, has_key}
use grain_protocol.Json.Equality.{OneOf, in_list_iff}
use grain_protocol.Report.{Detail}
use grain_protocol.FoodProfile.Pilot.{
  expected_source_classes, require_object, require_json_int, require_non_negative_int64,
  require_kcal_map, is_meal_scan, require_quantities, check_yield, validate_body,
  validate_food_event,
}

require_json_int_iff :
    (v : Value) (code : String) (detail : Detail) (n : ℤ)
    → (require_json_int v code detail ≡ ok n) ↔ IsInt v n
unfolding require_json_int
require_json_int_iff (int m) code detail n = ground arith
require_json_int_iff _ code detail n = (λ h. cc, λ h. cc)

require_non_negative_int64_iff :
    (v : Value) (code : String) (detail : Detail) (n : ℤ)
    → (require_non_negative_int64 v code detail ≡ ok n) ↔ (IsInt v n × (pos 0 ≤ℤ n))
unfolding require_non_negative_int64
require_non_negative_int64_iff v code detail n =
    let int_iff = require_json_int_iff v code detail in
    (
      λ h.
          let (m, is_int, rest) = >>=-eq-ok (require_json_int v code detail) _ h in
          let (not_below, same) : (ltb_ℤ m (pos 0) ≡ false) × (m ≡ n) =
            (ground arith, ground arith) in
          (subst (IsInt v) same ((int_iff m).0 is_int), ground arith),
      λ (is_int, least). rw ((int_iff n).1 is_int) (ground arith),
    )

-- A nutrient map whose kcal fit in 64 bits; a variance is not negative.
abbrev pub IsKcalMap : Bool → Value → ℤ → Type 0
IsKcalMap non_negative v n =
    (m : Fields) × (v ≡ obj m)
    × ((has_key m "kcal" ≡ true) × (IsInt (get m "kcal") n × (non_negative ≡ true → pos 0 ≤ℤ n)))

pub require_object_iff :
    (v : Value) (code : String) (detail : Detail) (m : Fields)
    → (require_object v code detail ≡ ok m) ↔ (v ≡ obj m)
unfolding require_object
require_object_iff (obj fs) code detail m = (λ h. cc, λ h. cc)
require_object_iff _ code detail m = (λ h. cc, λ h. cc)

kcal_iff :
    (non_negative : Bool) (v : Value) (code : String) (detail : Detail) (n : ℤ)
    → ((if non_negative
          then require_non_negative_int64 v code detail
          else require_json_int v code detail)
        ≡ ok n)
      ↔ (IsInt v n × (non_negative ≡ true → pos 0 ≤ℤ n))
kcal_iff true v code detail n =
    let both = require_non_negative_int64_iff v code detail n in
    (λ h. ((both.0 h).0, λ _. (both.0 h).1), λ h. both.1 (h.0, h.1 refl))
kcal_iff false v code detail n =
    let one = require_json_int_iff v code detail n in (λ h. (one.0 h, λ e. cc), λ h. one.1 h.0)

pub require_kcal_map_iff :
    (non_negative : Bool) (v : Value) (code : String) (detail : Detail) (n : ℤ)
    → (require_kcal_map non_negative v code detail ≡ ok n) ↔ IsKcalMap non_negative v n
unfolding require_kcal_map
require_kcal_map_iff non_negative v code detail n =
    >>=_iff _ _ n (require_object_iff v code detail)
      (λ m. >>_iff _ _ n (require-Accepts _ _ (λ h. h, λ h. h)) (kcal_iff non_negative _ _ _ n))

-- Each of these quantities is there, and is a count.
abbrev pub HaveCounts : Fields → List String → Type 0
HaveCounts body names = All (λ name. (has_key body name ≡ true) × IsCount (get body name)) names

pub IsCount-Accepts :
    (v : Value) (code : String) (detail : Detail)
    → Accepts (require_non_negative_int64 v code detail) (IsCount v)
IsCount-Accepts v code detail = any-Accepts _ (require_non_negative_int64_iff v code detail)

require_quantities_iff :
    (body : Fields) (index : ℕ) (names : List String)
    → (require_quantities body index names ≡ ok tt) ↔ HaveCounts body names
unfolding require_quantities
require_quantities_iff body index [] = (λ h. tt, λ h. refl)
require_quantities_iff body index (name ∷ names) =
    let steps = >>_iff _ _ tt (require-Accepts (has_key body name) _ (λ h. h, λ h. h)) (
      >>_iff _ _ tt (IsCount-Accepts (get body name) _ _)
        (require_quantities_iff body index names)) in
    (
      λ h. let (there, (count, rest)) = steps.0 h in ((there, count), rest),
      λ h. steps.1 (h.0.0, (h.0.1, h.1)),
    )

check_yield_iff :
    (body : Fields) (index : ℕ)
    → (check_yield body index ≡ ok tt)
      ↔ (has_key body "yield_g" ≡ true → IsCount (get body "yield_g"))
unfolding check_yield
check_yield_iff body index = elim (Bool-cases (has_key body "yield_g")) [
  | inl there ↦
      let step =
        >>_iff _ (ok tt) tt (IsCount-Accepts (get body "yield_g") _ _)
          (λ h. tt, λ (h : Unit {0}). refl) in
      rw there (λ h e. (step.0 h).0, λ h. step.1 (h refl, tt))
  | inr absent ↦ rw absent (λ h e. cc, λ h. refl)
]

abbrev pub quantity_names : List String
quantity_names = "amount_g" ∷ "serving_g" ∷ "servings" ∷ []

-- A body with an allowed source class, kcal that fit, and counts for its quantities.
abbrev pub IsBody : Fields → ℤ → ℤ → Type 0
IsBody body mean var =
    OneOf expected_source_classes (get body "source_class")
    × (IsKcalMap false (get body "mean") mean
        × (IsKcalMap true (get body "var") var
            × (HaveCounts body quantity_names
                × (has_key body "yield_g" ≡ true → IsCount (get body "yield_g")))))

pair_path : {a b c d : ℤ} → ◌≡◌ {A = ℤ × ℤ} (a, b) (c, d) → (a ≡ c) × (b ≡ d)
pair_path h = (ap (λ p. p.0) h, ap (λ p. p.1) h)

validate_body_iff :
    (body : Fields) (index : ℕ) (mean var : ℤ)
    → (validate_body body index ≡ ok (mean, var)) ↔ IsBody body mean var
unfolding validate_body
validate_body_iff body index mean var =
    let b : ℤ × ℤ = (mean, var) in
    let steps =
      >>_iff _ _ b
        (require-Accepts _ _ (in_list_iff (get body "source_class") expected_source_classes))
        (>>=_iff _ _ b (require_kcal_map_iff false (get body "mean") _ _) (λ m.
          >>=_iff _ _ b (require_kcal_map_iff true (get body "var") _ _) (λ v.
            >>_iff _ _ b (unit-Accepts _ (require_quantities_iff body index quantity_names))
              (>>_iff _ _ b (unit-Accepts _ (check_yield_iff body index)) (ok_iff (m, v) b))))) in
    (
      λ h.
          let (class, (m, is_mean, (v, is_var, (counts, (yield, same))))) = steps.0 h in
          let (same_mean, same_var) = pair_path same in
          (
            class,
            (
              subst (IsKcalMap false (get body "mean")) same_mean is_mean,
              (subst (IsKcalMap true (get body "var")) same_var is_var, (counts, yield)),
            ),
          ),
      λ (class, (is_mean, (is_var, (counts, yield)))).
          steps.1 (class, (mean, is_mean, (var, is_var, (counts, (yield, refl))))),
    )

-- A text that begins with the identity of a meal scan.
abbrev pub IsMealScan : Value → Type 0
IsMealScan v = (s : String) × (v ≡ str s) × IsPrefix "meal-scan:" s

is_meal_scan_iff : (v : Value) → (is_meal_scan v ≡ true) ↔ IsMealScan v
is_meal_scan_iff (str s) =
    let prefix = starts_with_iff s "meal-scan:" in
    (
      λ h. (s, refl, prefix.0 h),
      λ (t, same, begins). prefix.1 (subst (IsPrefix "meal-scan:") (cc) begins),
    )
is_meal_scan_iff _ = (λ h. cc, λ (t, same, begins). cc)

-- An intake event with a meal-scan identity and such a body.
abbrev pub IsIntakeEvent : Value → ℤ → ℤ → Type 0
IsIntakeEvent event mean var =
    (item : Fields) × (event ≡ obj item)
    × ((get item "t" ≡ str "IntakeEvent")
        × (IsMealScan (get item "payload_cid")
            × ((body : Fields) × (get item "body" ≡ obj body) × IsBody body mean var)))

-- An event is accepted, with its mean and its variance, exactly when it is such an event.
pub validate_food_event_iff :
    (event : Value) (index : ℕ) (mean var : ℤ)
    → (validate_food_event event index ≡ ok (mean, var)) ↔ IsIntakeEvent event mean var
unfolding validate_food_event
validate_food_event_iff event index mean var =
    let b : ℤ × ℤ = (mean, var) in
    >>=_iff _ _ b (require_object_iff event _ _) (λ item.
      >>_iff _ _ b (require_equal-str _ _ _ "IntakeEvent") (
        >>_iff _ _ b (require-Accepts _ _ (is_meal_scan_iff (get item "payload_cid"))) (
          >>=_iff _ _ b (require_object_iff (get item "body") _ _)
            (λ body. validate_body_iff body index mean var))))
