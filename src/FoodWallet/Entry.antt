-- ===== src/FoodWallet/Entry.antt =====
-- An entry, a draft, a candidate and an offer: `validate_entry` and the checks that are built on it.
use grain_protocol.Base.{
  ◌≡◌, refl, ◌↔◌, ap, subst, arith, String, str_eq, Bool, true, false, Option, none, some, List, [],
  ◌∷◌, contains, All, ok, >>=_iff, >>_iff, ok_iff, require-Accepts, any-Accepts, unit-Accepts,
  end_iff, Accepts, Bool-cases, inl, inr, if◌then◌else◌,
}
use grain_protocol.Base.Int.{ℤ, pos, ◌≤ℤ◌}
use grain_protocol.Json.{Value, int, str, obj, Fields, get, has_key}
use grain_protocol.Report.{Detail}
use grain_protocol.Report.Laws.{IsInt, IsCount}
use grain_protocol.FoodWallet.Checks.{
  trust_status_values, source_class_values, as_dict, require_str, require_int, require_enum,
  require_kcal_map,
}
use grain_protocol.FoodWallet.Shapes.{quantity_names, require_quantities, validate_entry}

pub as_dict_iff :
    (v : Value) (code : String) (detail : Detail) (m : Fields)
    → (as_dict v code detail ≡ ok m) ↔ (v ≡ obj m)
unfolding as_dict
as_dict_iff (obj fs) code detail m = (λ h. cc, λ h. cc)
as_dict_iff _ code detail m = (λ h. cc, λ h. cc)

-- A text with something in it.
abbrev pub IsText : Value → String → Type 0
IsText v s = (v ≡ str s) × (str_eq s "" ≡ false)

pub require_str_iff :
    (v : Value) (code : String) (detail : Detail) (s : String)
    → (require_str v code detail ≡ ok s) ↔ IsText v s
unfolding require_str
require_str_iff (str t) code detail s = elim (Bool-cases (str_eq t "")) [
  | inl empty ↦
      rw empty (
        λ h. cc,
        λ (same, full). let e : t ≡ s = cc in cc (subst (λ x. str_eq x "" ≡ true) e empty),
      )
  | inr full ↦
      rw full
        (λ h. let e : t ≡ s = cc in (ap str e, subst (λ x. str_eq x "" ≡ false) e full), λ h. cc)
]
require_str_iff _ code detail s = (λ h. cc, λ h. cc)

-- An integer that is not less than the minimum.
abbrev pub AtLeast : Option ℤ → ℤ → Type 0
AtLeast none n = Unit
AtLeast (some least) n = least ≤ℤ n

pub require_int_iff :
    (minimum : Option ℤ) (v : Value) (code : String) (detail : Detail) (n : ℤ)
    → (require_int minimum v code detail ≡ ok n) ↔ (IsInt v n × AtLeast minimum n)
unfolding require_int
require_int_iff none (int m) code detail n = ground arith
require_int_iff (some least) (int m) code detail n = ground arith
require_int_iff minimum _ code detail n = (λ h. cc, λ h. cc)

-- One of the allowed texts.
abbrev pub IsEnum : List String → Value → String → Type 0
IsEnum allowed v s = IsText v s × (contains allowed s ≡ true)

pub require_enum_iff :
    (v : Value) (allowed : List String) (code : String) (detail : Detail) (s : String)
    → (require_enum v allowed code detail ≡ ok s) ↔ IsEnum allowed v s
unfolding require_enum
require_enum_iff v allowed code detail s =
    let steps =
      >>=_iff _ _ s (require_str_iff v code detail) (λ t.
        >>_iff _ _ s (require-Accepts (contains allowed t) _ (λ h. h, λ h. h)) (ok_iff t s)) in
    (
      λ h.
          let (t, is_text, (there, same)) = steps.0 h in
          (subst (IsText v) same is_text, subst (λ x. contains allowed x ≡ true) same there),
      λ (is_text, there). steps.1 (s, is_text, (there, refl)),
    )

pub IsCount-Accepts :
    (v : Value) (code : String) (detail : Detail)
    → Accepts (require_int (some (pos 0)) v code detail) (IsCount v)
IsCount-Accepts v code detail = any-Accepts _ (require_int_iff (some (pos 0)) v code detail)

pub str-Accepts :
    (v : Value) (code : String) (detail : Detail)
    → Accepts (require_str v code detail) ((s : String) × IsText v s)
str-Accepts v code detail = any-Accepts _ (require_str_iff v code detail)

-- The kcal of a map: an integer that fits, and one that is not negative.
abbrev pub IsKcal : Bool → Value → Type 0
IsKcal true v = IsCount v
IsKcal false v = (n : ℤ) × (IsInt v n × Unit {0})

abbrev pub IsKcalMap : Bool → Value → Type 0
IsKcalMap non_negative v =
    (m : Fields) × (v ≡ obj m) × ((has_key m "kcal" ≡ true) × IsKcal non_negative (get m "kcal"))

IsKcal-Accepts :
    (non_negative : Bool) (v : Value) (code : String) (detail : Detail)
    → Accepts
        (require_int (if non_negative then some (pos 0) else none) v code detail)
        (IsKcal non_negative v)
IsKcal-Accepts true v code detail = IsCount-Accepts v code detail
IsKcal-Accepts false v code detail = any-Accepts _ (require_int_iff none v code detail)

pub IsKcalMap-Accepts :
    (non_negative : Bool) (v : Value) (code : String) (detail : Detail)
    → Accepts (require_kcal_map non_negative v code detail) (IsKcalMap non_negative v)
unfolding require_kcal_map
IsKcalMap-Accepts non_negative v code detail = unit-Accepts _ (
    >>=_iff _ _ tt (as_dict_iff v code detail) (λ m.
      >>_iff _ _ tt (require-Accepts _ _ (λ h. h, λ h. h))
        (end_iff _ (IsKcal-Accepts non_negative _ _ _))))

-- Each of these quantities is a count.
abbrev pub AreCounts : Fields → List String → Type 0
AreCounts entry names = All (λ name. IsCount (get entry name)) names

require_quantities_iff :
    (entry : Fields) (code : String) (detail : Detail) (names : List String)
    → (require_quantities entry code detail names ≡ ok tt) ↔ AreCounts entry names
unfolding require_quantities
require_quantities_iff entry code detail [] = (λ h. tt, λ h. refl)
require_quantities_iff entry code detail (name ∷ names) =
    >>_iff _ _ tt (IsCount-Accepts (get entry name) _ _)
      (require_quantities_iff entry code detail names)

-- What stands in an entry beside its two classes: an identity, kcal for the mean and the variance, and counts.
abbrev pub IsMeasured : Fields → Type 0
IsMeasured entry =
    IsKcalMap false (get entry "mean")
    × (IsKcalMap true (get entry "var") × AreCounts entry quantity_names)

-- An entry of these classes.
abbrev pub IsEntry : Value → String → String → Type 0
IsEntry v source_class trust_status =
    (entry : Fields) × (v ≡ obj entry)
    × (((s : String) × IsText (get entry "entry_id") s)
        × (IsEnum source_class_values (get entry "source_class") source_class
            × (IsEnum trust_status_values (get entry "trust_status") trust_status
                × IsMeasured entry)))

pair_path : {a b c d : String} → ◌≡◌ {A = String × String} (a, b) (c, d) → (a ≡ c) × (b ≡ d)
pair_path h = (ap (λ p. p.0) h, ap (λ p. p.1) h)

-- An entry is accepted, with its source class and its trust status, exactly when it is one.
pub validate_entry_iff :
    (v : Value) (code : String) (detail : Detail) (source_class trust_status : String)
    → (validate_entry v code detail ≡ ok (source_class, trust_status))
      ↔ IsEntry v source_class trust_status
unfolding validate_entry
validate_entry_iff v code detail source_class trust_status =
    let b : String × String = (source_class, trust_status) in
    let steps = >>=_iff _ _ b (as_dict_iff v code detail) (λ entry.
      >>_iff _ _ b (str-Accepts (get entry "entry_id") _ _) (
        >>=_iff _ _ b (require_enum_iff (get entry "source_class") source_class_values _ _) (λ s.
          >>=_iff _ _ b (require_enum_iff (get entry "trust_status") trust_status_values _ _) (λ t.
            >>_iff _ _ b (IsKcalMap-Accepts false (get entry "mean") _ _) (
              >>_iff _ _ b (IsKcalMap-Accepts true (get entry "var") _ _) (
                >>_iff _ _ b
                  (unit-Accepts _ (require_quantities_iff entry code detail quantity_names))
                  (ok_iff (s, t) b))))))) in
    (
      λ h.
          let (entry, is_obj, (id, (s, is_source, (t, is_trust, (mean, (var, (counts, same))))))) =
            steps.0 h in
          let (same_source, same_trust) = pair_path same in
          (
            entry,
            is_obj,
            (
              id,
              (
                subst (IsEnum source_class_values (get entry "source_class")) same_source is_source,
                (
                  subst (IsEnum trust_status_values (get entry "trust_status")) same_trust is_trust,
                  (mean, (var, counts)),
                ),
              ),
            ),
          ),
      λ (entry, is_obj, (id, (is_source, (is_trust, (mean, (var, counts)))))). steps.1 (
        entry,
        is_obj,
        (id, (source_class, is_source, (trust_status, is_trust, (mean, (var, (counts, refl)))))),
      ),
    )
