-- ===== src/Stabilization/Stable.antt =====
-- The comparison of answers by their canonical texts.
use grain_protocol.Base.{
  ==_iff, ◌≡◌, refl, String, eq_refl, Bool, true, false, and_join, List, All, length,
}
use grain_protocol.Base.Int.{shift, eqb_ℤ-iff}
use grain_protocol.Json.{
  Value, null, nan, bool, infinity, int, real, str, obj, arr, Items, nil, cons, Fields, end, field,
  fields, items,
}
use grain_protocol.Stabilization.Found.{
  IsProper, AreProperFields, AreProperItems, Looked, Distinct-Looked,
}
use grain_protocol.Stabilization.Verdicts.{stable_eq, stable_items, stable_fields, bool_eq}

bool_eq_refl : (b : Bool) → bool_eq b b ≡ true
bool_eq_refl true = refl
bool_eq_refl false = refl

mutual
  unfolding stable_eq

  itself : (v : Value) → IsProper v → stable_eq v v ≡ true
  itself null h = refl
  itself nan h = refl
  itself (bool b) h = bool_eq_refl b
  itself (infinity b) h = bool_eq_refl b
  itself (int n) h = (eqb_ℤ-iff n n).1 refl
  itself (real n k) h = (eqb_ℤ-iff (shift n k) _).1 refl
  itself (str s) h = eq_refl s
  itself (arr vs) h = items_themselves vs h
  itself (obj fs) h =
      and_join _ _ ((==_iff (length (fields fs)) _).1 refl)
        (fields_themselves fs (fields fs) h.1 (Distinct-Looked (fields fs) h.0))

  items_themselves : (vs : Items) → AreProperItems vs → stable_items vs (items vs) ≡ true
  items_themselves nil h = refl
  items_themselves (cons v vs) h = and_join _ _ (itself v h.0) (items_themselves vs h.1)

  fields_themselves :
      (fs : Fields) (gs : List (String × Value))
      → AreProperFields fs
      → All (Looked gs) (fields fs)
      → stable_fields fs gs ≡ true
  fields_themselves end gs h found = refl
  fields_themselves (field k v fs) gs h found =
      rw found.0 (and_join _ _ (itself v h.0) (fields_themselves fs gs h.1 found.1))

-- An answer is the same as itself: two runners that answer alike never diverge.
pub stable_eq_refl : (v : Value) → IsProper v → stable_eq v v ≡ true
stable_eq_refl v h = itself v h
