-- ===== src/FoodWallet/Checks.antt =====
-- The checks on single values of tools/ci/check_food_wallet_contract.py.
use grain_protocol.Base.{
  String, str_eq, Bool, false, ◌||◌, Option, none, some, List, [], ◌∷◌, contains, if◌then◌else◌,
  Result, ok, err, exit, decode_error, require, ◌>>=◌, ◌>>◌,
}
use grain_protocol.Base.Int.{ℤ, pos, ltb_ℤ}
use grain_protocol.Json.{Value, int, str, arr, obj, Items, Fields, get, has_key}
use grain_protocol.Report.{
  Detail, text, plus, Message, coded, not_one_of, Files, missing, malformed, parsed, int64_min,
  int64_max,
}

abbrev pub trust_status_values : List String
trust_status_values = "verified" ∷ "self_issued" ∷ "estimated" ∷ "untrusted" ∷ []

abbrev pub source_class_values : List String
source_class_values = "attested" ∷ "measured" ∷ "estimated" ∷ []

unfoldable pub load_json : Files → String → Result Message Fields
load_json files path = elim (files.json path) [
  | missing ↦ err (exit (coded "FOOD_WALLET_CONTRACT_ERR_FILE_MISSING" (text path)))
  | malformed ↦ err decode_error
  | parsed (obj fs) ↦ ok fs
  | parsed _ ↦ err (exit (coded "FOOD_WALLET_CONTRACT_ERR_JSON_OBJECT" (text path)))
]

unfoldable pub as_dict : Value → String → Detail → Result Message Fields
as_dict (obj fs) code detail = ok fs
as_dict _ code detail = err (exit (coded code (plus detail " must be an object")))

unfoldable pub as_list : Value → String → Detail → Result Message Items
as_list (arr vs) code detail = ok vs
as_list _ code detail = err (exit (coded code (plus detail " must be a list")))

unfoldable pub require_str : Value → String → Detail → Result Message String
require_str (str s) code detail =
    if str_eq s ""
    then err (exit (coded code (plus detail " must be a non-empty string")))
    else ok s
require_str _ code detail = err (exit (coded code (plus detail " must be a non-empty string")))

-- `minimum is not None and value < minimum`.
abbrev pub is_below : Option ℤ → ℤ → Bool
is_below none n = false
is_below (some least) n = ltb_ℤ n least

unfoldable pub require_int : Option ℤ → Value → String → Detail → Result Message ℤ
require_int minimum (int n) code detail =
    if ltb_ℤ n int64_min || ltb_ℤ int64_max n
    then err (exit (coded code (plus detail " must fit int64")))
    else if is_below minimum n
    then err (exit (coded code (plus detail " must be >= 0")))
    else ok n
require_int minimum _ code detail = err (exit (coded code (plus detail " must be an integer")))

unfoldable pub require_enum : Value → List String → String → Detail → Result Message String
require_enum value allowed code detail = do
  parsed' ← require_str value code detail
  require (contains allowed parsed') (not_one_of code detail allowed parsed')
  ok parsed'

unfoldable pub require_kcal_map : Bool → Value → String → Detail → Result Message (Unit {0})
require_kcal_map non_negative value code detail = do
  nutrient_map ← as_dict value code detail
  require (has_key nutrient_map "kcal") (coded code (plus detail ".kcal is required"))
  require_int (if non_negative then some (pos 0) else none) (get nutrient_map "kcal") code
      (plus detail ".kcal")
  ok tt
