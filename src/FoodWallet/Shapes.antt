-- ===== src/FoodWallet/Shapes.antt =====
-- The shapes of tools/ci/check_food_wallet_contract.py: an entry, a draft, a candidate, an offer, and
-- the safe summary.
use grain_protocol.Base.{
  ℕ, suc, String, true, false, not, some, List, [], ◌∷◌, keys, Result, ok, require, ◌>>=◌, ◌>>◌,
}
use grain_protocol.Base.Int.{pos}
use grain_protocol.Json.{Value, str, arr, Items, nil, cons, is_nil, Fields, fields, texts, get}
use grain_protocol.Report.{Detail, at, plus, Message, coded, require_equal}
use grain_protocol.FoodWallet.Checks.{
  trust_status_values, source_class_values, as_dict, as_list, require_str, require_int,
  require_enum, require_kcal_map,
}

abbrev pub safe_summary_schema : String
safe_summary_schema = "grain.food-wallet.safe-summary.v1"

abbrev pub allowed_summary_fields : List String
allowed_summary_fields =
    "schema" ∷ "summary_id" ∷ "entries" ∷ "totals" ∷ "insights" ∷ "generated_at" ∷ []

abbrev pub quantity_names : List String
quantity_names = "amount_g" ∷ "serving_g" ∷ "servings" ∷ []

abbrev pub insight_kinds : List String
insight_kinds = "energy" ∷ "serving" ∷ "confidence" ∷ []

abbrev pub estimate_code : String
estimate_code = "FOOD_WALLET_CONTRACT_ERR_FAKE_PHOTO_ESTIMATE"

abbrev pub qr_draft_code : String
qr_draft_code = "FOOD_WALLET_CONTRACT_ERR_VERIFIED_QR_DRAFT"

abbrev pub summary_code : String
summary_code = "FOOD_WALLET_CONTRACT_ERR_SAFE_SUMMARY"

-- The loop over the quantities of an entry.
unfoldable pub require_quantities :
    Fields → String → Detail → List String → Result Message (Unit {0})
require_quantities entry code detail [] = ok tt
require_quantities entry code detail (quantity ∷ quantities) = do
  require_int (some (pos 0)) (get entry quantity) code (plus (plus detail ".") quantity)
  require_quantities entry code detail quantities

unfoldable pub validate_entry : Value → String → Detail → Result Message (String × String)
validate_entry value code detail = do
  entry ← as_dict value code detail
  require_str (get entry "entry_id") code (plus detail ".entry_id")
  source_class ←
      require_enum (get entry "source_class") source_class_values code (plus detail ".source_class")
  trust_status ←
      require_enum (get entry "trust_status") trust_status_values code (plus detail ".trust_status")
  require_kcal_map false (get entry "mean") code (plus detail ".mean")
  require_kcal_map true (get entry "var") code (plus detail ".var")
  require_quantities entry code detail quantity_names
  ok (source_class, trust_status)

unfoldable pub validate_draft : Value → String → Detail → String → Result Message (Unit {0})
validate_draft value code detail expected_trust = do
  draft ← as_dict value code detail
  require_str (get draft "draft_id") code (plus detail ".draft_id")
  source_class ←
      require_enum (get draft "source_class") source_class_values code (plus detail ".source_class")
  trust_status ←
      require_enum (get draft "trust_status") trust_status_values code (plus detail ".trust_status")
  require_equal (str trust_status) (str expected_trust) code (plus detail ".trust_status")
  parts ← validate_entry (get draft "entry") code (plus detail ".entry")
  require_equal (str parts.0) (str source_class) code (plus detail ".entry.source_class")
  require_equal (str parts.1) (str trust_status) code (plus detail ".entry.trust_status")

unfoldable pub validate_candidate : Value → Detail → Result Message (Unit {0})
validate_candidate value detail = do
  candidate ← as_dict value estimate_code detail
  require_str (get candidate "candidate_id") estimate_code (plus detail ".candidate_id")
  require_str (get candidate "label") estimate_code (plus detail ".label")
  require_equal (get candidate "source_class") (str "estimated") estimate_code
      (plus detail ".source_class")
  require_equal (get candidate "trust_status") (str "estimated") estimate_code
      (plus detail ".trust_status")
  require_kcal_map false (get candidate "mean") estimate_code (plus detail ".mean")
  require_kcal_map true (get candidate "var") estimate_code (plus detail ".var")

unfoldable pub validate_offer : Value → Detail → Result Message (Unit {0})
validate_offer value detail = do
  offer ← as_dict value qr_draft_code detail
  require_str (get offer "offer_id") qr_draft_code (plus detail ".offer_id")
  require_str (get offer "issuer") qr_draft_code (plus detail ".issuer")
  require_equal (get offer "source_class") (str "attested") qr_draft_code
      (plus detail ".source_class")
  require_equal (get offer "trust_status") (str "verified") qr_draft_code
      (plus detail ".trust_status")
  require_int (some (pos 0)) (get offer "serving_g") qr_draft_code (plus detail ".serving_g")
  require_kcal_map false (get offer "mean") qr_draft_code (plus detail ".mean")
  require_kcal_map true (get offer "var") qr_draft_code (plus detail ".var")

-- The loop over the entries of a summary, and the one over its insights.
unfoldable pub validate_entries : Detail → ℕ → Items → Result Message (Unit {0})
validate_entries detail index nil = ok tt
validate_entries detail index (cons entry entries) = do
  validate_entry entry summary_code (at (plus detail ".entries") index)
  validate_entries detail (suc index) entries

unfoldable pub validate_insights : Detail → ℕ → Items → Result Message (Unit {0})
validate_insights detail index nil = ok tt
validate_insights detail index (cons insight_value insights) = do
  insight ← as_dict insight_value summary_code (at (plus detail ".insights") index)
  require_enum (get insight "kind") insight_kinds summary_code
      (plus (at (plus detail ".insights") index) ".kind")
  require_str (get insight "message") summary_code
      (plus (at (plus detail ".insights") index) ".message")
  validate_insights detail (suc index) insights

unfoldable pub validate_safe_summary : Value → Detail → Result Message (Unit {0})
validate_safe_summary value detail = do
  summary ← as_dict value summary_code detail
  require_equal (get summary "schema") (str safe_summary_schema) summary_code
      (plus detail ".schema")
  require_equal (arr (texts (keys (fields summary)))) (arr (texts allowed_summary_fields))
      "FOOD_WALLET_CONTRACT_ERR_SAFE_SUMMARY_FIELDS" detail
  require_str (get summary "summary_id") summary_code (plus detail ".summary_id")
  entries ← as_list (get summary "entries") summary_code (plus detail ".entries")
  require (not (is_nil entries)) (coded summary_code (plus detail ".entries must not be empty"))
  validate_entries detail 0 entries
  totals ← as_dict (get summary "totals") summary_code (plus detail ".totals")
  require_kcal_map false (get totals "mean") summary_code (plus detail ".totals.mean")
  require_kcal_map true (get totals "var") summary_code (plus detail ".totals.var")
  insights ← as_list (get summary "insights") summary_code (plus detail ".insights")
  validate_insights detail 0 insights
  require_str (get summary "generated_at") summary_code (plus detail ".generated_at")
  ok tt
