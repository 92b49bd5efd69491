-- ===== src/FoodWallet/Tests.antt =====
-- Runs of the checks of the food wallet, and the theorems at concrete data.
use grain_protocol.Base.{
  ℕ, ◌≡◌, refl, ◌↔◌, String, true, false, Bool, contains, keys, lookup, List, [], ◌∷◌, Option, none,
  some, Result, ok, err, exit,
}
use grain_protocol.Base.Int.{ℤ, pos}
use grain_protocol.Json.{
  Value, int, str, arr, obj, nil, cons, end, field, Fields, get, has_key, texts, py_eq,
}
use grain_protocol.Report.{text, plus, coded, differs, Files, missing, require_equal}
use grain_protocol.Regex.{match_prefix, search_regex}
use grain_protocol.FoodWallet.{expected_fixtures, validate_fixtures}
use grain_protocol.FoodWallet.Checks.{
  as_dict, as_list, require_str, require_int, require_enum, require_kcal_map,
}
use grain_protocol.FoodWallet.Privacy.{
  walk_items, search_token, has_forbidden_content, is_forbidden_key, reject_items,
  reject_forbidden_raw_material,
}
use grain_protocol.FoodWallet.Shapes.{
  require_quantities, validate_entry, validate_draft, validate_entries, validate_insights,
  validate_safe_summary,
}
use grain_protocol.FoodWallet.Entry.{IsEntry, validate_entry_iff}
use grain_protocol.FoodWallet.Draft.{IsDraft, validate_draft_iff}
use grain_protocol.FoodWallet.Summary.{IsSafeSummary, validate_safe_summary_iff}
use grain_protocol.Base.Text.{sorted}
use grain_protocol.FoodWallet.Clean.{
  AreCleanFields, reject_forbidden_raw_material_iff, list_of_texts-passes,
}
use grain_protocol.FoodWallet.Fixtures.{AreFixtures, validate_fixtures_iff}

abbrev kcal : ℤ → Value
kcal n = obj (field "kcal" (int n) end)

abbrev entry : String → Value
entry trust = obj (
    field "entry_id" (str "e1") (
      field "source_class" (str "attested") (
        field "trust_status" (str trust) (
          field "mean" (kcal (pos 210)) (
            field "var" (kcal (pos 4)) (
              field "amount_g" (int (pos 150))
                (field "serving_g" (int (pos 150)) (field "servings" (int (pos 1)) end))))))))

abbrev draft : String → Value
draft entry_trust = obj (
    field "draft_id" (str "d1") (
      field "source_class" (str "attested")
        (field "trust_status" (str "verified") (field "entry" (entry entry_trust) end))))

abbrev summary : Value
summary = obj (
    field "schema" (str "grain.food-wallet.safe-summary.v1") (
      field "summary_id" (str "s1") (
        field "entries" (arr (cons (entry "verified") nil)) (
          field "totals" (obj (field "mean" (kcal (pos 210)) (field "var" (kcal (pos 4)) end))) (
            field "insights"
              (arr (
                cons (obj (field "kind" (str "energy") (field "message" (str "one meal") end)))
                  nil))
              (field "generated_at" (str "2026-01-01") end))))))

-- No character outside ASCII counts as one of a word here.
abbrev narrow : ℕ → Bool
narrow c = false

shapes : Unit {0}
unfolding contains keys lookup get has_key py_eq require_equal as_dict as_list require_str
    require_int require_enum require_kcal_map require_quantities validate_entry validate_draft
    validate_entries validate_insights validate_safe_summary
shapes = tt

entry_runs :
    (◌≡◌ {A = Result _ (String × String)}
      (validate_entry (entry "verified") "E" (text "e"))
      (ok ("attested", "verified")))
    × (validate_draft (draft "verified") "E" (text "d") "verified" ≡ ok tt)
    × (validate_draft (draft "estimated") "E" (text "d") "verified"
        ≡ err (
            exit (
              differs "E"
                (plus (text "d") ".entry.trust_status")
                (str "verified")
                (str "estimated"))))
    × (validate_safe_summary summary (text "s") ≡ ok tt)
unfolding shapes
entry_runs = (refl, refl, refl, refl)

search : Unit {0}
unfolding match_prefix search_regex search_token has_forbidden_content is_forbidden_key walk_items
    reject_items reject_forbidden_raw_material
search = tt

search_runs :
    (is_forbidden_key "Raw-Photo" ≡ true)
    × (is_forbidden_key "raw__photo" ≡ false)
    × (has_forbidden_content narrow "see GR1abcdefgh" ≡ true)
    × (has_forbidden_content narrow "seeGR1abcdefgh" ≡ false)
    × (has_forbidden_content narrow "Trust-Pub_b64 : x" ≡ true)
    × (reject_forbidden_raw_material narrow
          (field "note" (obj (field "seed" (int (pos 1)) end)) end)
          "p"
        ≡ err (
            exit (
              coded "FOOD_WALLET_CONTRACT_ERR_FORBIDDEN_RAW_FIELD" (
                plus (plus (plus (plus (plus (plus (text "p") ":") "$") ".") "note") ".") "seed"))))
unfolding search
search_runs = (refl, refl, refl, refl, refl, refl)

validate_entry_iff_example :
    (validate_entry (entry "verified") "E" (text "e") ≡ ok ("attested", "verified"))
    ↔ IsEntry (entry "verified") "attested" "verified"
validate_entry_iff_example =
    validate_entry_iff (entry "verified") "E" (text "e") "attested" "verified"

validate_draft_iff_example :
    (validate_draft (draft "verified") "E" (text "d") "verified" ≡ ok tt)
    ↔ IsDraft (draft "verified") "verified"
validate_draft_iff_example = validate_draft_iff (draft "verified") "E" (text "d") "verified"

validate_safe_summary_iff_example :
    (validate_safe_summary summary (text "s") ≡ ok tt) ↔ IsSafeSummary summary
validate_safe_summary_iff_example = validate_safe_summary_iff summary (text "s")

abbrev note : Fields
note = field "note" (str "GR1abcdefgh") end

reject_forbidden_raw_material_iff_example :
    (reject_forbidden_raw_material narrow note "p" ≡ ok tt) ↔ AreCleanFields narrow note
reject_forbidden_raw_material_iff_example = reject_forbidden_raw_material_iff narrow note "p"

list_of_texts-passes_example :
    reject_forbidden_raw_material narrow (field "notes" (arr (texts ("GR1abcdefgh" ∷ []))) end) "p"
    ≡ ok tt
unfolding search
list_of_texts-passes_example = list_of_texts-passes narrow "notes" "p" ("GR1abcdefgh" ∷ []) refl

abbrev files : Files
files = record { json = λ path. missing; text_of = λ path. none }

abbrev listing : String → Option (List String)
listing directory = some (keys expected_fixtures)

validate_fixtures_iff_example : (validate_fixtures narrow files listing "examples" ≡ ok tt) ↔ (
    (names : List String) × (listing "examples" ≡ some names)
    × ((sorted names ≡ sorted (keys expected_fixtures)) × AreFixtures narrow files "examples"))
validate_fixtures_iff_example = validate_fixtures_iff narrow files "examples" listing
