-- ===== src/FoodWallet/Summary.antt =====
-- The safe summary: `validate_safe_summary`.
use grain_protocol.Base.{
  ℕ, suc, ◌≡◌, refl, ◌↔◌, ap, String, true, false, not, List, [], ◌∷◌, keys, ok, >>=_iff, >>_iff,
  require, require-Accepts, any-Accepts, unit-Accepts, end_iff, Accepts, not_iff,
}
use grain_protocol.Json.{Value, str, arr, obj, Items, nil, cons, is_nil, Fields, fields, texts, get}
use grain_protocol.Report.{Detail, Message, require_equal}
use grain_protocol.Report.Laws.{require_equal-str, require_equal-texts}
use grain_protocol.FoodWallet.Checks.{as_list}
use grain_protocol.FoodWallet.Shapes.{
  safe_summary_schema, allowed_summary_fields, insight_kinds, validate_entries, validate_insights,
  validate_safe_summary,
}
use grain_protocol.FoodWallet.Entry.{
  as_dict_iff, IsText, IsEnum, require_enum_iff, IsKcalMap, str-Accepts, IsKcalMap-Accepts, IsEntry,
  validate_entry_iff,
}

as_list_iff :
    (v : Value) (code : String) (detail : Detail) (vs : Items)
    → (as_list v code detail ≡ ok vs) ↔ (v ≡ arr vs)
unfolding as_list
as_list_iff (arr ws) code detail vs = (λ h. cc, λ h. cc)
as_list_iff _ code detail vs = (λ h. cc, λ h. cc)

abbrev pub AreEntries : Items → Type 0
AreEntries nil = Unit
AreEntries (cons v vs) = ((p : String × String) × IsEntry v p.0 p.1) × AreEntries vs

validate_entries_iff :
    (detail : Detail) (index : ℕ) (entries : Items)
    → (validate_entries detail index entries ≡ ok tt) ↔ AreEntries entries
unfolding validate_entries
validate_entries_iff detail index nil = (λ h. tt, λ h. refl)
validate_entries_iff detail index (cons v vs) =
    >>_iff _ _ tt
      (any-Accepts {P = λ (p : String × String). IsEntry v p.0 p.1} _
        (λ p. validate_entry_iff v _ _ p.0 p.1))
      (validate_entries_iff detail (suc index) vs)

-- An insight of a known kind, with a message.
abbrev pub IsInsight : Value → Type 0
IsInsight v =
    (insight : Fields) × (v ≡ obj insight)
    × (((s : String) × IsEnum insight_kinds (get insight "kind") s)
        × ((s : String) × IsText (get insight "message") s))

abbrev pub AreInsights : Items → Type 0
AreInsights nil = Unit
AreInsights (cons v vs) = IsInsight v × AreInsights vs

validate_insights_iff :
    (detail : Detail) (index : ℕ) (insights : Items)
    → (validate_insights detail index insights ≡ ok tt) ↔ AreInsights insights
unfolding validate_insights
validate_insights_iff detail index nil = (λ h. tt, λ h. refl)
validate_insights_iff detail index (cons v vs) =
    let steps = >>=_iff _ _ tt (as_dict_iff v _ _) (λ insight.
      >>_iff _ _ tt (any-Accepts _ (require_enum_iff (get insight "kind") insight_kinds _ _)) (
        >>_iff _ _ tt (str-Accepts (get insight "message") _ _)
          (validate_insights_iff detail (suc index) vs))) in
    (
      λ h.
          let (insight, is_obj, (kind, (message, rest))) = steps.0 h in
          ((insight, is_obj, (kind, message)), rest),
      λ ((insight, is_obj, (kind, message)), rest).
          steps.1 (insight, is_obj, (kind, (message, rest))),
    )

-- The totals of a summary.
abbrev pub IsTotals : Value → Type 0
IsTotals v =
    (totals : Fields) × (v ≡ obj totals)
    × (IsKcalMap false (get totals "mean") × IsKcalMap true (get totals "var"))

-- Exactly the allowed fields in their order, with some entry, totals and insights.
abbrev pub IsSafeSummary : Value → Type 0
IsSafeSummary v =
    (summary : Fields) × (v ≡ obj summary)
    × ((get summary "schema" ≡ str safe_summary_schema)
        × ((keys (fields summary) ≡ allowed_summary_fields)
            × (((s : String) × IsText (get summary "summary_id") s)
                × (((entries : Items) × (get summary "entries" ≡ arr entries)
                      × ((is_nil entries ≡ false) × AreEntries entries))
                    × (IsTotals (get summary "totals")
                        × (((insights : Items) × (get summary "insights" ≡ arr insights)
                              × AreInsights insights)
                            × ((s : String) × IsText (get summary "generated_at") s)))))))

cons_parts :
    {s t : String} {vs ws : Items} → cons (str s) vs ≡ cons (str t) ws → (s ≡ t) × (vs ≡ ws)
cons_parts h = (cc, cc)

texts_injective : (ss ts : List String) → texts ss ≡ texts ts → ss ≡ ts
texts_injective [] [] h = refl
texts_injective [] (t ∷ ts) h = cc
texts_injective (s ∷ ss) [] h = cc
texts_injective (s ∷ ss) (t ∷ ts) h =
    let (here, rest) = cons_parts h in let later = texts_injective ss ts rest in cc

arr_injective : {vs ws : Items} → arr vs ≡ arr ws → vs ≡ ws
arr_injective h = cc

pub fields-Accepts :
    (ss ts : List String) (code : String) (detail : Detail)
    → Accepts (require_equal (arr (texts ss)) (arr (texts ts)) code detail) (ss ≡ ts)
fields-Accepts ss ts code detail =
    let both = require_equal-texts (arr (texts ss)) code detail ts in
    (λ h. texts_injective ss ts (arr_injective (both.0 h)), λ h. both.1 (ap (λ x. arr (texts x)) h))

filled-Accepts :
    (vs : Items) (m : Message) → Accepts (require (not (is_nil vs)) m) (is_nil vs ≡ false)
filled-Accepts vs m = require-Accepts _ m (not_iff (is_nil vs))

-- A summary is accepted exactly when it has the allowed fields alone, in their order, with entries,
-- totals and insights of their shapes.
pub validate_safe_summary_iff :
    (v : Value) (detail : Detail) → (validate_safe_summary v detail ≡ ok tt) ↔ IsSafeSummary v
unfolding validate_safe_summary
validate_safe_summary_iff v detail =
    let steps = >>=_iff _ _ tt (as_dict_iff v _ _) (λ summary.
      >>_iff _ _ tt (require_equal-str (get summary "schema") _ _ safe_summary_schema) (
        >>_iff _ _ tt (fields-Accepts (keys (fields summary)) allowed_summary_fields _ _) (
          >>_iff _ _ tt (str-Accepts (get summary "summary_id") _ _) (
            >>=_iff _ _ tt (as_list_iff (get summary "entries") _ _) (λ entries.
              >>_iff _ _ tt (filled-Accepts entries _) (
                >>_iff _ _ tt (unit-Accepts _ (validate_entries_iff detail 0 entries)) (
                  >>=_iff _ _ tt (as_dict_iff (get summary "totals") _ _) (λ totals.
                    >>_iff _ _ tt (IsKcalMap-Accepts false (get totals "mean") _ _) (
                      >>_iff _ _ tt (IsKcalMap-Accepts true (get totals "var") _ _) (
                        >>=_iff _ _ tt (as_list_iff (get summary "insights") _ _) (λ insights.
                          >>_iff _ _ tt (unit-Accepts _ (validate_insights_iff detail 0 insights))
                            (end_iff _ (str-Accepts (get summary "generated_at") _ _))))))))))))) in
    (
      λ h.
          let (
            summary,
            is_obj,
            (
              schema,
              (
                names,
                (
                  id,
                  (
                    entries,
                    is_list,
                    (
                      some_entry,
                      (
                        are,
                        (totals, is_totals, (mean, (var, (insights, are_list, (insight, at))))),
                      ),
                    ),
                  ),
                ),
              ),
            ),
          ) =
            steps.0 h in
          (
            summary,
            is_obj,
            (
              schema,
              (
                names,
                (
                  id,
                  (
                    (entries, is_list, (some_entry, are)),
                    ((totals, is_totals, (mean, var)), ((insights, are_list, insight), at)),
                  ),
                ),
              ),
            ),
          ),
      λ (
        summary,
        is_obj,
        (
          schema,
          (
            names,
            (
              id,
              (
                (entries, is_list, (some_entry, are)),
                ((totals, is_totals, (mean, var)), ((insights, are_list, insight), at)),
              ),
            ),
          ),
        ),
      ).
          steps.1 (
            summary,
            is_obj,
            (
              schema,
              (
                names,
                (
                  id,
                  (
                    entries,
                    is_list,
                    (
                      some_entry,
                      (
                        are,
                        (totals, is_totals, (mean, (var, (insights, are_list, (insight, at))))),
                      ),
                    ),
                  ),
                ),
              ),
            ),
          ),
    )
