-- ===== src/FoodWallet/Draft.antt =====
-- A draft, a candidate and an offer.
use grain_protocol.Base.{
  ◌≡◌, refl, ◌↔◌, ap, subst, String, true, false, ok, >>=_iff, >>_iff, unit_iff, Accepts,
}
use grain_protocol.Json.{Value, str, obj, Fields, get}
use grain_protocol.Report.{Detail, require_equal}
use grain_protocol.Report.Laws.{IsCount, require_equal-str}
use grain_protocol.FoodWallet.Checks.{trust_status_values, source_class_values}
use grain_protocol.FoodWallet.Shapes.{validate_draft, validate_candidate, validate_offer}
use grain_protocol.FoodWallet.Entry.{
  as_dict_iff, IsText, IsEnum, require_enum_iff, IsKcalMap, IsCount-Accepts, str-Accepts,
  IsKcalMap-Accepts, IsEntry, validate_entry_iff,
}

-- A draft with an entry of its own two classes, the trust status being the expected one.
abbrev pub IsDraft : Value → String → Type 0
IsDraft v expected_trust =
    (draft : Fields) × (v ≡ obj draft)
    × (((s : String) × IsText (get draft "draft_id") s)
        × ((source_class : String) × IsEnum source_class_values (get draft "source_class")
              source_class
            × (IsEnum trust_status_values (get draft "trust_status") expected_trust
                × IsEntry (get draft "entry") source_class expected_trust)))

str_injective : {s t : String} → str s ≡ str t → s ≡ t
str_injective h = cc

-- What the entry of a draft has to repeat.
same-Accepts :
    (s t : String) (code : String) (detail : Detail)
    → Accepts (require_equal (str s) (str t) code detail) (s ≡ t)
same-Accepts s t code detail =
    let both = require_equal-str (str s) code detail t in
    (λ h. str_injective (both.0 h), λ h. both.1 (ap str h))

-- A draft is accepted exactly when it has the expected trust status and an entry that repeats its
-- classes.
pub validate_draft_iff :
    (v : Value) (code : String) (detail : Detail) (expected_trust : String)
    → (validate_draft v code detail expected_trust ≡ ok tt) ↔ IsDraft v expected_trust
unfolding validate_draft
validate_draft_iff v code detail expected_trust =
    let steps = >>=_iff _ _ tt (as_dict_iff v code detail) (λ draft.
      >>_iff _ _ tt (str-Accepts (get draft "draft_id") _ _) (
        >>=_iff _ _ tt (require_enum_iff (get draft "source_class") source_class_values _ _) (λ s.
          >>=_iff _ _ tt (require_enum_iff (get draft "trust_status") trust_status_values _ _) (λ t.
            >>_iff _ _ tt (same-Accepts t expected_trust _ _) (
              >>=_iff _ _ tt
                (λ (p : String × String). validate_entry_iff (get draft "entry") _ _ p.0 p.1)
                (λ p.
                  >>_iff _ _ tt (same-Accepts p.0 s _ _)
                    (unit_iff _ (same-Accepts p.1 t _ _)))))))) in
    (
      λ h.
          let (
            draft,
            is_obj,
            (
              id,
              (s, is_source, (t, is_trust, (expected, (p, is_entry, (same_source, same_trust))))),
            ),
          ) =
            steps.0 h in
          (
            draft,
            is_obj,
            (
              id,
              (
                s,
                is_source,
                (
                  subst (IsEnum trust_status_values (get draft "trust_status")) expected is_trust,
                  subst (IsEntry (get draft "entry") s) expected (
                      subst (IsEntry (get draft "entry") s) same_trust
                        (subst (λ x. IsEntry (get draft "entry") x p.1) same_source is_entry)),
                ),
              ),
            ),
          ),
      λ (draft, is_obj, (id, (s, is_source, (is_trust, is_entry)))). steps.1 (
        draft,
        is_obj,
        (
          id,
          (
            s,
            is_source,
            (expected_trust, is_trust, (refl, ((s, expected_trust), is_entry, (refl, refl)))),
          ),
        ),
      ),
    )

-- An estimate with an identity and a label.
abbrev pub IsCandidate : Value → Type 0
IsCandidate v =
    (candidate : Fields) × (v ≡ obj candidate)
    × (((s : String) × IsText (get candidate "candidate_id") s)
        × (((s : String) × IsText (get candidate "label") s)
            × ((get candidate "source_class" ≡ str "estimated")
                × ((get candidate "trust_status" ≡ str "estimated")
                    × (IsKcalMap false (get candidate "mean")
                        × IsKcalMap true (get candidate "var"))))))

-- A candidate is accepted exactly when it is a labelled estimate.
pub validate_candidate_iff :
    (v : Value) (detail : Detail) → (validate_candidate v detail ≡ ok tt) ↔ IsCandidate v
unfolding validate_candidate
validate_candidate_iff v detail = >>=_iff _ _ tt (as_dict_iff v _ _) (λ candidate.
    >>_iff _ _ tt (str-Accepts (get candidate "candidate_id") _ _) (
      >>_iff _ _ tt (str-Accepts (get candidate "label") _ _) (
        >>_iff _ _ tt (require_equal-str _ _ _ _) (
          >>_iff _ _ tt (require_equal-str _ _ _ _) (
            >>_iff _ _ tt (IsKcalMap-Accepts false (get candidate "mean") _ _)
              (unit_iff _ (IsKcalMap-Accepts true (get candidate "var") _ _)))))))

-- An attested and verified offer of an issuer.
abbrev pub IsOffer : Value → Type 0
IsOffer v =
    (offer : Fields) × (v ≡ obj offer)
    × (((s : String) × IsText (get offer "offer_id") s)
        × (((s : String) × IsText (get offer "issuer") s)
            × ((get offer "source_class" ≡ str "attested")
                × ((get offer "trust_status" ≡ str "verified")
                    × (IsCount (get offer "serving_g")
                        × (IsKcalMap false (get offer "mean")
                            × IsKcalMap true (get offer "var")))))))

pub validate_offer_iff :
    (v : Value) (detail : Detail) → (validate_offer v detail ≡ ok tt) ↔ IsOffer v
unfolding validate_offer
validate_offer_iff v detail = >>=_iff _ _ tt (as_dict_iff v _ _) (λ offer.
    >>_iff _ _ tt (str-Accepts (get offer "offer_id") _ _) (
      >>_iff _ _ tt (str-Accepts (get offer "issuer") _ _) (
        >>_iff _ _ tt (require_equal-str _ _ _ _) (
          >>_iff _ _ tt (require_equal-str _ _ _ _) (
            >>_iff _ _ tt (IsCount-Accepts (get offer "serving_g") _ _) (
              >>_iff _ _ tt (IsKcalMap-Accepts false (get offer "mean") _ _)
                (unit_iff _ (IsKcalMap-Accepts true (get offer "var") _ _))))))))
