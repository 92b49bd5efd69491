-- ===== src/Drift/Protected.antt =====
-- What a branch is when no drift is found.
use grain_protocol.Base.{
  ◌≡◌, refl, ap, ◌∙◌, ◌↔◌, String, Bool, true, false, not, List, [], ◌∷◌, ◌++◌, append-eq-nil_iff,
  lookup, some, none, if◌then◌else◌, Result, ok, err, ok-injective, type_error, >>=-eq-ok, then_iff,
  join_iff, ℕ, Option, ◌⊎◌, ◌<>◌,
}
use grain_protocol.Json.{
  Value, null, bool, int, obj, arr, nil, Fields, fields, end, get, get_or, truthy, py_eq,
}
use grain_protocol.Drift.{
  Args, Service, Answer, answered, refused, unreadable, answer_or_raise, split_commas,
  matching_rulesets, includes, check_ruleset, check_rulesets, compare_sets, parameter_drifts,
  check_pull_request, check_drifts, check_status_checks, id_of,
}
use grain_protocol.Drift.Active.{
  AreSame, same_set_iff, Holds, includes_iff, is_unset_iff, IsNamed, IsOnly, matching_rulesets_iff,
}
use grain_protocol.Drift.Rules.{
  Failure, Drift, wrong_methods, wrong_contexts, drift_if, fields_or, value_or, is_bool, rows_of,
  members_of, same_set, can_sort, contexts_of,
}

-- The parameters are the ones that are expected.
abbrev pub HasParameters : Args → Fields → Type 0
HasParameters args params =
    (py_eq (get params "required_approving_review_count") (int args.expected_approvals) ≡ true)
    × (is_bool (get params "require_code_owner_review") args.expected_codeowner_reviews ≡ true)
    × (is_bool (get params "dismiss_stale_reviews_on_push") args.expected_dismiss_stale_reviews
        ≡ true)
    × (is_bool (get params "require_last_push_approval") args.expected_last_push_approval ≡ true)
    × (is_bool (get params "required_review_thread_resolution")
          args.expected_conversation_resolution
        ≡ true)

-- The rule of pull requests has them, and the merge methods that are expected.
abbrev pub IsPullRequestRule : Args → Fields → Type 0
IsPullRequestRule args rule =
    (params : Fields) × (actual : List Value) × (fields_or
        (value_or (get rule "parameters") (obj end))
      ≡ ok params)
    × (members_of (value_or (get params "allowed_merge_methods") (arr nil)) ≡ ok actual)
    × AreSame actual (split_commas [] args.expected_merge_methods)
    × HasParameters args params

-- The rule of status checks has the contexts that are expected, and is strict.
abbrev pub IsChecksRule : Args → Fields → Type 0
IsChecksRule args rule =
    (checks : Fields) × (listed : List Fields) × (actual : List Value) × (fields_or
        (value_or (get rule "parameters") (obj end))
      ≡ ok checks)
    × (rows_of (value_or (get checks "required_status_checks") (arr nil)) ≡ ok listed)
    × (contexts_of listed ≡ ok actual)
    × AreSame actual (split_commas [] args.expected_contexts)
    × (truthy (get_or checks "strict_required_status_checks_policy" (bool false)) ≡ true)
    × (is_bool (get checks "do_not_enforce_on_create") args.expected_do_not_enforce_on_create
        ≡ true)

-- The ruleset is about the default branch, and nobody bypasses it.
abbrev pub IsRuleset : String → Value → Type 0
IsRuleset branch chosen =
    (fs : Fields) × (conditions : Fields) × (ref_name : Fields) × (chosen ≡ obj fs)
    × (fields_or (value_or (get fs "conditions") (obj end)) ≡ ok conditions)
    × (fields_or (value_or (get conditions "ref_name") (obj end)) ≡ ok ref_name)
    × (Holds (value_or (get ref_name "include") (arr nil)) "~DEFAULT_BRANCH"
        ⊎ Holds (value_or (get ref_name "include") (arr nil)) ("refs/heads/" <> branch))
    × ((get fs "bypass_actors" ≡ arr nil) ⊎ (get fs "bypass_actors" ≡ null))

-- The first error of a list that ends in others.
pub drift_if_iff :
    (b : Bool) (d : Drift) (rest : List Drift)
    → ((drift_if (not b) d ++ rest) ≡ []) ↔ ((b ≡ true) × (rest ≡ []))
drift_if_iff true d rest = (λ h. (refl, h), λ h. h.1)
drift_if_iff false d rest = (λ h. cc, λ h. cc)

compare_sets_iff :
    (d : Drift) (actual : List Value) (expected : List (List ℕ))
    → (compare_sets d actual expected ≡ ok []) ↔ (same_set actual expected ≡ true)
compare_sets_iff d actual expected = go (same_set actual expected) (can_sort actual)
  where
    go :
        (same sorts : Bool)
        → (◌≡◌ {A = Result Failure (List Drift)}
            (if same then ok [] else if sorts then ok (d ∷ []) else err type_error)
            (ok []))
          ↔ (same ≡ true)
    go true sorts = (λ _. refl, λ _. refl)
    go false true = (λ h. cc, λ h. cc)
    go false false = (λ h. cc, λ h. cc)

compare_sets-eq-ok :
    (d : Drift) (actual : List Value) (expected : List (List ℕ)) {found : List Drift}
    → compare_sets d actual expected ≡ ok found
    → found ≡ []
    → same_set actual expected ≡ true
compare_sets-eq-ok d actual expected h empty =
    (compare_sets_iff d actual expected).0 (h ∙ ap ok empty)

here {ℓ} : {P : Type ℓ} → P ↔ P
here = (λ h. h, λ h. h)

parameter_drifts_iff :
    (args : Args) (params : Fields) (methods : List Drift)
    → (parameter_drifts args params methods ≡ []) ↔ (HasParameters args params × (methods ≡ []))
parameter_drifts_iff args params methods =
    then_iff
      (then_iff (drift_if_iff _ _ _) (
        join_iff here (
          then_iff (drift_if_iff _ _ _) (
            join_iff here (
              then_iff (drift_if_iff _ _ _) (
                join_iff here
                  (then_iff (drift_if_iff _ _ _) (join_iff here (drift_if_iff _ _ _)))))))))
      (
        λ (a, (b, (c, (d, (e, m))))). ((a, b, c, d, e), m),
        λ ((a, b, c, d, e), m). (a, (b, (c, (d, (e, m))))),
      )

pub check_pull_request_iff :
    (args : Args) (rule : Fields)
    → (check_pull_request args rule ≡ ok []) ↔ IsPullRequestRule args rule
unfolding check_pull_request
check_pull_request_iff args rule = (forward, backward)
  where
    forward : check_pull_request args rule ≡ ok [] → IsPullRequestRule args rule
    forward h =
        let (params, got, h1) =
          >>=-eq-ok (fields_or (value_or (get rule "parameters") (obj end))) _ h in
        let (actual, members, h2) =
          >>=-eq-ok (members_of (value_or (get params "allowed_merge_methods") (arr nil))) _ h1 in
        let (methods, compared, h3) =
          >>=-eq-ok
            (compare_sets (wrong_methods actual) actual
              (split_commas [] args.expected_merge_methods))
            _ h2 in
        let (flags, empty) = (parameter_drifts_iff args params methods).0 (ok-injective h3) in
        (
          params,
          actual,
          got,
          members,
          (same_set_iff actual (split_commas [] args.expected_merge_methods)).0 (
              compare_sets-eq-ok (wrong_methods actual) actual
                (split_commas [] args.expected_merge_methods) compared empty),
          flags,
        )

    backward : IsPullRequestRule args rule → check_pull_request args rule ≡ ok []
    backward (params, actual, got, members, same, flags) =
        rw
          (got, members, (same_set_iff actual (split_commas [] args.expected_merge_methods)).1 same)
          (ap ok ((parameter_drifts_iff args params []).1 (flags, refl)))

check_drifts_iff :
    (args : Args) (checks : Fields) (contexts : List Drift)
    → (check_drifts args checks contexts ≡ []) ↔ (
        (contexts ≡ [])
        × (truthy (get_or checks "strict_required_status_checks_policy" (bool false)) ≡ true)
        × (is_bool (get checks "do_not_enforce_on_create") args.expected_do_not_enforce_on_create
            ≡ true))
check_drifts_iff args checks contexts = then_iff (append-eq-nil_iff contexts _) (
    then_iff (join_iff here (then_iff (drift_if_iff _ _ _) (join_iff here (drift_if_iff _ _ _))))
      (λ (c, (s, (e, _))). (c, s, e), λ (c, s, e). (c, (s, (e, refl)))))

pub check_status_checks_iff :
    (args : Args) (rule : Fields) → (check_status_checks args rule ≡ ok []) ↔ IsChecksRule args rule
unfolding check_status_checks
check_status_checks_iff args rule = (forward, backward)
  where
    forward : check_status_checks args rule ≡ ok [] → IsChecksRule args rule
    forward h =
        let (checks, got, h1) =
          >>=-eq-ok (fields_or (value_or (get rule "parameters") (obj end))) _ h in
        let (listed, rows, h2) =
          >>=-eq-ok (rows_of (value_or (get checks "required_status_checks") (arr nil))) _ h1 in
        let (actual, contexts, h3) = >>=-eq-ok (contexts_of listed) _ h2 in
        let (found, compared, h4) =
          >>=-eq-ok
            (compare_sets (wrong_contexts actual) actual (split_commas [] args.expected_contexts)) _
            h3 in
        let (empty, strict, enforce) = (check_drifts_iff args checks found).0 (ok-injective h4) in
        (
          checks,
          listed,
          actual,
          got,
          rows,
          contexts,
          (same_set_iff actual (split_commas [] args.expected_contexts)).0 (
              compare_sets-eq-ok (wrong_contexts actual) actual
                (split_commas [] args.expected_contexts) compared empty),
          strict,
          enforce,
        )

    backward : IsChecksRule args rule → check_status_checks args rule ≡ ok []
    backward (checks, listed, actual, got, rows, contexts, same, strict, enforce) =
        rw
          (
            got,
            rows,
            contexts,
            (same_set_iff actual (split_commas [] args.expected_contexts)).1 same,
          )
          (ap ok ((check_drifts_iff args checks []).1 (refl, strict, enforce)))

fields_or-eq-ok : (v : Value) {fs : Fields} → fields_or v ≡ ok fs → v ≡ obj fs
fields_or-eq-ok (obj gs) h = ap obj (ok-injective h)
fields_or-eq-ok _ h = cc

check_ruleset_iff :
    (branch : String) (chosen : Value)
    → (check_ruleset branch chosen ≡ ok []) ↔ IsRuleset branch chosen
unfolding check_ruleset
check_ruleset_iff branch chosen = (forward, backward)
  where
    forward : check_ruleset branch chosen ≡ ok [] → IsRuleset branch chosen
    forward h =
        let (fs, is_fs, h1) = >>=-eq-ok (fields_or chosen) _ h in
        let (conditions, got, h2) =
          >>=-eq-ok (fields_or (value_or (get fs "conditions") (obj end))) _ h1 in
        let (ref_name, named, h3) =
          >>=-eq-ok (fields_or (value_or (get conditions "ref_name") (obj end))) _ h2 in
        let (included, includes_it, h4) =
          >>=-eq-ok (includes branch (value_or (get ref_name "include") (arr nil))) _ h3 in
        let (yes_it_is, rest) = (drift_if_iff included _ _).0 (ok-injective h4) in
        let (unset, _) = (drift_if_iff _ _ _).0 rest in
        (
          fs,
          conditions,
          ref_name,
          fields_or-eq-ok chosen is_fs,
          got,
          named,
          (includes_iff branch (value_or (get ref_name "include") (arr nil))).0
              (includes_it ∙ ap ok yes_it_is),
          (is_unset_iff (get fs "bypass_actors")).0 unset,
        )

    backward : IsRuleset branch chosen → check_ruleset branch chosen ≡ ok []
    backward (fs, conditions, ref_name, is_fs, got, named, included, unset) =
        rw
          (
            is_fs,
            got,
            named,
            (includes_iff branch (value_or (get ref_name "include") (arr nil))).1 included,
            (is_unset_iff (get fs "bypass_actors")).1 unset,
          )
          refl

-- Exactly one active ruleset of branches has the name, and it is as it is expected.
abbrev pub HasRuleset : Service → Args → List Fields → Type 0
HasRuleset service args candidates =
    (row : Fields) × (id : Value) × (chosen : Value) × IsOnly (IsNamed args.expected_ruleset_name)
      candidates row
    × (lookup "id" (fields row) ≡ some id)
    × (service.ruleset_of id ≡ answered chosen)
    × IsRuleset args.branch chosen

id_of-eq-ok : (o : Option Value) {v : Value} → id_of o ≡ ok v → o ≡ some v
id_of-eq-ok none h = cc
id_of-eq-ok (some w) h = ap some (ok-injective h)

answer_or_raise-eq-ok : (a : Answer) {v : Value} → answer_or_raise a ≡ ok v → a ≡ answered v
unfolding answer_or_raise
answer_or_raise-eq-ok refused h = cc
answer_or_raise-eq-ok unreadable h = cc
answer_or_raise-eq-ok (answered w) h = ap answered (ok-injective h)

check_rulesets-eq-nil :
    (service : Service) (branch : String) (rows : List Fields)
    → check_rulesets service branch rows ≡ ok []
    → (row : Fields) × (id : Value) × (chosen : Value) × (rows ≡ row ∷ [])
      × (lookup "id" (fields row) ≡ some id)
      × (service.ruleset_of id ≡ answered chosen)
      × IsRuleset branch chosen
unfolding check_rulesets
check_rulesets-eq-nil service branch [] h = cc
check_rulesets-eq-nil service branch (row ∷ []) h =
    let (id, got, h1) = >>=-eq-ok (id_of (lookup "id" (fields row))) _ h in
    let (chosen, answer, h2) = >>=-eq-ok (answer_or_raise (service.ruleset_of id)) _ h1 in
    (
      row,
      id,
      chosen,
      refl,
      id_of-eq-ok _ got,
      answer_or_raise-eq-ok _ answer,
      (check_ruleset_iff branch chosen).0 h2,
    )
check_rulesets-eq-nil service branch (row ∷ other ∷ rows) h = cc

pub check_rulesets_iff :
    (service : Service) (args : Args) (candidates : List Fields)
    → (check_rulesets service args.branch (matching_rulesets args.expected_ruleset_name candidates)
        ≡ ok [])
      ↔ HasRuleset service args candidates
unfolding check_rulesets answer_or_raise
check_rulesets_iff service args candidates = (
  λ h.
      let (row, id, chosen, one, named, answer, right) =
        check_rulesets-eq-nil service args.branch
          (matching_rulesets args.expected_ruleset_name candidates) h in
      (
        row,
        id,
        chosen,
        (matching_rulesets_iff args.expected_ruleset_name candidates row).0 one,
        named,
        answer,
        right,
      ),
  λ (row, id, chosen, one, got, answer, right).
      rw ((matching_rulesets_iff args.expected_ruleset_name candidates row).1 one, got, answer)
        ((check_ruleset_iff args.branch chosen).1 right),
)
