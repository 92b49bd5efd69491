-- ===== src/Drift.antt =====
-- tools/ci/check_branch_protection_drift.py: the ruleset and the active rules of the default branch
-- against what is expected of them. The answers of the service are arguments.
pub mod Rules
pub mod Active
pub mod Last
pub mod Protected
pub mod Verdict
mod Tests
use grain_protocol.Base.{
  ℕ, ◌==◌, String, ◌<>◌, str_eq, Bool, true, false, not, ◌&&◌, ◌||◌, Option, none, some, List, [],
  ◌∷◌, ◌++◌, all, any, length, contains, lookup, if◌then◌else◌, Result, ok, err, other,
  attribute_error, type_error, key_error, decode_error, ◌>>=◌,
}
use grain_protocol.Base.Int.{ℤ}
use grain_protocol.Base.Text.{codes, codes_eq, strip, lower}
use grain_protocol.Json.{
  Value, null, bool, int, str, obj, arr, Fields, fields, end, nil, get, get_or, truthy, py_eq,
}
use Rules.{
  Failure, Drift, wrong_rulesets, wrong_include, bypass_actors, missing_rule, wrong_approvals,
  wrong_flag, wrong_methods, wrong_contexts, not_strict, drift_if, fields_or, value_or, is_bool,
  rows_of, members_of, same_set, can_sort, rules_by_type, contexts_of, rule_of, require_rules,
}
use grain_protocol.Json.Elements.{is_in}

-- `parse_bool`, where `none` is the refusal of the argument.
unfoldable pub parse_bool : List ℕ → Option Bool
parse_bool value =
    let v = lower (strip value) in
    if codes_eq v (codes "true")
    then some true
    else if codes_eq v (codes "false")
    then some false
    else none

-- The options, and GH_TOKEN of the environment. `--require-strict` is true, given or not.
pub record Args : Type 0 where
  pub repo : String
  pub token : String
  pub branch : String
  pub expected_contexts : List ℕ
  pub expected_approvals : ℤ
  pub expected_codeowner_reviews : Bool
  pub expected_dismiss_stale_reviews : Bool
  pub expected_last_push_approval : Bool
  pub expected_conversation_resolution : Bool
  pub expected_do_not_enforce_on_create : Bool
  pub expected_ruleset_name : String
  pub expected_merge_methods : List ℕ

-- `gh_json`: a RuntimeError, an exception of `json.loads`, or the value.
pub data Answer : Type 0 where
  refused unreadable : Answer
  answered : Value → Answer

-- The answers: the rulesets, the rules of the branch, and the ruleset of an identity.
pub record Service : Type 0 where
  pub rulesets : Answer
  pub active_rules : Answer
  pub ruleset_of : Value → Answer

-- An answer whose RuntimeError is not caught.
unfoldable pub answer_or_raise : Answer → Result Failure Value
answer_or_raise refused = err (other Failure.runtime_error)
answer_or_raise unreadable = err decode_error
answer_or_raise (answered v) = ok v

-- `{x.strip() for x in s.split(",") if x.strip()}`, with the part that is being read.
abbrev pub add_part : List ℕ → List (List ℕ) → List (List ℕ)
add_part part parts = let s = strip part in if is_blank s then parts else s ∷ parts
  where
    is_blank : List ℕ → Bool
    is_blank [] = true
    is_blank (c ∷ s) = false

unfoldable pub split_commas : List ℕ → List ℕ → List (List ℕ)
split_commas part [] = add_part part []
split_commas part (c ∷ s) =
    let next = split_commas [] s in
    let longer = split_commas (part ++ (c ∷ [])) s in
    if c == b',' then add_part part next else longer

-- `candidate` is an active ruleset of branches with the expected name.
abbrev pub is_matching : String → Fields → Bool
is_matching name fs =
    py_eq (get fs "name") (str name)
    && (py_eq (get fs "target") (str "branch") && py_eq (get fs "enforcement") (str "active"))

unfoldable pub matching_rulesets : String → List Fields → List Fields
matching_rulesets name [] = []
matching_rulesets name (fs ∷ rows) =
    let rest = matching_rulesets name rows in if is_matching name fs then fs ∷ rest else rest

-- `include` names the default branch by one of its two names.
unfoldable pub includes : String → Value → Result Failure Bool
includes branch include = do
  by_default ← is_in "~DEFAULT_BRANCH" include
  if by_default then ok true else is_in ("refs/heads/" <> branch) include

abbrev pub is_unset : Value → Bool
is_unset v = py_eq v (arr nil) || py_eq v null

unfoldable pub check_ruleset : String → Value → Result Failure (List Drift)
check_ruleset branch chosen = do
  fs ← fields_or chosen
  conditions ← fields_or (value_or (get fs "conditions") (obj end))
  ref_name ← fields_or (value_or (get conditions "ref_name") (obj end))
  included ← includes branch (value_or (get ref_name "include") (arr nil))
  ok (
      drift_if (not included) wrong_include
      ++ (drift_if (not (is_unset (get fs "bypass_actors"))) bypass_actors ++ []))

-- `d["id"]`.
abbrev pub id_of : Option Value → Result Failure Value
id_of none = err key_error
id_of (some v) = ok v

unfoldable pub check_rulesets : Service → String → List Fields → Result Failure (List Drift)
unfolding lookup
check_rulesets service branch (fs ∷ []) = do
  id ← id_of (lookup "id" (fields fs))
  chosen ← answer_or_raise (service.ruleset_of id)
  check_ruleset branch chosen
check_rulesets service branch rows = ok (wrong_rulesets (length rows) ∷ [])

-- A set that differs is reported, and `sorted` for it.
abbrev pub compare_sets : Drift → List Value → List (List ℕ) → Result Failure (List Drift)
compare_sets d actual expected =
    if same_set actual expected
    then ok []
    else if can_sort actual
    then ok (d ∷ [])
    else err type_error

-- The parameters of the rule, one after the other.
abbrev pub parameter_drifts : Args → Fields → List Drift → List Drift
parameter_drifts args params methods =
    drift_if
      (not (py_eq (get params "required_approving_review_count") (int args.expected_approvals)))
      wrong_approvals
    ++ (drift_if
          (not (is_bool (get params "require_code_owner_review") args.expected_codeowner_reviews))
          (wrong_flag "codeowner review")
        ++ (drift_if
              (not (
                is_bool (get params "dismiss_stale_reviews_on_push")
                  args.expected_dismiss_stale_reviews))
              (wrong_flag "dismiss stale reviews")
            ++ (drift_if
                  (not (
                    is_bool (get params "require_last_push_approval")
                      args.expected_last_push_approval))
                  (wrong_flag "last push approval")
                ++ (drift_if
                      (not (
                        is_bool (get params "required_review_thread_resolution")
                          args.expected_conversation_resolution))
                      (wrong_flag "conversation resolution")
                    ++ methods))))

unfoldable pub check_pull_request : Args → Fields → Result Failure (List Drift)
check_pull_request args rule = do
  params ← fields_or (value_or (get rule "parameters") (obj end))
  actual ← members_of (value_or (get params "allowed_merge_methods") (arr nil))
  methods ← compare_sets (wrong_methods actual) actual (split_commas [] args.expected_merge_methods)
  ok (parameter_drifts args params methods)

abbrev pub check_drifts : Args → Fields → List Drift → List Drift
check_drifts args checks contexts =
    contexts
    ++ (drift_if (not (truthy (get_or checks "strict_required_status_checks_policy" (bool false))))
          not_strict
        ++ (drift_if
              (not (
                is_bool (get checks "do_not_enforce_on_create")
                  args.expected_do_not_enforce_on_create))
              (wrong_flag "do_not_enforce_on_create")
            ++ []))

unfoldable pub check_status_checks : Args → Fields → Result Failure (List Drift)
check_status_checks args rule = do
  checks ← fields_or (value_or (get rule "parameters") (obj end))
  listed ← rows_of (value_or (get checks "required_status_checks") (arr nil))
  actual ← contexts_of listed
  contexts ← compare_sets (wrong_contexts actual) actual (split_commas [] args.expected_contexts)
  ok (check_drifts args checks contexts)

-- The body of `main`, from the two answers to the errors.
unfoldable pub drifts : Service → Args → Value → Value → Result Failure (List Drift)
drifts service args rulesets active_rules = do
  candidates ← rows_of rulesets
  of_ruleset ←
      check_rulesets service args.branch (matching_rulesets args.expected_ruleset_name candidates)
  rules ← rows_of active_rules
  by_type ← rules_by_type rules
  of_pull_request ← check_pull_request args (rule_of by_type "pull_request")
  of_checks ← check_status_checks args (rule_of by_type "required_status_checks")
  ok (of_ruleset ++ (require_rules by_type ++ (of_pull_request ++ of_checks)))

abbrev pub status_of : List Drift → ℕ × List Drift
status_of [] = (0, [])
status_of (d ∷ errors) = (1, d ∷ errors)

-- The second answer is asked for after the first has come.
unfoldable pub query : Service → Args → Answer → Answer → Result Failure (ℕ × List Drift)
query service args refused second = ok (2, [])
query service args unreadable second = err decode_error
query service args (answered rulesets) refused = ok (2, [])
query service args (answered rulesets) unreadable = err decode_error
query service args (answered rulesets) (answered active_rules) = do
  errors ← drifts service args rulesets active_rules
  ok (status_of errors)

-- `main`: the exit status, and the drifts that are printed.
unfoldable pub main : Service → Args → Result Failure (ℕ × List Drift)
main service args =
    if str_eq args.repo ""
    then ok (2, [])
    else if str_eq args.token ""
    then ok (2, [])
    else query service args service.rulesets service.active_rules
