-- ===== src/Drift/Tests.antt =====
-- Answers of the service for a branch that is protected, and the theorem at them.
use grain_protocol.Base.{
  ◌≡◌, refl, ◌↔◌, String, Bool, true, false, [], ◌∷◌, ok, some, none, all, any, lookup, keys,
  contains,
}
use grain_protocol.Base.Int.{pos}
use grain_protocol.Base.Text.{
  codes, codes_eq, strip, drop_space, is_space, lower, lower_char, has_infix, has_prefix,
}
use grain_protocol.Json.{
  Value, bool, int, str, obj, arr, nil, cons, Fields, field, end, get, get_or, has_key, truthy,
  py_eq, texts,
}
use grain_protocol.Drift.{
  Args, Service, answered, parse_bool, answer_or_raise, split_commas, matching_rulesets, includes,
  check_ruleset, check_rulesets, check_pull_request, check_status_checks, drifts, query, main,
}
use grain_protocol.Drift.Rules.{
  wrong_flag, rows_of, members_of, same_set, can_sort, rules_from, rule_of, missing_of, contexts_of,
}
use grain_protocol.Json.Elements.{is_in}
use grain_protocol.Drift.Verdict.{Passes, main-eq-zero_iff}

abbrev args : Args
args = record {
  repo = "owner/repo";
  token = "token";
  branch = "main";
  expected_contexts = codes "CI gate";
  expected_approvals = pos 0;
  expected_codeowner_reviews = false;
  expected_dismiss_stale_reviews = true;
  expected_last_push_approval = false;
  expected_conversation_resolution = true;
  expected_do_not_enforce_on_create = false;
  expected_ruleset_name = "main protection";
  expected_merge_methods = codes "merge, squash,rebase";
}

abbrev row : Value
row = obj (
    field "id" (int (pos 7)) (
      field "name" (str "main protection")
        (field "target" (str "branch") (field "enforcement" (str "active") end))))

abbrev details : Value
details = obj (
    field "conditions"
      (obj
        (field "ref_name" (obj (field "include" (arr (texts ("~DEFAULT_BRANCH" ∷ []))) end)) end))
      (field "bypass_actors" (arr nil) end))

abbrev rule : String → Fields → Value
rule type parameters = obj (field "type" (str type) (field "parameters" (obj parameters) end))

abbrev pull_request : Bool → Value
pull_request reviews = rule "pull_request" (
    field "required_approving_review_count" (int (pos 0)) (
      field "require_code_owner_review" (bool reviews) (
        field "dismiss_stale_reviews_on_push" (bool true) (
          field "require_last_push_approval" (bool false) (
            field "required_review_thread_resolution" (bool true) (
              field "allowed_merge_methods" (arr (texts ("squash" ∷ "merge" ∷ "rebase" ∷ [])))
                end))))))

abbrev status_checks : Value
status_checks = rule "required_status_checks" (
    field "required_status_checks" (arr (cons (obj (field "context" (str "CI gate") end)) nil)) (
      field "strict_required_status_checks_policy" (bool true)
        (field "do_not_enforce_on_create" (bool false) end)))

abbrev service : Bool → Service
service reviews = record {
  rulesets = answered (arr (cons row (cons (str "other") nil)));
  active_rules = answered (
      arr (
        cons (rule "deletion" end) (
          cons (rule "non_fast_forward" end)
            (cons (pull_request reviews) (cons status_checks nil)))));
  ruleset_of = λ id. answered details;
}

tools : Unit {0}
unfolding all any lookup keys contains codes_eq strip drop_space is_space lower lower_char has_infix
    has_prefix get get_or has_key truthy py_eq parse_bool answer_or_raise split_commas
    matching_rulesets includes check_ruleset check_rulesets check_pull_request check_status_checks
    drifts query main is_in rows_of members_of same_set can_sort rules_from rule_of missing_of
    contexts_of
tools = tt

protected : main (service false) args ≡ ok (0, [])
unfolding tools
protected = refl

-- A review by the owners of the code that is not expected is a drift.
drifted : main (service true) args ≡ ok (1, wrong_flag "codeowner review" ∷ [])
unfolding tools
drifted = refl

flags : (parse_bool (codes " True ") ≡ some true) × (parse_bool (codes "yes") ≡ none)
unfolding tools
flags = (refl, refl)

main-eq-zero_iff_example : (main (service false) args ≡ ok (0, [])) ↔ Passes (service false) args
main-eq-zero_iff_example = main-eq-zero_iff (service false) args
