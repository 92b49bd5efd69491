-- ===== src/Drift/Verdict.antt =====
-- When the check of the branch protection passes.
use grain_protocol.Base.{
  ◌≡◌, refl, ap, ap₂, ◌∙◌, ◌↔◌, ℕ, String, str_eq, Bool, true, false, List, [], ◌∷◌, ◌++◌, All,
  append-eq-nil_iff, then_iff, join_iff, contains, contains-keys, keys, lookup, some, subst, sym,
  ◌≢◌, if◌then◌else◌, Result, ok, ok-injective, >>=-eq-ok,
}
use grain_protocol.Drift.Last.{
  IsPlain, IsLast, rules_from-IsLast_iff, rules_from-ArePlain, ArePlain-rules_from,
}
use grain_protocol.Json.{Value, Fields, get}
use grain_protocol.Drift.{
  Args, Service, Answer, answered, refused, unreadable, matching_rulesets, check_rulesets,
  check_pull_request, check_status_checks, drifts, status_of, query, main,
}
use grain_protocol.Drift.Protected.{
  HasRuleset, IsPullRequestRule, IsChecksRule, check_rulesets_iff, check_pull_request_iff,
  check_status_checks_iff, drift_if_iff,
}
use grain_protocol.Drift.Rules.{
  Failure, Drift, missing_of, require_rules, rows_of, rules_by_type, rule_of, required_types,
}

-- One ruleset protects the branch, there is a rule of each of the four types, and the last rules of pull
-- requests and of status checks are as they are expected.
abbrev pub IsProtected : Service → Args → Value → Value → Type 0
IsProtected service args rulesets active_rules =
    (candidates : List Fields) × (rules : List Fields) × (rows_of rulesets ≡ ok candidates)
    × (rows_of active_rules ≡ ok rules)
    × All (λ r. IsPlain (get r "type")) rules
    × HasRuleset service args candidates
    × All (λ t. (rule : Fields) × IsLast rules t rule)
        ("deletion" ∷ "non_fast_forward" ∷ "pull_request" ∷ "required_status_checks" ∷ [])
    × ((rule : Fields) × IsLast rules "pull_request" rule × IsPullRequestRule args rule)
    × ((rule : Fields) × IsLast rules "required_status_checks" rule × IsChecksRule args rule)

-- A type of which a rule stands among those by type is one of which there is a last rule.
present_iff :
    (rules : List Fields) (by_type : List (String × Fields)) (t : String)
    → t ≢ ""
    → rules_by_type rules ≡ ok by_type
    → (contains (keys by_type) t ≡ true) ↔ ((rule : Fields) × IsLast rules t rule)
present_iff rules by_type t some_type typed = then_iff (contains-keys t by_type) (
  λ (rule, found). (rule, (rules_from-IsLast_iff rules by_type t rule some_type typed).0 found),
  λ (rule, is_last). (rule, (rules_from-IsLast_iff rules by_type t rule some_type typed).1 is_last),
)

rule_of-eq :
    (by_type : List (String × Fields)) (t : String) (rule : Fields)
    → lookup t by_type ≡ some rule
    → rule_of by_type t ≡ rule
unfolding rule_of
rule_of-eq by_type t rule found = rw found refl

-- What holds of the rule that is read holds of the last rule of the type.
read_iff :
    (P : Fields → Type 0) (rules : List Fields) (by_type : List (String × Fields)) (t : String)
    → t ≢ ""
    → rules_by_type rules ≡ ok by_type
    → contains (keys by_type) t ≡ true
    → P (rule_of by_type t) ↔ ((rule : Fields) × IsLast rules t rule × P rule)
read_iff P rules by_type t some_type typed there =
    let (rule, found) = (contains-keys t by_type).0 there in
    (
      λ p. (
        rule,
        (rules_from-IsLast_iff rules by_type t rule some_type typed).0 found,
        subst P (rule_of-eq by_type t rule found) p,
      ),
      λ (last, is_last, p).
          subst P
            (sym (
              rule_of-eq by_type t last
                ((rules_from-IsLast_iff rules by_type t last some_type typed).1 is_last)))
            p,
    )

each_present_iff :
    (rules : List Fields) (by_type : List (String × Fields))
    → rules_by_type rules ≡ ok by_type
    → All (λ t. contains (keys by_type) t ≡ true) required_types
      ↔ All (λ t. (rule : Fields) × IsLast rules t rule) required_types
each_present_iff rules by_type typed =
    join_iff (present_iff rules by_type "deletion" (λ e. cc) typed) (
      join_iff (present_iff rules by_type "non_fast_forward" (λ e. cc) typed) (
        join_iff (present_iff rules by_type "pull_request" (λ e. cc) typed) (
          join_iff (present_iff rules by_type "required_status_checks" (λ e. cc) typed)
            (λ h. h, λ h. h))))

missing_of-eq-nil_iff :
    (by_type : List (String × Fields)) (types : List String)
    → (missing_of by_type types ≡ []) ↔ All (λ t. contains (keys by_type) t ≡ true) types
unfolding missing_of
missing_of-eq-nil_iff by_type [] = (λ _. tt, λ _. refl)
missing_of-eq-nil_iff by_type (t ∷ types) =
    then_iff (drift_if_iff _ _ _) (join_iff (λ h. h, λ h. h) (missing_of-eq-nil_iff by_type types))

drifts_iff :
    (service : Service) (args : Args) (rulesets active_rules : Value)
    → (drifts service args rulesets active_rules ≡ ok [])
      ↔ IsProtected service args rulesets active_rules
unfolding drifts
drifts_iff service args rulesets active_rules = (forward, backward)
  where
    forward :
        drifts service args rulesets active_rules ≡ ok []
        → IsProtected service args rulesets active_rules
    forward h =
        let (candidates, listed, h1) = >>=-eq-ok (rows_of rulesets) _ h in
        let (a, rulesets_checked, h2) =
          >>=-eq-ok
            (check_rulesets service args.branch
              (matching_rulesets args.expected_ruleset_name candidates))
            _ h1 in
        let (rules, active, h3) = >>=-eq-ok (rows_of active_rules) _ h2 in
        let (by_type, typed, h4) = >>=-eq-ok (rules_by_type rules) _ h3 in
        let (c, pull, h5) =
          >>=-eq-ok (check_pull_request args (rule_of by_type "pull_request")) _ h4 in
        let (d, checks, h6) =
          >>=-eq-ok (check_status_checks args (rule_of by_type "required_status_checks")) _ h5 in
        let (a_nil, rest) =
          (append-eq-nil_iff a (require_rules by_type ++ (c ++ d))).0 (ok-injective h6) in
        let (b_nil, rest') = (append-eq-nil_iff (require_rules by_type) (c ++ d)).0 rest in
        let (c_nil, d_nil) = (append-eq-nil_iff c d).0 rest' in
        let all_there = (missing_of-eq-nil_iff by_type required_types).0 b_nil in
        let (_, (_, (has_pull, (has_checks, _)))) = all_there in
        (
          candidates,
          rules,
          listed,
          active,
          rules_from-ArePlain rules [] by_type typed,
          (check_rulesets_iff service args candidates).0 (rulesets_checked ∙ ap ok a_nil),
          (each_present_iff rules by_type typed).0 all_there,
          (read_iff (IsPullRequestRule args) rules by_type "pull_request" (λ e. cc) typed
                has_pull).0
              ((check_pull_request_iff args (rule_of by_type "pull_request")).0
                (pull ∙ ap ok c_nil)),
          (read_iff (IsChecksRule args) rules by_type "required_status_checks" (λ e. cc) typed
                has_checks).0
              ((check_status_checks_iff args (rule_of by_type "required_status_checks")).0
                (checks ∙ ap ok d_nil)),
        )

    backward :
        IsProtected service args rulesets active_rules
        → drifts service args rulesets active_rules ≡ ok []
    backward (candidates, rules, listed, active, plain, one, present, pull, checks) =
        let (by_type, typed) = ArePlain-rules_from rules [] plain in
        let all_there = (each_present_iff rules by_type typed).1 present in
        let (_, (_, (has_pull, (has_checks, _)))) = all_there in
        rw
          (
            listed,
            (check_rulesets_iff service args candidates).1 one,
            active,
            typed,
            (check_pull_request_iff args (rule_of by_type "pull_request")).1 (
                (read_iff (IsPullRequestRule args) rules by_type "pull_request" (λ e. cc) typed
                    has_pull).1
                  pull),
            (check_status_checks_iff args (rule_of by_type "required_status_checks")).1 (
                (read_iff (IsChecksRule args) rules by_type "required_status_checks" (λ e. cc) typed
                    has_checks).1
                  checks),
            (missing_of-eq-nil_iff by_type required_types).1 all_there,
          )
          refl

-- The two answers have come, and the branch is protected by what they say.
abbrev pub Passes : Service → Args → Type 0
Passes service args =
    (str_eq args.repo "" ≡ false)
    × (str_eq args.token "" ≡ false)
    × ((rulesets : Value) × (active_rules : Value) × (service.rulesets ≡ answered rulesets)
        × (service.active_rules ≡ answered active_rules)
        × IsProtected service args rulesets active_rules)

status_of-eq-zero : (errors : List Drift) → status_of errors ≡ (0, []) → errors ≡ []
status_of-eq-zero [] h = refl
status_of-eq-zero (d ∷ errors) h = cc

query-eq-zero :
    (service : Service) (args : Args) (first second : Answer)
    → query service args first second ≡ ok (0, [])
    → (rulesets : Value) × (active_rules : Value) × (first ≡ answered rulesets)
      × (second ≡ answered active_rules)
      × IsProtected service args rulesets active_rules
unfolding query
query-eq-zero service args refused second h = cc
query-eq-zero service args unreadable second h = cc
query-eq-zero service args (answered rulesets) refused h = cc
query-eq-zero service args (answered rulesets) unreadable h = cc
query-eq-zero service args (answered rulesets) (answered active_rules) h =
    let (errors, found, h1) = >>=-eq-ok (drifts service args rulesets active_rules) _ h in
    (
      rulesets,
      active_rules,
      refl,
      refl,
      (drifts_iff service args rulesets active_rules).0
          (found ∙ ap ok (status_of-eq-zero errors (ok-injective h1))),
    )

query_protected :
    (service : Service) (args : Args) (rulesets active_rules : Value)
    → IsProtected service args rulesets active_rules
    → query service args (answered rulesets) (answered active_rules) ≡ ok (0, [])
unfolding query
query_protected service args rulesets active_rules protected =
    rw ((drifts_iff service args rulesets active_rules).1 protected) refl

given :
    (no_repo no_token : Bool) (r : Result Failure (ℕ × List Drift))
    → (if no_repo then ok (2, []) else if no_token then ok (2, []) else r) ≡ ok (0, [])
    → (no_repo ≡ false) × (no_token ≡ false) × (r ≡ ok (0, []))
given true no_token r h = cc
given false true r h = cc
given false false r h = (refl, refl, h)

-- The check returns 0, with nothing reported, exactly when the repository and the token are given, both
-- answers come, and by what they say exactly one active ruleset of branches has the expected name,
-- includes the branch and has no bypass actors, each of the four types has a rule and no type raises,
-- and the last rules of pull requests and of status checks are the expected ones.
pub main-eq-zero_iff :
    (service : Service) (args : Args) → (main service args ≡ ok (0, [])) ↔ Passes service args
unfolding main
main-eq-zero_iff service args = (forward, backward)
  where
    forward : main service args ≡ ok (0, []) → Passes service args
    forward h =
        let (repo, token, asked) =
          given (str_eq args.repo "") (str_eq args.token "")
            (query service args service.rulesets service.active_rules) h in
        (repo, token, query-eq-zero service args service.rulesets service.active_rules asked)

    backward : Passes service args → main service args ≡ ok (0, [])
    backward (repo, token, (rulesets, active_rules, first, second, protected)) =
        rw (repo, token)
          (ap₂ (query service args) first second
            ∙ query_protected service args rulesets active_rules protected)
