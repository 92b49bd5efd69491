-- ===== src/Drift/Last.antt =====
-- The rules by their types: what is kept of a type is its last rule.
use grain_protocol.Base.{
  ◌≡◌, ◌≢◌, refl, sym, ap, subst, ◌∙◌, ◌↔◌, ◌⊎◌, inl, inr, String, str_eq, eq_iff, Bool, true,
  false, not, ◌&&◌, none, some, List, [], ◌∷◌, ◌++◌, All, Bool-cases, lookup, if◌then◌else◌, Result,
  ok, err, type_error, ok-injective, >>=-eq-ok,
}
use grain_protocol.Json.{Value, str, obj, arr, nil, cons, Fields, end, field, get, truthy}
use grain_protocol.Drift.Rules.{Failure, is_hashable, add_rule, rules_from}

abbrev pub IsTyped : String → Fields → Type 0
IsTyped t rule = get rule "type" ≡ str t

-- The last of the rules of a type.
abbrev pub IsLast : List Fields → String → Fields → Type 0
IsLast rules t rule =
    (before : List Fields) × (after : List Fields) × (rules ≡ before ++ (rule ∷ after))
    × IsTyped t rule
    × All (λ r. ¬ IsTyped t r) after

-- A type that has a hash, or is empty: a list or an object that is not empty raises.
abbrev pub IsPlain : Value → Type 0
IsPlain (arr vs) = vs ≡ nil
IsPlain (obj fs) = fs ≡ end
IsPlain _ = Unit

abbrev is_type : Value → String → Bool
is_type (str u) t = str_eq u t
is_type _ t = false

is_type_iff : (v : Value) (t : String) → (is_type v t ≡ true) ↔ (v ≡ str t)
is_type_iff (str u) t =
    (λ h. ap str ((eq_iff u t).0 h), λ e. let same : u ≡ t = cc in (eq_iff u t).1 same)
is_type_iff _ t = (λ h. cc, λ h. cc)

abbrev ByType : Type 0
ByType = List (String × Fields)

unchanged :
    (b : Bool) (by_type more : ByType)
    → ◌≡◌ {A = Result Failure ByType} (if b then err type_error else ok by_type) (ok more)
    → by_type ≡ more
unchanged true by_type more h = cc
unchanged false by_type more h = ok-injective h

add_rule-lookup :
    (v : Value) (rule : Fields) (by_type more : ByType) (t : String)
    → t ≢ ""
    → add_rule v rule by_type ≡ ok more
    → lookup t more ≡ (if is_type v t then some rule else lookup t by_type)
unfolding lookup
add_rule-lookup (str u) rule by_type more t some_type h = go (str_eq u "") refl h
  where
    go :
        (b : Bool)
        → str_eq u "" ≡ b
        → ◌≡◌ {A = Result Failure ByType}
            (ok (if b then by_type else (u, rule) ∷ by_type))
            (ok more)
        → lookup t more ≡ (if str_eq u t then some rule else lookup t by_type)
    go true e k = elim (Bool-cases (str_eq u t)) [
      | inl same ↦ absurd (some_type (sym ((eq_iff u t).0 same) ∙ (eq_iff u "").0 e))
      | inr other ↦ rw other (ap (lookup t) (sym (ok-injective k)))
    ]
    go false e k = ap (lookup t) (sym (ok-injective k))
add_rule-lookup (arr vs) rule by_type more t some_type h =
    ap (lookup t) (sym (unchanged _ by_type more h))
add_rule-lookup (obj fs) rule by_type more t some_type h =
    ap (lookup t) (sym (unchanged _ by_type more h))
add_rule-lookup v rule by_type more t some_type h =
    ap (lookup t) (sym (unchanged (truthy v && not (is_hashable v)) by_type more h))

-- What is found under a type in the end is the last rule of the type, or was there before.
abbrev Found : List Fields → ByType → String → Fields → Type 0
Found rules by_type t rule =
    IsLast rules t rule ⊎ (All (λ r. ¬ IsTyped t r) rules × (lookup t by_type ≡ some rule))

rules_from-Found :
    (rules : List Fields) (by_type last : ByType) (t : String) (rule : Fields)
    → t ≢ ""
    → rules_from rules by_type ≡ ok last
    → lookup t last ≡ some rule
    → Found rules by_type t rule
unfolding rules_from
rules_from-Found [] by_type last t rule some_type h found =
    inr (tt, ap (lookup t) (ok-injective h) ∙ found)
rules_from-Found (r ∷ rules) by_type last t rule some_type h found =
    let (more, added, rest) = >>=-eq-ok (add_rule (get r "type") r by_type) _ h in
    elim (rules_from-Found rules more last t rule some_type rest found) [
      | inl (before, after, e, typed, no_after) ↦
          inl (r ∷ before, after, ap (λ x. r ∷ x) e, typed, no_after)
      | inr (no_later, there) ↦
          let picked =
            sym (add_rule-lookup (get r "type") r by_type more t some_type added) ∙ there in
          elim (Bool-cases (is_type (get r "type") t)) [
            | inl typed ↦
                let same : r ≡ rule = some_same (
                  subst (λ b. (if b then some r else lookup t by_type) ≡ some rule) typed picked) in
                inl (
                  [],
                  rules,
                  ap (λ x. x ∷ rules) same,
                  subst (IsTyped t) same ((is_type_iff (get r "type") t).0 typed),
                  no_later,
                )
            | inr other ↦ inr (
              ((λ e. let yes_it_is = (is_type_iff (get r "type") t).1 e in cc), no_later),
              subst (λ b. (if b then some r else lookup t by_type) ≡ some rule) other picked,
            )
          ]
    ]
  where
    some_same :
        {x y : Fields} → ◌≡◌ {A = grain_protocol.Base.Option Fields} (some x) (some y) → x ≡ y
    some_same e = cc

kept :
    (rules : List Fields) (by_type last : ByType) (t : String) (rule : Fields)
    → t ≢ ""
    → rules_from rules by_type ≡ ok last
    → All (λ r. ¬ IsTyped t r) rules
    → lookup t by_type ≡ some rule
    → lookup t last ≡ some rule
unfolding rules_from
kept [] by_type last t rule some_type h none_typed there =
    ap (lookup t) (sym (ok-injective h)) ∙ there
kept (r ∷ rules) by_type last t rule some_type h (other, none_typed) there =
    let (more, added, rest) = >>=-eq-ok (add_rule (get r "type") r by_type) _ h in
    let no_type : is_type (get r "type") t ≡ false =
      (grain_protocol.Base.false_iff (is_type (get r "type") t) (is_type_iff (get r "type") t)).1
        other in
    kept rules more last t rule some_type rest none_typed (
      add_rule-lookup (get r "type") r by_type more t some_type added
      ∙ ap (λ b. if b then some r else lookup t by_type) no_type
      ∙ there)

last-found :
    (rules : List Fields) (by_type last : ByType) (t : String) (rule : Fields)
    (before after : List Fields)
    → t ≢ ""
    → rules_from rules by_type ≡ ok last
    → rules ≡ before ++ (rule ∷ after)
    → IsTyped t rule
    → All (λ r. ¬ IsTyped t r) after
    → lookup t last ≡ some rule
unfolding rules_from
last-found [] by_type last t rule [] after some_type h e typed no_after = cc
last-found [] by_type last t rule (b ∷ before) after some_type h e typed no_after = cc
last-found (r ∷ rules) by_type last t rule [] after some_type h e typed no_after =
    let same : rule ≡ r = cc in
    let tail : after ≡ rules = cc in
    let (more, added, rest) = >>=-eq-ok (add_rule (get r "type") r by_type) _ h in
    let is_one = (is_type_iff (get r "type") t).1 (subst (IsTyped t) same typed) in
    kept rules more last t rule some_type rest (subst (All (λ x. ¬ IsTyped t x)) tail no_after) (
      add_rule-lookup (get r "type") r by_type more t some_type added
      ∙ ap (λ b. if b then some r else lookup t by_type) is_one
      ∙ ap some (sym same))
last-found (r ∷ rules) by_type last t rule (b ∷ before) after some_type h e typed no_after =
    let (more, added, rest) = >>=-eq-ok (add_rule (get r "type") r by_type) _ h in
    last-found rules more last t rule before after some_type rest (cc) typed no_after

-- Under a type stands the last rule of the type.
pub rules_from-IsLast_iff :
    (rules : List Fields) (last : ByType) (t : String) (rule : Fields)
    → t ≢ ""
    → rules_from rules [] ≡ ok last
    → (lookup t last ≡ some rule) ↔ IsLast rules t rule
unfolding lookup
rules_from-IsLast_iff rules last t rule some_type h = (
  λ found. elim (rules_from-Found rules [] last t rule some_type h found) [
    | inl is_last ↦ is_last
    | inr (none_typed, there) ↦ cc there
  ],
  λ (before, after, e, typed, no_after).
      last-found rules [] last t rule before after some_type h e typed no_after,
)

and_false : (b : Bool) → (b && false) ≡ false
and_false true = refl
and_false false = refl

add_rule-IsPlain :
    (v : Value) (rule : Fields) (by_type more : ByType)
    → add_rule v rule by_type ≡ ok more
    → IsPlain v
unfolding truthy
add_rule-IsPlain (arr nil) rule by_type more h = refl
add_rule-IsPlain (arr (cons v vs)) rule by_type more h = cc
add_rule-IsPlain (obj end) rule by_type more h = refl
add_rule-IsPlain (obj (field k v fs)) rule by_type more h = cc
add_rule-IsPlain _ rule by_type more h = tt

accepted :
    (b : Bool) (by_type : ByType)
    → b ≡ false
    → (more : ByType) × (◌≡◌ {A = Result Failure ByType}
        (if b then err type_error else ok by_type)
        (ok more))
accepted true by_type h = cc
accepted false by_type h = (by_type, refl)

IsPlain-add_rule :
    (v : Value) (rule : Fields) (by_type : ByType)
    → IsPlain v
    → (more : ByType) × (add_rule v rule by_type ≡ ok more)
unfolding truthy
IsPlain-add_rule (arr nil) rule by_type h = (by_type, refl)
IsPlain-add_rule (arr (cons v vs)) rule by_type h = cc
IsPlain-add_rule (obj end) rule by_type h = (by_type, refl)
IsPlain-add_rule (obj (field k v fs)) rule by_type h = cc
IsPlain-add_rule (str u) rule by_type h = (_, refl)
IsPlain-add_rule v rule by_type h =
    accepted (truthy v && not (is_hashable v)) by_type (and_false (truthy v))

-- The rules are read to the end exactly when no type raises.
pub rules_from-ArePlain :
    (rules : List Fields) (by_type last : ByType)
    → rules_from rules by_type ≡ ok last
    → All (λ r. IsPlain (get r "type")) rules
unfolding rules_from
rules_from-ArePlain [] by_type last h = tt
rules_from-ArePlain (r ∷ rules) by_type last h =
    let (more, added, rest) = >>=-eq-ok (add_rule (get r "type") r by_type) _ h in
    (add_rule-IsPlain (get r "type") r by_type more added, rules_from-ArePlain rules more last rest)

pub ArePlain-rules_from :
    (rules : List Fields) (by_type : ByType)
    → All (λ r. IsPlain (get r "type")) rules
    → (last : ByType) × (rules_from rules by_type ≡ ok last)
unfolding rules_from
ArePlain-rules_from [] by_type h = (by_type, refl)
ArePlain-rules_from (r ∷ rules) by_type (plain, h) =
    let (more, added) = IsPlain-add_rule (get r "type") r by_type plain in
    let (last, rest) = ArePlain-rules_from rules more h in (last, rw added rest)
