-- ===== src/Drift/Active.antt =====
-- What the answers of the service say, apart from the code's own searches: the only ruleset of a name,
-- the last rule of a type, the names in a list, and sets of texts.
use grain_protocol.Base.{
  ℕ, ◌==◌, ==_iff, ◌≡◌, refl, sym, ap, ap₂, subst, ◌∙◌, ◌↔◌, ◌⊎◌, inl, inr, String, ◌<>◌, Bool,
  true, false, List, [], ◌∷◌, ◌++◌, All, Bool-cases, all, any, and_parts, and_join, or_iff,
  false_iff, then_iff, join_iff, if◌then◌else◌, Result, ok, ok-injective, >>=-eq-ok, ◌>>=◌,
}
use grain_protocol.Base.Text.{codes, codes_eq, has_infix}
use grain_protocol.Json.{Value, null, str, obj, arr, nil, cons, Fields, items, get, has_key, py_eq}
use grain_protocol.Json.Elements.{is_in}
use grain_protocol.Json.Equality.{py_eq-str, py_eq-str_refl}
use grain_protocol.Drift.{is_matching, matching_rulesets, includes, is_unset}
use grain_protocol.Drift.Rules.{Failure, is_text, same_set}

-- Some element.
abbrev pub Any {ℓ} : {A : Type ℓ} → (A → Type 0) → List A → Type 0
Any P [] = ⊥
Any P (x ∷ xs) = P x ⊎ Any P xs

any-iff-Any {ℓ} :
    {A : Type ℓ} (p : A → Bool) (P : A → Type 0) (xs : List A)
    → ((x : A) → (p x ≡ true) ↔ P x)
    → (any p xs ≡ true) ↔ Any P xs
unfolding any
any-iff-Any p P [] h = (λ e. cc, λ e. absurd e)
any-iff-Any p P (x ∷ xs) h = or_iff (p x) (any p xs) (h x) (any-iff-Any p P xs h)

all-iff-Each {ℓ} :
    {A : Type ℓ} (p : A → Bool) (P : A → Type 0) (xs : List A)
    → ((x : A) → (p x ≡ true) ↔ P x)
    → (all p xs ≡ true) ↔ All P xs
unfolding all
all-iff-Each p P [] h = (λ e. tt, λ e. refl)
all-iff-Each p P (x ∷ xs) h = (
  λ e. let (a, b) = and_parts (p x) (all p xs) e in ((h x).0 a, (all-iff-Each p P xs h).0 b),
  λ (a, b). and_join (p x) (all p xs) ((h x).1 a) ((all-iff-Each p P xs h).1 b),
)

codes_eq_iff : (s t : List ℕ) → (codes_eq s t ≡ true) ↔ (s ≡ t)
unfolding codes_eq
codes_eq_iff [] [] = (λ h. refl, λ h. refl)
codes_eq_iff [] (d ∷ t) = (λ h. cc, λ h. cc)
codes_eq_iff (c ∷ s) [] = (λ h. cc, λ h. cc)
codes_eq_iff (c ∷ s) (d ∷ t) = (
  λ h.
      let (a, b) = and_parts (c == d) (codes_eq s t) h in
      ap₂ (λ x y. x ∷ y) ((==_iff c d).0 a) ((codes_eq_iff s t).0 b),
  λ h. and_join (c == d) (codes_eq s t) ((==_iff c d).1 (cc)) ((codes_eq_iff s t).1 (cc)),
)

-- The text of these characters.
abbrev pub Spells : Value → List ℕ → Type 0
Spells v t = (s : String) × (v ≡ str s) × (codes s ≡ t)

is_text_iff : (v : Value) (t : List ℕ) → (is_text v t ≡ true) ↔ Spells v t
is_text_iff (str s) t = (
  λ h. (s, refl, (codes_eq_iff (codes s) t).0 h),
  λ (r, e, same). let one : r ≡ s = cc in (codes_eq_iff (codes s) t).1 (ap codes (sym one) ∙ same),
)
is_text_iff _ t = (λ h. cc, λ (r, e, same). cc)

-- Each value is one of the texts, and each text one of the values.
abbrev pub AreSame : List Value → List (List ℕ) → Type 0
AreSame actual expected =
    All (λ v. Any (λ t. Spells v t) expected) actual
    × All (λ t. Any (λ v. Spells v t) actual) expected

pub same_set_iff :
    (actual : List Value) (expected : List (List ℕ))
    → (same_set actual expected ≡ true) ↔ AreSame actual expected
unfolding same_set
same_set_iff actual expected =
    then_iff (λ h. and_parts _ _ h, λ (a, b). and_join _ _ a b)
      (join_iff
        (all-iff-Each (λ v. any (is_text v) expected) (λ v. Any (λ t. Spells v t) expected) actual
          (λ v. any-iff-Any (is_text v) (λ t. Spells v t) expected (λ t. is_text_iff v t)))
        (all-iff-Each (λ t. any (λ v. is_text v t) actual) (λ t. Any (λ v. Spells v t) actual)
          expected
          (λ t. any-iff-Any (λ v. is_text v t) (λ v. Spells v t) actual (λ v. is_text_iff v t))))

py_eq_iff : (v : Value) (s : String) → (py_eq v (str s) ≡ true) ↔ (v ≡ str s)
py_eq_iff v s = (py_eq-str v s, λ e. subst (λ x. py_eq x (str s) ≡ true) (sym e) (py_eq-str_refl s))

-- An active ruleset of branches with the name.
abbrev pub IsNamed : String → Fields → Type 0
IsNamed name fs =
    (get fs "name" ≡ str name)
    × ((get fs "target" ≡ str "branch") × (get fs "enforcement" ≡ str "active"))

is_matching_iff : (name : String) (fs : Fields) → (is_matching name fs ≡ true) ↔ IsNamed name fs
is_matching_iff name fs =
    then_iff (λ h. and_parts _ _ h, λ (a, b). and_join _ _ a b)
      (join_iff (py_eq_iff (get fs "name") name) (
        then_iff (λ h. and_parts _ _ h, λ (a, b). and_join _ _ a b)
          (join_iff (py_eq_iff (get fs "target") "branch")
            (py_eq_iff (get fs "enforcement") "active"))))

py_eq-nil_iff : (v : Value) → (py_eq v (arr nil) ≡ true) ↔ (v ≡ arr nil)
unfolding py_eq
py_eq-nil_iff (arr nil) = (λ h. refl, λ h. refl)
py_eq-nil_iff (arr (cons v vs)) = (λ h. cc, λ h. cc)
py_eq-nil_iff (Value.bool true) = (λ h. cc, λ h. cc)
py_eq-nil_iff (Value.bool false) = (λ h. cc, λ h. cc)
py_eq-nil_iff (Value.infinity true) = (λ h. cc, λ h. cc)
py_eq-nil_iff (Value.infinity false) = (λ h. cc, λ h. cc)
py_eq-nil_iff _ = (λ h. cc, λ h. cc)

py_eq-null_iff : (v : Value) → (py_eq v null ≡ true) ↔ (v ≡ null)
unfolding py_eq
py_eq-null_iff null = (λ h. refl, λ h. refl)
py_eq-null_iff (Value.bool true) = (λ h. cc, λ h. cc)
py_eq-null_iff (Value.bool false) = (λ h. cc, λ h. cc)
py_eq-null_iff (Value.infinity true) = (λ h. cc, λ h. cc)
py_eq-null_iff (Value.infinity false) = (λ h. cc, λ h. cc)
py_eq-null_iff _ = (λ h. cc, λ h. cc)

-- Nothing, or an empty list.
pub is_unset_iff : (v : Value) → (is_unset v ≡ true) ↔ ((v ≡ arr nil) ⊎ (v ≡ null))
is_unset_iff v = or_iff (py_eq v (arr nil)) (py_eq v null) (py_eq-nil_iff v) (py_eq-null_iff v)

-- The names that a value holds: the elements of a list, the keys of an object, the parts of a text.
abbrev pub Holds : Value → String → Type 0
Holds (arr vs) s = Any (λ v. v ≡ str s) (items vs)
Holds (obj fs) s = has_key fs s ≡ true
Holds (str t) s = has_infix (codes t) (codes s) ≡ true
Holds _ s = ⊥

is_in_iff : (v : Value) (s : String) → (is_in {M = Failure} s v ≡ ok true) ↔ Holds v s
unfolding is_in
is_in_iff (arr vs) s =
    then_iff (ok-injective, ap ok)
      (any-iff-Any (λ v. py_eq v (str s)) (λ v. v ≡ str s) (items vs) (λ v. py_eq_iff v s))
is_in_iff (obj fs) s = (ok-injective, ap ok)
is_in_iff (str t) s = (ok-injective, ap ok)
is_in_iff _ s = (λ h. cc, λ h. absurd h)

is_in-answers :
    (v : Value) (s t : String) → Holds v s → (b : Bool) × (is_in {M = Failure} t v ≡ ok b)
unfolding is_in
is_in-answers (arr vs) s t h = (_, refl)
is_in-answers (obj fs) s t h = (_, refl)
is_in-answers (str u) s t h = (_, refl)
is_in-answers _ s t h = absurd h

-- An include names the default branch, or the branch by its reference.
pub includes_iff :
    (branch : String) (v : Value)
    → (includes branch v ≡ ok true)
      ↔ (Holds v "~DEFAULT_BRANCH" ⊎ Holds v ("refs/heads/" <> branch))
unfolding includes
includes_iff branch v = (
  λ h.
      let (by_default, first, h1) = >>=-eq-ok (is_in {M = Failure} "~DEFAULT_BRANCH" v) _ h in
      out by_default first h1,
  elim [
    | inl a ↦ rw ((is_in_iff v "~DEFAULT_BRANCH").1 a) refl
    | inr b ↦ second b (is_in-answers v ("refs/heads/" <> branch) "~DEFAULT_BRANCH" b)
  ],
)
  where
    out :
        (by_default : Bool)
        → is_in {M = Failure} "~DEFAULT_BRANCH" v ≡ ok by_default
        → ◌≡◌ {A = Result Failure Bool}
            (if by_default then ok true else is_in ("refs/heads/" <> branch) v)
            (ok true)
        → Holds v "~DEFAULT_BRANCH" ⊎ Holds v ("refs/heads/" <> branch)
    out true first h = inl ((is_in_iff v "~DEFAULT_BRANCH").0 first)
    out false first h = inr ((is_in_iff v ("refs/heads/" <> branch)).0 h)

    second :
        Holds v ("refs/heads/" <> branch)
        → (b : Bool) × (is_in {M = Failure} "~DEFAULT_BRANCH" v ≡ ok b)
        → (is_in {M = Failure} "~DEFAULT_BRANCH" v >>= λ by_default.
            if by_default then ok true else is_in ("refs/heads/" <> branch) v)
          ≡ ok true
    second b (true, first) = rw first refl
    second b (false, first) = rw first ((is_in_iff v ("refs/heads/" <> branch)).1 b)

-- The only row that is as it is asked for.
abbrev pub IsOnly : (Fields → Type 0) → List Fields → Fields → Type 0
IsOnly P rows row =
    (before : List Fields) × (after : List Fields) × (rows ≡ before ++ (row ∷ after))
    × P row
    × All (λ r. ¬ P r) before
    × All (λ r. ¬ P r) after

none_iff :
    (name : String) (rows : List Fields)
    → (matching_rulesets name rows ≡ []) ↔ All (λ r. ¬ IsNamed name r) rows
unfolding matching_rulesets
none_iff name [] = (λ h. tt, λ h. refl)
none_iff name (r ∷ rows) = elim (Bool-cases (is_matching name r)) [
  | inl fits ↦ rw fits (λ h. cc, λ h. absurd (h.0 ((is_matching_iff name r).0 fits)))
  | inr other ↦ rw other (
    λ h. (
      (false_iff (is_matching name r) (is_matching_iff name r)).0 other,
      (none_iff name rows).0 h,
    ),
    λ h. (none_iff name rows).1 h.1,
  )
]

pub matching_rulesets_iff :
    (name : String) (rows : List Fields) (row : Fields)
    → (matching_rulesets name rows ≡ row ∷ []) ↔ IsOnly (IsNamed name) rows row
unfolding matching_rulesets
matching_rulesets_iff name [] row =
    (λ h. cc, λ (before, after, e, p, no_before, no_after). absurd (no_row before after e))
  where
    no_row : (before after : List Fields) → [] ≡ before ++ (row ∷ after) → ⊥
    no_row [] after e = cc
    no_row (b ∷ before) after e = cc
matching_rulesets_iff name (r ∷ rows) row = elim (Bool-cases (is_matching name r)) [
  | inl fits ↦ rw fits (
    λ h.
        let same : r ≡ row = cc in
        let rest : matching_rulesets name rows ≡ [] = cc in
        (
          [],
          rows,
          ap (λ x. x ∷ rows) same,
          subst (IsNamed name) same ((is_matching_iff name r).0 fits),
          tt,
          (none_iff name rows).0 rest,
        ),
    λ (before, after, e, p, no_before, no_after).
        first before after e no_before no_after ((is_matching_iff name r).0 fits),
  )
  | inr other ↦
      let unnamed = (false_iff (is_matching name r) (is_matching_iff name r)).0 other in
      rw other (
        λ h.
            let (before, after, e, p, no_before, no_after) =
              (matching_rulesets_iff name rows row).0 h in
            (r ∷ before, after, ap (λ x. r ∷ x) e, p, (unnamed, no_before), no_after),
        λ (before, after, e, p, no_before, no_after).
            later (matching_rulesets_iff name rows row).1 unnamed before after e p no_before
              no_after,
      )
]
  where
    first :
        (before after : List Fields)
        → r ∷ rows ≡ before ++ (row ∷ after)
        → All (λ x. ¬ IsNamed name x) before
        → All (λ x. ¬ IsNamed name x) after
        → IsNamed name r
        → r ∷ matching_rulesets name rows ≡ row ∷ []
    first [] after e no_before no_after p =
        let same : r ≡ row = cc in
        let rest : after ≡ rows = cc in
        let empty = (none_iff name rows).1 (subst (All (λ x. ¬ IsNamed name x)) rest no_after) in
        ap₂ (λ x xs. x ∷ xs) same empty
    first (b ∷ before) after e no_before no_after p =
        let same : r ≡ b = cc in absurd (no_before.0 (subst (IsNamed name) same p))

    later :
        (IsOnly (IsNamed name) rows row → matching_rulesets name rows ≡ row ∷ [])
        → (¬ IsNamed name r)
        → (before after : List Fields) → r ∷ rows ≡ before ++ (row ∷ after)
        → IsNamed name row
        → All (λ x. ¬ IsNamed name x) before
        → All (λ x. ¬ IsNamed name x) after
        → matching_rulesets name rows ≡ row ∷ []
    later rest unnamed [] after e p no_before no_after =
        let same : row ≡ r = cc in absurd (unnamed (subst (IsNamed name) same p))
    later rest unnamed (b ∷ before) after e p no_before no_after =
        rest (before, after, cc, p, no_before.1, no_after)
