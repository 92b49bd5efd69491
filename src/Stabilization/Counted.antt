-- ===== src/Stabilization/Counted.antt =====
-- The counts of the verdicts.
use grain_protocol.Base.{
  ℕ, suc, ◌+◌, ◌≡◌, refl, ap, sym, ◌∙◌, arith, String, str_eq, eq_iff, true, false, Bool-cases, inl,
  inr, Option, none, some, List, [], ◌∷◌, lookup, if◌then◌else◌,
}
use grain_protocol.Stabilization.Counts.{verdict_text, count_one, verdict_counts}
use grain_protocol.Stabilization.Fuzz.{FuzzCase}

abbrev or_zero : Option ℕ → ℕ
or_zero none = 0
or_zero (some n) = n

-- What is counted under a name, and how many cases have it as their verdict.
unfoldable pub count_of : String → List (String × ℕ) → ℕ
unfolding lookup
count_of name counts = or_zero (lookup name counts)

unfoldable pub occurrences : String → List FuzzCase → ℕ
occurrences name [] = 0
occurrences name (c ∷ cases) =
    let rest = occurrences name cases in
    if str_eq (verdict_text c.case_result.verdict) name then suc rest else rest

distinct :
    (k verdict name : String)
    → str_eq k verdict ≡ false
    → str_eq k name ≡ true
    → str_eq verdict name ≡ false
distinct k verdict name other here = elim (Bool-cases (str_eq verdict name)) [
  | inl same ↦
      let e : str_eq k verdict ≡ true =
        (eq_iff k verdict).1 ((eq_iff k name).0 here ∙ sym ((eq_iff verdict name).0 same)) in
      cc (e, other)
  | inr apart ↦ apart
]

count_of-count_one :
    (name verdict : String) (counts : List (String × ℕ))
    → count_of name (count_one verdict counts)
      ≡ (if str_eq verdict name then suc (count_of name counts) else count_of name counts)
unfolding count_of count_one lookup
count_of-count_one name verdict [] = elim (Bool-cases (str_eq verdict name)) [
  | inl same ↦ rw same refl
  | inr other ↦ rw other refl
]
count_of-count_one name verdict ((k, n) ∷ counts) = elim (Bool-cases (str_eq k verdict)) [
  | inl same ↦
      let e : str_eq verdict name ≡ str_eq k name =
        ap (λ x. str_eq x name) (sym ((eq_iff k verdict).0 same)) in
      elim (Bool-cases (str_eq k name)) [
        | inl here ↦ rw (same, e, here) refl
        | inr there ↦ rw (same, e, there) refl
      ]
  | inr other ↦ elim (Bool-cases (str_eq k name)) [
    | inl here ↦ rw (other, distinct k verdict name other here, here) refl
    | inr there ↦ rw (other, there) (count_of-count_one name verdict counts)
  ]
]

verdict_counts_from :
    (name : String) (cases : List FuzzCase) (counts : List (String × ℕ))
    → count_of name (verdict_counts cases counts) ≡ occurrences name cases + count_of name counts
unfolding verdict_counts occurrences
verdict_counts_from name [] counts = omega arith
verdict_counts_from name (c ∷ cases) counts =
    verdict_counts_from name cases (count_one (verdict_text c.case_result.verdict) counts)
    ∙ (elim (Bool-cases (str_eq (verdict_text c.case_result.verdict) name)) [
      | inl same ↦
          rw (count_of-count_one name (verdict_text c.case_result.verdict) counts, same)
            (omega arith)
      | inr other ↦
          rw (count_of-count_one name (verdict_text c.case_result.verdict) counts, other)
            (omega arith)
    ])

-- Under each name the report counts the cases that have it as their verdict.
pub count_of-verdict_counts :
    (name : String) (cases : List FuzzCase)
    → count_of name (verdict_counts cases []) ≡ occurrences name cases
unfolding count_of lookup
count_of-verdict_counts name cases = verdict_counts_from name cases [] ∙ omega arith
