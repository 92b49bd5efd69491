-- ===== src/Vectors/Noted.antt =====
-- What the files have to contain for a type of objects, or an invalid selector, to be noted as seen.
use grain_protocol.Base.{
  ◌≡◌, refl, ap, subst, ◌⊎◌, inl, inr, String, str_eq, eq_iff, Bool, true, false, ◌&&◌, Option,
  none, some, List, [], ◌∷◌, or_iff, contains, lookup, Result, ok, ok-injective, >>=-eq-ok,
}
use grain_protocol.Base.Text.{codes, has_prefix}
use grain_protocol.Json.{Value, str, obj, end, Fields, fields, get, get_or, is_true}
use grain_protocol.Report.{parsed}
use grain_protocol.Vectors.Contents.{
  typed_object_types, Seen, File, noted_or, positive_or, check_positive, check_text_selector,
  check_selector, select_for, check_object_type, note_selector,
}
use grain_protocol.Vectors.Names.{is_object_path}
use grain_protocol.Vectors.Operations.{Issue, Failure, fields_or, expect_of}

-- A vector that passes an object of a type: a file among those of objects, whose identity begins with
-- "POS-OBJ-", that validates an input of the type and expects that it passes.
abbrev pub IsPositiveOf : File → String → Type 0
IsPositiveOf file type =
    (fs : Fields) × (vector_id : String) × (input : Fields) × (expect : Fields) × (file.json
      ≡ parsed (obj fs))
    × (get fs "vector_id" ≡ str vector_id)
    × (is_object_path (codes file.rel) ≡ true)
    × (has_prefix (codes vector_id) (codes "POS-OBJ-") ≡ true)
    × (get fs "op" ≡ str "dagcbor_validate")
    × (get fs "input" ≡ obj input)
    × (lookup "object_type" (fields input) ≡ some (str type))
    × (get_or fs "expect" (obj end) ≡ obj expect)
    × (is_true (get expect "pass") ≡ true)

-- A vector with this identity, that validates an input whose selector is none of the types.
abbrev pub IsSelectorOf : File → String → Type 0
IsSelectorOf file vector_id =
    (fs : Fields) × (input : Fields) × (selector : Value) × (file.json ≡ parsed (obj fs))
    × (get fs "vector_id" ≡ str vector_id)
    × (get fs "op" ≡ str "dagcbor_validate")
    × (get fs "input" ≡ obj input)
    × (lookup "object_type" (fields input) ≡ some selector)
    × ((type : String) → selector ≡ str type → contains typed_object_types type ≡ false)

-- Some file of a list.
abbrev pub Some : (File → Type 0) → List File → Type 0
Some P [] = ⊥
Some P (file ∷ files) = P file ⊎ Some P files

contains-cons :
    (P : String → Type 0) (x : String) (xs : List String) (y : String)
    → P x
    → contains (x ∷ xs) y ≡ true
    → (contains xs y ≡ true) ⊎ P y
unfolding contains
contains-cons P x xs y p h =
    elim ((or_iff (str_eq x y) (contains xs y) (eq_iff x y) ((λ k. k), (λ k. k))).0 h) [
      | inl same ↦ inr (subst P same p)
      | inr rest ↦ inl rest
    ]

-- What is noted was noted before, or is of the file.
abbrev pub Noted : (String → Type 0) → (String → Type 0) → Seen → Seen → Type 0
Noted P S seen next =
    ((t : String) → contains next.positive t ≡ true → (contains seen.positive t ≡ true) ⊎ P t)
    × ((i : String) → contains next.selectors i ≡ true → (contains seen.selectors i ≡ true) ⊎ S i)

fields_or-eq-obj : (v : Value) {fs : Fields} → fields_or v ≡ ok fs → v ≡ obj fs
fields_or-eq-obj (obj fs) h = ap obj (ok-injective h)
fields_or-eq-obj _ h = cc

module _ (P S : String → Type 0) (seen : Seen) where
  pub same-Noted : Noted P S seen seen
  same-Noted = (λ t h. inl h, λ i h. inl h)

  abbrev pub AllNoted : Result Failure (Seen × List Issue) → Type 0
  AllNoted r = (next : Seen) (issues : List Issue) → r ≡ ok (next, issues) → Noted P S seen next

  pub ok-AllNoted : (result : Seen × List Issue) → Noted P S seen result.0 → AllNoted (ok result)
  ok-AllNoted result noted next issues h =
      subst (λ (x : Seen × List Issue). Noted P S seen x.0) (ok-injective h) noted

  noted_or-AllNoted :
      (b : Bool) (vector_id : String) (issue : Issue)
      → S vector_id
      → AllNoted (noted_or b vector_id issue seen)
  noted_or-AllNoted true vector_id issue s =
      ok-AllNoted (note_selector vector_id seen, [])
        (λ t h. inl h, λ i h. contains-cons S vector_id seen.selectors i s h)
  noted_or-AllNoted false vector_id issue s = ok-AllNoted (seen, issue ∷ []) same-Noted

  positive_or-Noted :
      (b : Bool) (type : String) → (b ≡ true → P type) → Noted P S seen (positive_or b type seen).0
  positive_or-Noted true type p =
      (λ t h. contains-cons P type seen.positive t (p refl) h, λ i h. inl h)
  positive_or-Noted false type p = same-Noted

  -- What has to be known for a type to be noted as positive.
  abbrev IsEvidence : Bool → Fields → String → Type 0
  IsEvidence b fs type =
      (expect : Fields)
      → b ≡ true
      → get_or fs "expect" (obj end) ≡ obj expect
      → is_true (get expect "pass") ≡ true
      → P type

  check_positive-AllNoted :
      (b : Bool) (type : String) (fs : Fields)
      → IsEvidence b fs type
      → AllNoted (check_positive b type fs seen)
  check_positive-AllNoted true type fs p next issues h =
      let (expect, is_expect, h1) = >>=-eq-ok (expect_of fs) _ h in
      ok-AllNoted (positive_or (is_true (get expect "pass")) type seen)
        (positive_or-Noted (is_true (get expect "pass")) type
          (p expect refl (fields_or-eq-obj (get_or fs "expect" (obj end)) is_expect)))
        next issues h1
  check_positive-AllNoted false type fs p next issues h =
      ok-AllNoted (seen, []) same-Noted next issues h

  check_text_selector-AllNoted :
      (known b : Bool) (vector_id type : String) (fs : Fields)
      → IsEvidence (b && has_prefix (codes vector_id) (codes "POS-OBJ-")) fs type
      → (known ≡ false → S vector_id)
      → AllNoted (check_text_selector known b vector_id type fs seen)
  check_text_selector-AllNoted false b vector_id type fs p s =
      noted_or-AllNoted _ vector_id _ (s refl)
  check_text_selector-AllNoted true b vector_id type fs p s =
      check_positive-AllNoted (b && has_prefix (codes vector_id) (codes "POS-OBJ-")) type fs p

  check_selector-AllNoted :
      (b : Bool) (vector_id : String) (v : Value) (fs : Fields)
      → ((type : String)
          → v ≡ str type
          → IsEvidence (b && has_prefix (codes vector_id) (codes "POS-OBJ-")) fs type)
      → (((type : String) → v ≡ str type → contains typed_object_types type ≡ false) → S vector_id)
      → AllNoted (check_selector b vector_id v fs seen)
  unfolding check_selector
  check_selector-AllNoted b vector_id (str type) fs p s =
      check_text_selector-AllNoted (contains typed_object_types type) b vector_id type fs
        (p type refl)
        (λ unknown. s (λ t e.
          let same : type ≡ t = cc in
          subst (λ x. contains typed_object_types x ≡ false) same unknown))
  check_selector-AllNoted b vector_id _ fs p s = noted_or-AllNoted _ vector_id _ (s (λ t e. cc))

  select_for-AllNoted :
      (asked b : Bool) (vector_id : String) (v : Value) (fs : Fields)
      → ((type : String)
          → asked ≡ true
          → v ≡ str type
          → IsEvidence (b && has_prefix (codes vector_id) (codes "POS-OBJ-")) fs type)
      → (asked ≡ true
          → ((type : String) → v ≡ str type → contains typed_object_types type ≡ false)
          → S vector_id)
      → AllNoted (select_for asked b vector_id v fs seen)
  select_for-AllNoted true b vector_id v fs p s =
      check_selector-AllNoted b vector_id v fs (λ t e. p t refl e) (s refl)
  select_for-AllNoted false b vector_id v fs p s = ok-AllNoted (seen, _) same-Noted

  pub check_object_type-AllNoted :
      (b : Bool) (vector_id op : String) (o : Option Value) (fs : Fields)
      → ((type : String)
          → op ≡ "dagcbor_validate"
          → o ≡ some (str type)
          → IsEvidence (b && has_prefix (codes vector_id) (codes "POS-OBJ-")) fs type)
      → (op ≡ "dagcbor_validate"
          → (selector : Value) → o ≡ some selector
          → ((type : String) → selector ≡ str type → contains typed_object_types type ≡ false)
          → S vector_id)
      → AllNoted (check_object_type b vector_id op o fs seen)
  check_object_type-AllNoted b vector_id op none fs p s = ok-AllNoted (seen, _) same-Noted
  check_object_type-AllNoted b vector_id op (some v) fs p s =
      select_for-AllNoted (str_eq op "dagcbor_validate") b vector_id v fs
        (λ t asked e. p t ((eq_iff op "dagcbor_validate").0 asked) (ap some e))
        (λ asked. s ((eq_iff op "dagcbor_validate").0 asked) v refl)
