-- ===== src/Vectors/Accepted.antt =====
-- What the files are when nothing is reported of them.
use grain_protocol.Base.{
  ℕ, ◌≡◌, refl, sym, ap, ◌∙◌, subst, String, str_eq, Bool, true, false, not, ◌&&◌, Option, none,
  some, List, [], ◌∷◌, All, All-append_left, All-append_right, any, any-eq-false_iff, lookup,
  contains, append-eq-nil_iff, if◌then◌else◌, Result, ok, ok-injective, >>=-eq-ok,
}
use grain_protocol.Base.Text.{codes, codes_eq, lower, has_infix, has_prefix}
use grain_protocol.Json.{
  Value, str, obj, arr, Items, nil, cons, Fields, end, field, fields, get, has_key, is_true,
}
use grain_protocol.Report.{Detail, text}
use grain_protocol.Vectors.Shapes.{missing_from-nil_iff}
use grain_protocol.Vectors.Walks.{HasB64, collect_b64_fields_iff}
use grain_protocol.Vectors.{missing_from, collect_b64_fields, validate_b64}
use grain_protocol.Vectors.Contents.{
  required_top, required_input_by_op, typed_object_types, invalid_selector_ids, placeholder_tokens,
  walk_strings, strings_in_fields, strings_in_items, Seen, File, note_id, note_text, is_named,
  check_forms, note_selector, noted_or, positive_or, check_positive, check_text_selector,
  check_selector, select_for, check_object_type, check_boundary, placeholder_issue, b64_issues,
  check_input,
}
use grain_protocol.Vectors.Files.{check_op, check_known, check_named, check_fields}
use grain_protocol.Vectors.Names.{Unicode, is_object_path}
use grain_protocol.Vectors.Operations.{
  Issue, told, unknown_type, concat, Failure, issue_if, fields_or, expect_of, check_operation,
}
use grain_protocol.Workflows.{stem}

-- A text in which, in lower case, none of three words stands.
abbrev pub IsFinal : String → Type 0
IsFinal s =
    All (λ token. has_infix (lower (codes s)) (codes token) ≡ false)
      ("placeholder" ∷ "illustrative" ∷ "next phase" ∷ [])

-- No text at any depth of a value is a placeholder.
abbrev mutual
  pub IsFinished : Value → Type 0
  IsFinished (str s) = IsFinal s
  IsFinished (obj fs) = AreFinishedFields fs
  IsFinished (arr vs) = AreFinishedItems vs
  IsFinished _ = Unit

  pub AreFinishedFields : Fields → Type 0
  AreFinishedFields end = Unit
  AreFinishedFields (field key value fs) = IsFinished value × AreFinishedFields fs

  pub AreFinishedItems : Items → Type 0
  AreFinishedItems nil = Unit
  AreFinishedItems (cons item vs) = IsFinished item × AreFinishedItems vs

mutual
  unfolding walk_strings

  walk_strings-IsFinished : (v : Value) → All IsFinal (walk_strings v) → IsFinished v
  walk_strings-IsFinished (str s) (h, _) = h
  walk_strings-IsFinished (obj fs) h = strings_in_fields-AreFinished fs h
  walk_strings-IsFinished (arr vs) h = strings_in_items-AreFinished vs h
  walk_strings-IsFinished _ h = tt

  strings_in_fields-AreFinished :
      (fs : Fields) → All IsFinal (strings_in_fields fs) → AreFinishedFields fs
  strings_in_fields-AreFinished end h = tt
  strings_in_fields-AreFinished (field key value fs) h = (
    walk_strings-IsFinished value
        (All-append_left IsFinal (walk_strings value) (strings_in_fields fs) h),
    strings_in_fields-AreFinished fs
        (All-append_right IsFinal (walk_strings value) (strings_in_fields fs) h),
  )

  strings_in_items-AreFinished :
      (vs : Items) → All IsFinal (strings_in_items vs) → AreFinishedItems vs
  strings_in_items-AreFinished nil h = tt
  strings_in_items-AreFinished (cons item vs) h = (
    walk_strings-IsFinished item
        (All-append_left IsFinal (walk_strings item) (strings_in_items vs) h),
    strings_in_items-AreFinished vs
        (All-append_right IsFinal (walk_strings item) (strings_in_items vs) h),
  )

-- What an object and its input are, of which nothing is reported: the input has the keys that are
-- required, no text is a placeholder, and all base64 is valid.
abbrev pub IsInput : Fields → Fields → List String → Type 0
IsInput fs input required =
    All (λ name. has_key input name ≡ true) required × IsFinished (obj fs) × HasB64 (obj fs)

-- What an object is, of whose operation nothing is reported.
abbrev pub IsOperated : Fields → Type 0
IsOperated fs =
    (op : String) × (required : List String) × (input : Fields) × (get fs "op" ≡ str op)
    × (lookup op required_input_by_op ≡ some required)
    × (get fs "input" ≡ obj input)
    × IsInput fs input required

issue_if-eq-nil : (b : Bool) (i : Issue) → issue_if (not b) i ≡ [] → b ≡ true
issue_if-eq-nil true i h = refl
issue_if-eq-nil false i h = cc

placeholder_issue-eq-nil :
    (strings : List String) → placeholder_issue strings ≡ [] → All IsFinal strings
unfolding placeholder_issue
placeholder_issue-eq-nil [] h = tt
placeholder_issue-eq-nil (s ∷ strings) h =
    go (any (λ token. has_infix (lower (codes s)) (codes token)) placeholder_tokens) refl
      (placeholder_issue-eq-nil strings) h
  where
    go :
        (b : Bool)
        → any (λ token. has_infix (lower (codes s)) (codes token)) placeholder_tokens ≡ b
        → (placeholder_issue strings ≡ [] → All IsFinal strings)
        → (if b
            then grain_protocol.Vectors.Operations.placeholder s ∷ []
            else placeholder_issue strings)
          ≡ []
        → All IsFinal (s ∷ strings)
    go true e rest k = cc
    go false e rest k = (
      (any-eq-false_iff (λ token. has_infix (lower (codes s)) (codes token)) placeholder_tokens).0
          e,
      rest k,
    )

b64_issues-eq-nil :
    (rows : List (Detail × String))
    → b64_issues rows ≡ []
    → All (λ (row : Detail × String). validate_b64 row.1 ≡ true) rows
unfolding b64_issues
b64_issues-eq-nil [] h = tt
b64_issues-eq-nil ((path, s) ∷ rows) h =
    let (here, rest) = (append-eq-nil_iff _ (b64_issues rows)).0 h in
    (issue_if-eq-nil (validate_b64 s) _ here, b64_issues-eq-nil rows rest)

-- An identity that is noted without an issue is a text that was not noted before.
note_id-eq-nil :
    (rel : String) (v : Value) (seen : Seen)
    → (note_id rel v seen).1 ≡ []
    → (s : String) × (v ≡ str s)
      × (lookup s seen.ids ≡ none)
      × ((note_id rel v seen).0.ids ≡ (s, rel) ∷ seen.ids)
unfolding note_id
note_id-eq-nil rel (str s) seen h = go (lookup s seen.ids) refl h
  where
    go :
        (o : Option String)
        → lookup s seen.ids ≡ o
        → (note_text o rel s seen).1 ≡ []
        → (t : String) × (str s ≡ str t)
          × (lookup t seen.ids ≡ none)
          × ((note_text (lookup s seen.ids) rel s seen).0.ids ≡ (t, rel) ∷ seen.ids)
    go none e k = (s, refl, e, rw e refl)
    go (some previous) e k = cc
note_id-eq-nil rel _ seen h = cc

-- A check that leaves the identities as they are.
abbrev KeepsIds : Result Failure (Seen × List Issue) → Seen → Type 0
KeepsIds r seen = (next : Seen) (issues : List Issue) → r ≡ ok (next, issues) → next.ids ≡ seen.ids

ok-KeepsIds :
    (result : Seen × List Issue) (seen : Seen) → result.0.ids ≡ seen.ids → KeepsIds (ok result) seen
ok-KeepsIds result seen p next issues h =
    ap (λ (x : Seen × List Issue). x.0.ids) (sym (ok-injective h)) ∙ p

noted_or-KeepsIds :
    (b : Bool) (vector_id : String) (issue : Issue) (seen : Seen)
    → KeepsIds (noted_or b vector_id issue seen) seen
noted_or-KeepsIds true vector_id issue seen =
    ok-KeepsIds (note_selector vector_id seen, []) seen refl
noted_or-KeepsIds false vector_id issue seen = ok-KeepsIds (seen, issue ∷ []) seen refl

positive_or-ids :
    (b : Bool) (object_type : String) (seen : Seen)
    → (positive_or b object_type seen).0.ids ≡ seen.ids
positive_or-ids true object_type seen = refl
positive_or-ids false object_type seen = refl

check_positive-KeepsIds :
    (b : Bool) (object_type : String) (fs : Fields) (seen : Seen)
    → KeepsIds (check_positive b object_type fs seen) seen
check_positive-KeepsIds true object_type fs seen next issues h =
    let (expect, _, h1) = >>=-eq-ok (expect_of fs) _ h in
    ok-KeepsIds (positive_or (is_true (get expect "pass")) object_type seen) seen
      (positive_or-ids (is_true (get expect "pass")) object_type seen) next issues h1
check_positive-KeepsIds false object_type fs seen next issues h =
    ok-KeepsIds (seen, []) seen refl next issues h

check_text_selector-KeepsIds :
    (known b : Bool) (vector_id object_type : String) (fs : Fields) (seen : Seen)
    → KeepsIds (check_text_selector known b vector_id object_type fs seen) seen
check_text_selector-KeepsIds false b vector_id object_type fs seen =
    noted_or-KeepsIds (b && contains ("NEG-OBJ-098" ∷ "NEG-OBJ-099" ∷ []) vector_id) vector_id
      (unknown_type object_type) seen
check_text_selector-KeepsIds true b vector_id object_type fs seen =
    check_positive-KeepsIds (b && has_prefix (codes vector_id) (codes "POS-OBJ-")) object_type fs
      seen

check_selector-KeepsIds :
    (b : Bool) (vector_id : String) (v : Value) (fs : Fields) (seen : Seen)
    → KeepsIds (check_selector b vector_id v fs seen) seen
unfolding check_selector
check_selector-KeepsIds b vector_id (str object_type) fs seen =
    check_text_selector-KeepsIds (contains typed_object_types object_type) b vector_id object_type
      fs seen
check_selector-KeepsIds b vector_id _ fs seen =
    noted_or-KeepsIds (b && str_eq vector_id "NEG-OBJ-097") vector_id
      (told "object_type must be string except in NEG-OBJ-097") seen

select_for-KeepsIds :
    (asked b : Bool) (vector_id : String) (v : Value) (fs : Fields) (seen : Seen)
    → KeepsIds (select_for asked b vector_id v fs seen) seen
select_for-KeepsIds true b vector_id v fs seen = check_selector-KeepsIds b vector_id v fs seen
select_for-KeepsIds false b vector_id v fs seen =
    ok-KeepsIds (seen, told "object_type is only valid for dagcbor_validate" ∷ []) seen refl

check_object_type-KeepsIds :
    (b : Bool) (vector_id op : String) (o : Option Value) (fs : Fields) (seen : Seen)
    → KeepsIds (check_object_type b vector_id op o fs seen) seen
check_object_type-KeepsIds b vector_id op none fs seen =
    ok-KeepsIds (seen, issue_if b (told "typed-object vectors must include input.object_type")) seen
      refl
check_object_type-KeepsIds b vector_id op (some v) fs seen =
    select_for-KeepsIds (str_eq op "dagcbor_validate") b vector_id v fs seen

concat-eq-nil : (parts : List (List Issue)) → concat parts ≡ [] → All (λ part. part ≡ []) parts
unfolding concat
concat-eq-nil [] h = tt
concat-eq-nil (part ∷ parts) h =
    let (here, rest) = (append-eq-nil_iff part (concat parts)).0 h in
    (here, concat-eq-nil parts rest)

check_input-eq-nil :
    (b : Bool) (vector_id op : String) (fs input : Fields) (required : List String)
    (seen next : Seen)
    → check_input b vector_id op fs input required seen ≡ ok (next, [])
    → IsInput fs input required × (next.ids ≡ seen.ids)
unfolding check_input
check_input-eq-nil b vector_id op fs input required seen next h =
    let ((seen', typed), at, h1) =
      >>=-eq-ok (check_object_type b vector_id op (lookup "object_type" (fields input)) fs seen) _
        h in
    let (boundary, _, h2) =
      >>=-eq-ok
        (check_boundary (lookup vector_id grain_protocol.Vectors.Contents.invalid_selector_diags)
          fs)
        _ h1 in
    let (expect, _, h3) = >>=-eq-ok (expect_of fs) _ h2 in
    let (operation, _, h4) = >>=-eq-ok (check_operation op input expect) _ h3 in
    let done = ok-injective h4 in
    let (lacking, (_, (_, (_, (final, (valid, _)))))) =
      concat-eq-nil _ (ap (λ (x : Seen × List Issue). x.1) done) in
    (
      (
        (missing_from-nil_iff input required).0 (issue_if-eq-nil _ _ lacking),
        walk_strings-IsFinished (obj fs) (placeholder_issue-eq-nil _ final),
        (collect_b64_fields_iff (obj fs) (text "")).0 (b64_issues-eq-nil _ valid),
      ),
      ap (λ (x : Seen × List Issue). x.0.ids) (sym done)
          ∙ check_object_type-KeepsIds b vector_id op (lookup "object_type" (fields input)) fs seen
              seen' typed at,
    )

check_named-eq-nil :
    (b : Bool) (v : Value) (op : String) (fs input : Fields) (required : List String)
    (seen next : Seen)
    → check_named b v op fs input required seen ≡ ok (next, [])
    → IsInput fs input required × (next.ids ≡ seen.ids)
check_named-eq-nil b (str vector_id) op fs input required seen next h =
    check_input-eq-nil b vector_id op fs input required seen next h
check_named-eq-nil b _ op fs input required seen next h = cc

check_known-eq-nil :
    (b : Bool) (op : String) (fs : Fields) (o : Option (List String)) (v : Value) (seen next : Seen)
    → check_known b op fs o v seen ≡ ok (next, [])
    → (required : List String) × (input : Fields) × (o ≡ some required)
      × (v ≡ obj input)
      × IsInput fs input required
      × (next.ids ≡ seen.ids)
check_known-eq-nil b op fs none v seen next h = cc
check_known-eq-nil b op fs (some required) (obj input) seen next h =
    let (is_input, ids) =
      check_named-eq-nil b (get fs "vector_id") op fs input required seen next h in
    (required, input, refl, refl, is_input, ids)
check_known-eq-nil b op fs (some required) _ seen next h = cc

check_op-eq-nil :
    (b : Bool) (v : Value) (fs : Fields) (seen next : Seen)
    → check_op b v fs seen ≡ ok (next, [])
    → (op : String) × (required : List String) × (input : Fields) × (v ≡ str op)
      × (lookup op required_input_by_op ≡ some required)
      × (get fs "input" ≡ obj input)
      × IsInput fs input required
      × (next.ids ≡ seen.ids)
unfolding check_op
check_op-eq-nil b (str op) fs seen next h =
    let (required, input, at, is_obj, is_input, ids) =
      check_known-eq-nil b op fs (lookup op required_input_by_op) (get fs "input") seen next h in
    (op, required, input, refl, at, is_obj, is_input, ids)
check_op-eq-nil b _ fs seen next h = cc

is_named-eq :
    (s : String) (name : List ℕ) → is_named (str s) name ≡ true → codes_eq (codes s) name ≡ true
is_named-eq s name h = h

-- A file of which nothing is reported is a vector, whose identity no file before it has.
pub check_fields-eq-nil :
    (unicode : Unicode) (rel : String) (fs : Fields) (seen next : Seen)
    → check_fields unicode rel fs seen ≡ ok (next, [])
    → (vector_id : String) × (get fs "vector_id" ≡ str vector_id)
      × (codes_eq (codes vector_id) (stem rel) ≡ true)
      × (is_true (get fs "strict") ≡ true)
      × IsOperated fs
      × (lookup vector_id seen.ids ≡ none)
      × (next.ids ≡ (vector_id, rel) ∷ seen.ids)
unfolding check_fields
check_fields-eq-nil unicode rel fs seen next h =
    let b = is_object_path (codes rel) in
    let noted = (note_id rel (get fs "vector_id") seen).0 in
    let (forms, _, h1) = >>=-eq-ok (check_forms unicode b (get fs "vector_id")) _ h in
    let ((seen', rest), at, h2) = >>=-eq-ok (check_op b (get fs "op") fs noted) _ h1 in
    let done = ok-injective h2 in
    let (of_id, (name, (_, (strict, (rest_nil, _))))) =
      concat-eq-nil _ (ap (λ (x : Seen × List Issue). x.1) done) in
    let (vector_id, is_id, unseen, ids) = note_id-eq-nil rel (get fs "vector_id") seen of_id in
    let (op, required, input, is_op, known, is_obj, is_input, kept) =
      check_op-eq-nil b (get fs "op") fs noted seen' (at ∙ ap (λ xs. ok (seen', xs)) rest_nil) in
    let named : is_named (get fs "vector_id") (stem rel) ≡ true = issue_if-eq-nil _ _ name in
    (
      vector_id,
      is_id,
      subst (λ v. is_named v (stem rel) ≡ true) is_id named,
      issue_if-eq-nil _ _ strict,
      (op, required, input, is_op, known, is_obj, is_input),
      unseen,
      ap (λ (x : Seen × List Issue). x.0.ids) (sym done) ∙ kept ∙ ids,
    )
