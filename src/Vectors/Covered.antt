-- ===== src/Vectors/Covered.antt =====
-- What a check of the vectors has noted as seen, traced to the files.
use grain_protocol.Base.{
  ◌≡◌, refl, ap, ◌∙◌, subst, ◌⊎◌, inl, inr, String, true, Option, none, some, List, [], ◌∷◌,
  and_parts, contains, lookup, Result, ok, ok-injective, >>=-eq-ok,
}
use grain_protocol.Base.Text.{codes}
use grain_protocol.Json.{Value, str, obj, arr, Fields, fields, get}
use grain_protocol.Report.{JsonFile, missing, malformed, parsed}
use grain_protocol.Vectors.{missing_from}
use grain_protocol.Vectors.Contents.{
  required_top, required_input_by_op, Seen, File, note_id, note_text, check_object_type,
  check_boundary, invalid_selector_diags, check_input, check_forms,
}
use grain_protocol.Vectors.Files.{
  check_named, check_known, check_op, check_fields, check_top, check_json, check_file, check_files,
}
use grain_protocol.Vectors.Noted.{
  IsPositiveOf, IsSelectorOf, Some, Noted, AllNoted, same-Noted, ok-AllNoted,
  check_object_type-AllNoted,
}
use grain_protocol.Vectors.Names.{Unicode, is_object_path}
use grain_protocol.Vectors.Operations.{Issue, Failure, expect_of, check_operation}

module _ (file : File) (fs : Fields) (is_file : file.json ≡ parsed (obj fs)) (seen : Seen) where
  -- What a check of the file's object notes is of the file.
  abbrev FileNoted : Result Failure (Seen × List Issue) → Type 0
  FileNoted r = AllNoted (IsPositiveOf file) (IsSelectorOf file) seen r

  check_input-FileNoted :
      (vector_id op : String) (input : Fields) (required : List String)
      → get fs "vector_id" ≡ str vector_id
      → get fs "op" ≡ str op
      → get fs "input" ≡ obj input
      → FileNoted
          (check_input (is_object_path (codes file.rel)) vector_id op fs input required seen)
  unfolding check_input
  check_input-FileNoted vector_id op input required is_id is_op is_input next issues h =
      let b = is_object_path (codes file.rel) in
      let ((seen', typed), at, h1) =
        >>=-eq-ok (check_object_type b vector_id op (lookup "object_type" (fields input)) fs seen) _
          h in
      let (boundary, _, h2) =
        >>=-eq-ok (check_boundary (lookup vector_id invalid_selector_diags) fs) _ h1 in
      let (expect, _, h3) = >>=-eq-ok (expect_of fs) _ h2 in
      let (operation, _, h4) = >>=-eq-ok (check_operation op input expect) _ h3 in
      subst (λ (x : Seen × List Issue). Noted (IsPositiveOf file) (IsSelectorOf file) seen x.0)
        (ok-injective h4)
        (check_object_type-AllNoted (IsPositiveOf file) (IsSelectorOf file) seen b vector_id op
          (lookup "object_type" (fields input)) fs
          (λ t asked e expect both is_expect passes.
            let (in_objects, begins) = and_parts b _ both in
            (
              fs,
              vector_id,
              input,
              expect,
              is_file,
              is_id,
              in_objects,
              begins,
              is_op ∙ ap str asked,
              is_input,
              e,
              is_expect,
              passes,
            ))
          (λ asked selector e unknown.
            (fs, input, selector, is_file, is_id, is_op ∙ ap str asked, is_input, e, unknown))
          seen' typed at)

  check_named-FileNoted :
      (v : Value) (op : String) (input : Fields) (required : List String)
      → get fs "vector_id" ≡ v
      → get fs "op" ≡ str op
      → get fs "input" ≡ obj input
      → FileNoted (check_named (is_object_path (codes file.rel)) v op fs input required seen)
  check_named-FileNoted (str vector_id) op input required is_id is_op is_input next issues h =
      check_input-FileNoted vector_id op input required is_id is_op is_input next issues h
  check_named-FileNoted _ op input required is_id is_op is_input next issues h = cc

  check_known-FileNoted :
      (op : String) (o : Option (List String)) (v : Value)
      → get fs "op" ≡ str op
      → get fs "input" ≡ v
      → FileNoted (check_known (is_object_path (codes file.rel)) op fs o v seen)
  check_known-FileNoted op none v is_op is_input =
      ok-AllNoted (IsPositiveOf file) (IsSelectorOf file) seen (seen, _)
        (same-Noted (IsPositiveOf file) (IsSelectorOf file) seen)
  check_known-FileNoted op (some required) (obj input) is_op is_input =
      check_named-FileNoted (get fs "vector_id") op input required refl is_op is_input
  check_known-FileNoted op (some required) _ is_op is_input =
      ok-AllNoted (IsPositiveOf file) (IsSelectorOf file) seen (seen, _)
        (same-Noted (IsPositiveOf file) (IsSelectorOf file) seen)

  check_op-FileNoted :
      (v : Value)
      → get fs "op" ≡ v
      → FileNoted (check_op (is_object_path (codes file.rel)) v fs seen)
  unfolding check_op
  check_op-FileNoted (str op) is_op next issues h =
      check_known-FileNoted op (lookup op required_input_by_op) (get fs "input") is_op refl next
        issues h
  check_op-FileNoted (arr vs) is_op next issues h = cc
  check_op-FileNoted (obj gs) is_op next issues h = cc
  check_op-FileNoted _ is_op next issues h =
      ok-AllNoted (IsPositiveOf file) (IsSelectorOf file) seen (seen, _)
        (same-Noted (IsPositiveOf file) (IsSelectorOf file) seen) next issues h

map_left : {A B C : Type 0} → A ⊎ B → (A → C) → C ⊎ B
map_left (inl a) f = inl (f a)
map_left (inr b) f = inr b

-- The identity of a file is noted apart from the types and the selectors.
note_id_same :
    (rel : String) (v : Value) (seen : Seen)
    → ((note_id rel v seen).0.positive ≡ seen.positive)
      × ((note_id rel v seen).0.selectors ≡ seen.selectors)
unfolding note_id
note_id_same rel (str vector_id) seen = go (lookup vector_id seen.ids)
  where
    go :
        (o : Option String)
        → ((note_text o rel vector_id seen).0.positive ≡ seen.positive)
          × ((note_text o rel vector_id seen).0.selectors ≡ seen.selectors)
    go none = (refl, refl)
    go (some previous) = (refl, refl)
note_id_same rel _ seen = (refl, refl)

module _ (unicode : Unicode) (file : File) (seen : Seen) where
  check_fields-Noted :
      (fs : Fields) (next : Seen) (issues : List Issue)
      → file.json ≡ parsed (obj fs)
      → check_fields unicode file.rel fs seen ≡ ok (next, issues)
      → Noted (IsPositiveOf file) (IsSelectorOf file) seen next
  unfolding check_fields
  check_fields-Noted fs next issues is_file h =
      let noted = (note_id file.rel (get fs "vector_id") seen).0 in
      let (positive, selectors) = note_id_same file.rel (get fs "vector_id") seen in
      let (forms, _, h1) =
        >>=-eq-ok (check_forms unicode (is_object_path (codes file.rel)) (get fs "vector_id")) _
          h in
      let ((seen', rest), at, h2) =
        >>=-eq-ok (check_op (is_object_path (codes file.rel)) (get fs "op") fs noted) _ h1 in
      let (of_types, of_selectors) =
        subst (λ (x : Seen × List Issue). Noted (IsPositiveOf file) (IsSelectorOf file) noted x.0)
          (ok-injective h2)
          (check_op-FileNoted file fs is_file noted (get fs "op") refl seen' rest at) in
      (
        λ t k. map_left (of_types t k) (subst (λ xs. contains xs t ≡ true) positive),
        λ i k. map_left (of_selectors i k) (subst (λ xs. contains xs i ≡ true) selectors),
      )

  check_top-Noted :
      (fs : Fields) (lacking : List String) (next : Seen) (issues : List Issue)
      → file.json ≡ parsed (obj fs)
      → check_top unicode file.rel fs lacking seen ≡ ok (next, issues)
      → Noted (IsPositiveOf file) (IsSelectorOf file) seen next
  check_top-Noted fs [] next issues is_file h = check_fields-Noted fs next issues is_file h
  check_top-Noted fs (k ∷ lacking) next issues is_file h =
      ok-AllNoted (IsPositiveOf file) (IsSelectorOf file) seen (seen, _)
        (same-Noted (IsPositiveOf file) (IsSelectorOf file) seen) next issues h

  check_json-Noted :
      (json : JsonFile) (next : Seen) (issues : List Issue)
      → file.json ≡ json
      → check_json unicode file.rel json seen ≡ ok (next, issues)
      → Noted (IsPositiveOf file) (IsSelectorOf file) seen next
  check_json-Noted missing next issues e h = cc
  check_json-Noted malformed next issues e h = cc
  check_json-Noted (parsed (obj fs)) next issues e h =
      check_top-Noted fs (missing_from fs required_top) next issues e h
  check_json-Noted (parsed _) next issues e h = cc

earlier : {A B C D : Type 0} → B ⊎ D → (B → A ⊎ C) → A ⊎ (C ⊎ D)
earlier (inl b) f = elim (f b) [ inl a ↦ inl a | inr c ↦ inr (inl c) ]
earlier (inr d) f = inr (inr d)

-- What the loop over the files has noted in the end was noted before, or is of some file.
pub check_files-Noted :
    (unicode : Unicode) (files : List File) (seen last : Seen) (rows : List (String × List Issue))
    → check_files unicode files seen ≡ ok (last, rows)
    → Noted
        (λ t. Some (λ file. IsPositiveOf file t) files)
        (λ i. Some (λ file. IsSelectorOf file i) files)
        seen
        last
unfolding check_files check_file
check_files-Noted unicode [] seen last rows h =
    subst (λ (x : Seen × List (String × List Issue)). Noted (λ t. ⊥) (λ i. ⊥) seen x.0)
      (ok-injective h) (same-Noted (λ t. ⊥) (λ i. ⊥) seen)
check_files-Noted unicode (file ∷ files) seen last rows h =
    let ((next, here), first, h1) = >>=-eq-ok (check_file unicode file seen) _ h in
    let ((last', rest), others, h2) = >>=-eq-ok (check_files unicode files next) _ h1 in
    let (types, selectors) = check_json-Noted unicode file seen file.json next here refl first in
    let (types', selectors') = check_files-Noted unicode files next last' rest others in
    subst
      (λ (x : Seen × List (String × List Issue)).
        Noted (λ t. Some (λ f. IsPositiveOf f t) (file ∷ files))
          (λ i. Some (λ f. IsSelectorOf f i) (file ∷ files)) seen x.0)
      (ok-injective h2)
      (λ t k. earlier (types' t k) (types t), λ i k. earlier (selectors' i k) (selectors i))
