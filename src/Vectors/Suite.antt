-- ===== src/Vectors/Suite.antt =====
-- What `main` has established of the vectors when it returns 0.
use Prim.Native.Nat.{Ordering}
use grain_protocol.Base.{
  ℕ, ◌≡◌, ◌≢◌, refl, sym, ap, ◌∙◌, subst, arith, String, Bool, true, false, not, ◌||◌, none, List,
  [], ◌∷◌, ◌⊎◌, inl, inr, All, All-map, lookup, contains, if◌then◌else◌, ok, err, type_error,
  ok-injective, >>=-eq-ok,
}
use grain_protocol.Base.Int.{ℤ}
use grain_protocol.Base.Text.{codes, codes_eq, insert_text, sorted}
use grain_protocol.Json.{str, int, obj, Fields, get, is_true}
use grain_protocol.Report.{JsonFile, missing, malformed, parsed}
use grain_protocol.Vectors.{missing_from}
use grain_protocol.Vectors.Accepted.{IsOperated, check_fields-eq-nil}
use grain_protocol.Vectors.Contents.{
  required_top, typed_object_types, invalid_selector_ids, Seen, File, check_forms,
}
use grain_protocol.Vectors.Files.{
  check_fields, check_top, check_json, check_file, check_files, uncovered, is_nil, Bad, is_bad,
  has_issues, nothing_seen, main,
}
use grain_protocol.Vectors.Covered.{check_files-Noted}
use grain_protocol.Vectors.Noted.{IsPositiveOf, IsSelectorOf, Some}
use grain_protocol.Vectors.Names.{Unicode}
use grain_protocol.Vectors.Operations.{Issue}
use grain_protocol.Json.Elements.{is_in}
use grain_protocol.Workflows.{stem}

-- A vector: an object that is named after its file, strict, with a known operation whose keys its input
-- has, without placeholders, and with valid base64.
abbrev pub IsVector : File → String → Type 0
IsVector file vector_id =
    (fs : Fields) × (file.json ≡ parsed (obj fs))
    × (get fs "vector_id" ≡ str vector_id)
    × (codes_eq (codes vector_id) (stem file.rel) ≡ true)
    × (is_true (get fs "strict") ≡ true)
    × IsOperated fs

-- Vectors one after the other, each with an identity that none before it has.
abbrev pub AreVectors : List File → List (String × String) → Type 0
AreVectors [] ids = Unit
AreVectors (file ∷ files) ids =
    (vector_id : String) × IsVector file vector_id
    × (lookup vector_id ids ≡ none)
    × AreVectors files ((vector_id, file.rel) ∷ ids)

check_top-eq-nil :
    (unicode : Unicode) (rel : String) (fs : Fields) (lacking : List String) (seen next : Seen)
    → check_top unicode rel fs lacking seen ≡ ok (next, [])
    → check_fields unicode rel fs seen ≡ ok (next, [])
check_top-eq-nil unicode rel fs [] seen next h = h
check_top-eq-nil unicode rel fs (k ∷ lacking) seen next h = cc

check_json-eq-nil :
    (unicode : Unicode) (rel : String) (json : JsonFile) (seen next : Seen)
    → check_json unicode rel json seen ≡ ok (next, [])
    → (fs : Fields) × (json ≡ parsed (obj fs)) × (check_fields unicode rel fs seen ≡ ok (next, []))
check_json-eq-nil unicode rel missing seen next h = cc
check_json-eq-nil unicode rel malformed seen next h = cc
check_json-eq-nil unicode rel (parsed (obj fs)) seen next h =
    (fs, refl, check_top-eq-nil unicode rel fs (missing_from fs required_top) seen next h)
check_json-eq-nil unicode rel (parsed _) seen next h = cc

check_file-eq-nil :
    (unicode : Unicode) (file : File) (seen next : Seen)
    → check_file unicode file seen ≡ ok (next, [])
    → (vector_id : String) × IsVector file vector_id
      × (lookup vector_id seen.ids ≡ none)
      × (next.ids ≡ (vector_id, file.rel) ∷ seen.ids)
unfolding check_file
check_file-eq-nil unicode file seen next h =
    let (fs, is_object, checked) = check_json-eq-nil unicode file.rel file.json seen next h in
    let (vector_id, is_id, named, strict, operated, unseen, ids) =
      check_fields-eq-nil unicode file.rel fs seen next checked in
    (vector_id, (fs, is_object, is_id, named, strict, operated), unseen, ids)

is_nil-eq : {A : Type 0} (xs : List A) → not (is_nil xs) ≡ false → xs ≡ []
is_nil-eq [] h = refl
is_nil-eq (x ∷ xs) h = cc

or_parts : (a b : Bool) → (a || b) ≡ false → (a ≡ false) × (b ≡ false)
or_parts true b h = cc
or_parts false b h = (refl, h)

check_files-AreVectors :
    (unicode : Unicode) (files : List File) (seen last : Seen) (rows : List (String × List Issue))
    → check_files unicode files seen ≡ ok (last, rows)
    → has_issues rows ≡ false
    → AreVectors files seen.ids
unfolding check_files has_issues
check_files-AreVectors unicode [] seen last rows h clean = tt
check_files-AreVectors unicode (file ∷ files) seen last rows h clean =
    let ((next, here), first, h1) = >>=-eq-ok (check_file unicode file seen) _ h in
    let ((last', rest), others, h2) = >>=-eq-ok (check_files unicode files next) _ h1 in
    let clean' =
      subst (λ (rs : List (String × List Issue)). has_issues rs ≡ false)
        (sym (ap (λ (x : Seen × List (String × List Issue)). x.1) (ok-injective h2))) clean in
    let (here_nil, rest_clean) = or_parts _ _ clean' in
    let (vector_id, is_vector, unseen, ids) =
      check_file-eq-nil unicode file seen next
        (first ∙ ap (λ xs. ok (next, xs)) (is_nil-eq here here_nil)) in
    (
      vector_id,
      is_vector,
      unseen,
      subst (AreVectors files) ids
          (check_files-AreVectors unicode files next last' rest others rest_clean),
    )

insert_text-ne : (x : String) (xs : List String) → insert_text x xs ≢ []
unfolding insert_text
insert_text-ne x [] h = cc
insert_text-ne x (y ∷ ys) h = go (Prim.Native.String.compare y x) h
  where
    go : (o : Ordering) → elim o [ Ordering.gt ↦ x ∷ (y ∷ ys) | _ ↦ y ∷ insert_text x ys ] ≡ [] → ⊥
    go Ordering.gt k = cc
    go Ordering.lt k = cc
    go Ordering.eq k = cc

sorted-eq-nil : (xs : List String) → sorted xs ≡ [] → xs ≡ []
unfolding sorted
sorted-eq-nil [] h = refl
sorted-eq-nil (x ∷ xs) h = absurd (insert_text-ne x (sorted xs) h)

uncovered-eq-nil :
    (seen names : List String)
    → uncovered seen names ≡ []
    → All (λ name. contains seen name ≡ true) names
unfolding uncovered
uncovered-eq-nil seen [] h = tt
uncovered-eq-nil seen (name ∷ names) h =
    go (contains seen name) refl (uncovered-eq-nil seen names) h
  where
    go :
        (b : Bool)
        → contains seen name ≡ b
        → (uncovered seen names ≡ [] → All (λ n. contains seen n ≡ true) names)
        → (if b then uncovered seen names else name ∷ uncovered seen names) ≡ []
        → All (λ n. contains seen n ≡ true) (name ∷ names)
    go true e rest k = (e, rest k)
    go false e rest k = cc

-- The files are vectors, each named after its file and with an identity of its own; some file passes an
-- object of each type, and some file has an invalid selector under each of their three identities.
abbrev pub IsComplete : List File → Type 0
IsComplete files =
    AreVectors files []
    × All (λ type. Some (λ file. IsPositiveOf file type) files) typed_object_types
    × All (λ vector_id. Some (λ file. IsSelectorOf file vector_id) files)
        ("NEG-OBJ-097" ∷ "NEG-OBJ-098" ∷ "NEG-OBJ-099" ∷ [])

never_seen : {A : Type 0} (name : String) → (contains [] name ≡ true) ⊎ A → A
unfolding contains
never_seen name (inl h) = cc
never_seen name (inr a) = a

status_zero : (b : Bool) → ◌≡◌ {A = ℕ} (if b then 1 else 0) 0 → b ≡ false
status_zero true h = absurd (omega arith)
status_zero false h = refl

-- When the check returns 0, each file is a strict vector that is named after its file and has an
-- identity of its own, with a known operation whose keys its input has, without a placeholder in any
-- text and with valid base64; some file passes an object of each type, and some file has an invalid
-- selector under each of their three identities.
pub main-IsComplete :
    (unicode : Unicode) (files : List File) (bad : Bad)
    → main unicode files ≡ ok (0, bad)
    → IsComplete files
unfolding main is_bad
main-IsComplete unicode files bad h =
    let ((seen, rows), checked, h1) = >>=-eq-ok (check_files unicode files nothing_seen) _ h in
    let good = status_zero _ (ap (λ (x : ℕ × Bad). x.0) (ok-injective h1)) in
    let (clean, rest) = or_parts (has_issues rows) _ good in
    let (types, selectors) = or_parts _ _ rest in
    let noted = check_files-Noted unicode files nothing_seen seen rows checked in
    (
      check_files-AreVectors unicode files nothing_seen seen rows checked clean,
      All-map typed_object_types (λ t k. never_seen t (noted.0 t k))
          (uncovered-eq-nil seen.positive typed_object_types (sorted-eq-nil _ (is_nil-eq _ types))),
      All-map invalid_selector_ids (λ i k. never_seen i (noted.1 i k))
          (uncovered-eq-nil seen.selectors invalid_selector_ids
            (sorted-eq-nil _ (is_nil-eq _ selectors))),
    )

-- An object with the five keys, whose identity is a number: what is noted of its identity is never
-- reported, since the search for "-WA-" in a number raises TypeError.
pub main-raises :
    (unicode : Unicode) (rel : String) (fs : Fields) (n : ℤ) (files : List File)
    → missing_from fs required_top ≡ []
    → get fs "vector_id" ≡ int n
    → main unicode (record { rel = rel; json = parsed (obj fs) } ∷ files) ≡ err type_error
unfolding main check_files check_file check_fields check_forms is_in
main-raises unicode rel fs n files top number = rw (top, number) refl
