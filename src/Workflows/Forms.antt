-- ===== src/Workflows/Forms.antt =====
-- The form of a reference to a vector, and what it means for a file to lie below a directory.
use text.Mathlib.TextEquality.{starts_with_iff}
use mathlib.Core.List.{append-nil}
use grain_protocol.Base.{
  ℕ, ◌==◌, ◌≡◌, ◌≢◌, ◌≤◌, refl, sym, ap, ◌∙◌, subst, ◌↔◌, ◌⊎◌, inl, inr, arith, String, str_eq,
  starts_with, eq_iff, ◌<>◌, Bool, true, false, not, ◌&&◌, ◌||◌, Option, none, some, List, [], ◌∷◌,
  ◌++◌, All, All-map, Bool-cases, ==_iff, and_parts, or_iff, not_iff, false_iff, contains,
  if◌then◌else◌, then_iff, join_iff,
}
use grain_protocol.Base.Text.{codes}
use grain_protocol.Workflows.References.{
  is_letter, is_path_letter, is_pointer_letter, after, some_letters, is_empty, then_text, is_ref,
  is_under, stays_inside, split_slash,
}

-- The letters, the digits, "_" and "-".
abbrev pub IsLetter : ℕ → Type 0
IsLetter c =
    ((b'A' ≤ c) × (c ≤ b'Z'))
    ⊎ (((b'a' ≤ c) × (c ≤ b'z')) ⊎ (((b'0' ≤ c) × (c ≤ b'9')) ⊎ ((c ≡ b'_') ⊎ (c ≡ b'-'))))

-- Those and "/", and with them "~" and ".".
abbrev pub IsPathLetter : ℕ → Type 0
IsPathLetter c = IsLetter c ⊎ (c ≡ b'/')

abbrev pub IsPointerLetter : ℕ → Type 0
IsPointerLetter c = IsPathLetter c ⊎ ((c ≡ b'~') ⊎ (c ≡ b'.'))

-- The directory of the vectors, letters of a path, ".json#/", and letters of a pointer.
abbrev pub HasForm : String → Type 0
HasForm ref =
    (path : List ℕ) × (pointer : List ℕ) × (codes ref
      ≡ codes "conformance/vectors/" ++ (path ++ (codes ".json#/" ++ pointer)))
    × (path ≢ [])
    × All IsPathLetter path
    × (pointer ≢ [])
    × All IsPointerLetter pointer

is_letter_iff : (c : ℕ) → (is_letter c ≡ true) ↔ IsLetter c
is_letter_iff c = ground arith

is_path_letter_iff : (c : ℕ) → (is_path_letter c ≡ true) ↔ IsPathLetter c
is_path_letter_iff c = ground arith

is_pointer_letter_iff : (c : ℕ) → (is_pointer_letter c ≡ true) ↔ IsPointerLetter c
is_pointer_letter_iff c = ground arith

after_iff : (p s t : List ℕ) → (after p s ≡ some t) ↔ (s ≡ p ++ t)
after_iff [] s t = (λ h. cc, λ h. cc)
after_iff (a ∷ p) [] t = (λ h. cc, λ h. cc)
after_iff (a ∷ p) (b ∷ s) t = elim (Bool-cases (a == b)) [
  | inl same ↦
      let here : a ≡ b = (==_iff a b).0 same in
      rw same (λ h. let rest = (after_iff p s t).0 h in cc, λ h. (after_iff p s t).1 (cc))
  | inr other ↦ rw other (λ h. cc, λ h. let here : a ≡ b = cc in absurd (ground arith))
]

then_text_iff :
    (p : String) (rest : List ℕ → Bool) (s : List ℕ)
    → (then_text p rest s ≡ true) ↔ ((t : List ℕ) × (s ≡ codes p ++ t) × (rest t ≡ true))
then_text_iff p rest s = go (after (codes p) s) (after_iff (codes p) s)
  where
    go :
        (o : Option (List ℕ))
        → ((t : List ℕ) → (o ≡ some t) ↔ (s ≡ codes p ++ t))
        → (◌≡◌ {A = Bool} (elim o [ none ↦ false | some t ↦ rest t ]) true)
          ↔ ((t : List ℕ) × (s ≡ codes p ++ t) × (rest t ≡ true))
    go none at = (λ h. cc, λ (t, e, h). let no_rest = (at t).1 e in cc)
    go (some u) at = (
      λ h. (u, (at u).0 refl, h),
      λ (t, e, h).
          let same : u ≡ t = let both = (at t).1 e in cc in subst (λ x. rest x ≡ true) (sym same) h,
    )

-- The letters that are read off, where some have been read off before or some are, and the rest.
abbrev Run : (ℕ → Bool) → (List ℕ → Bool) → Bool → List ℕ → Type 0
Run letter rest seen s =
    (w : List ℕ) × (t : List ℕ) × (s ≡ w ++ t)
    × All (λ c. letter c ≡ true) w
    × ((seen || not (is_empty w)) ≡ true)
    × (rest t ≡ true)

module _ (letter : ℕ → Bool) (rest : List ℕ → Bool) where
  some_letters-Run :
      (seen : Bool) (s : List ℕ) → some_letters letter rest seen s ≡ true → Run letter rest seen s
  unfolding some_letters
  some_letters-Run seen [] h =
      let (before, ends) = and_parts seen (rest []) h in ([], [], refl, tt, ground arith, ends)
  some_letters-Run seen (c ∷ s) h = elim (Bool-cases (letter c)) [
    | inl is_one ↦
        let (w, t, e, all_letters, _, ends) = some_letters-Run true s (
          subst (λ b. (if b then some_letters letter rest true s else seen && rest (c ∷ s)) ≡ true)
            is_one h) in
        (c ∷ w, t, ap (λ x. c ∷ x) e, (is_one, all_letters), ground arith, ends)
    | inr is_none ↦
        let (before, ends) = and_parts seen (rest (c ∷ s)) (
          subst (λ b. (if b then some_letters letter rest true s else seen && rest (c ∷ s)) ≡ true)
            is_none h) in
        ([], c ∷ s, refl, tt, ground arith, ends)
  ]

  -- A letter that could be read off is.
  Run-some_letters :
      ((c : ℕ) (t : List ℕ) → letter c ≡ true → rest (c ∷ t) ≡ false)
      → (seen : Bool) (w t : List ℕ) → All (λ c. letter c ≡ true) w
      → (seen || not (is_empty w)) ≡ true
      → rest t ≡ true
      → some_letters letter rest seen (w ++ t) ≡ true
  unfolding some_letters
  Run-some_letters stops seen [] [] h before ends =
      let seen_one : seen ≡ true = ground arith in rw (seen_one, ends) refl
  Run-some_letters stops seen [] (c ∷ t) h before ends = elim (Bool-cases (letter c)) [
    | inl is_one ↦ let no_end = stops c t is_one in cc
    | inr is_none ↦ let seen_one : seen ≡ true = ground arith in rw (is_none, seen_one, ends) refl
  ]
  Run-some_letters stops seen (c ∷ w) t (is_one, h) before ends =
      let later = Run-some_letters stops true w t h refl ends in rw (is_one, later) refl

is_empty_iff : (s : List ℕ) → (is_empty s ≡ true) ↔ (s ≡ [])
is_empty_iff [] = (λ h. refl, λ h. refl)
is_empty_iff (c ∷ s) = (λ h. cc, λ h. cc)

some_iff : (s : List ℕ) → ((false || not (is_empty s)) ≡ true) ↔ (s ≢ [])
some_iff [] = (λ h. cc, λ h. absurd (h refl))
some_iff (c ∷ s) = (λ h e. cc, λ h. refl)

-- What follows the path, and what follows the directory of the vectors.
abbrev pointer_test : List ℕ → Bool
pointer_test = some_letters is_pointer_letter is_empty false

abbrev pub suffix_test : List ℕ → Bool
suffix_test = then_text ".json#/" pointer_test

letters_iff :
    {P : ℕ → Type 0} (letter : ℕ → Bool) (s : List ℕ)
    → ((c : ℕ) → (letter c ≡ true) ↔ P c)
    → All (λ c. letter c ≡ true) s ↔ All P s
letters_iff letter s h = (All-map s (λ c. (h c).0), All-map s (λ c. (h c).1))

pointer_iff : (s : List ℕ) → (pointer_test s ≡ true) ↔ ((s ≢ []) × All IsPointerLetter s)
pointer_iff s = (forward, backward)
  where
    forward : pointer_test s ≡ true → (s ≢ []) × All IsPointerLetter s
    forward h =
        let (w, t, e, letters, some_read, ends) =
          some_letters-Run is_pointer_letter is_empty false s h in
        let same : w ≡ s = sym (e ∙ ap (λ x. w ++ x) ((is_empty_iff t).0 ends) ∙ append-nil w) in
        subst (λ x. (x ≢ []) × All IsPointerLetter x) same
          (
            (some_iff w).0 some_read,
            (letters_iff is_pointer_letter w is_pointer_letter_iff).0 letters,
          )

    backward : (s ≢ []) × All IsPointerLetter s → pointer_test s ≡ true
    backward (some_read, letters) =
        subst (λ x. pointer_test x ≡ true) (append-nil s)
          (Run-some_letters is_pointer_letter is_empty (λ c t is_one. refl) false s []
            ((letters_iff is_pointer_letter s is_pointer_letter_iff).1 letters)
            ((some_iff s).1 some_read) refl)

not_suffix : (c : ℕ) (t : List ℕ) → is_path_letter c ≡ true → suffix_test (c ∷ t) ≡ false
not_suffix c t h = elim (Bool-cases (suffix_test (c ∷ t))) [
  | inl fits ↦
      let (u, e, _) = (then_text_iff ".json#/" pointer_test (c ∷ t)).0 fits in
      let dot : c ≡ b'.' = cc in absurd (ground arith)
  | inr other ↦ other
]

-- The test of a reference accepts exactly the texts of the form.
pub is_ref_iff : (ref : String) → (is_ref ref ≡ true) ↔ HasForm ref
unfolding is_ref
is_ref_iff ref = (forward, backward)
  where
    forward :
        then_text "conformance/vectors/" (some_letters is_path_letter suffix_test false) (codes ref)
          ≡ true
        → HasForm ref
    forward h =
        let (t, e, h1) =
          (then_text_iff "conformance/vectors/" (some_letters is_path_letter suffix_test false)
              (codes ref)).0
            h in
        let (w, u, e1, letters, some_read, h2) =
          some_letters-Run is_path_letter suffix_test false t h1 in
        let (v, e2, h3) = (then_text_iff ".json#/" pointer_test u).0 h2 in
        let (some_pointer, pointer_letters) = (pointer_iff v).0 h3 in
        (
          w,
          v,
          e ∙ ap (λ x. codes "conformance/vectors/" ++ x) (e1 ∙ ap (λ x. w ++ x) e2),
          (some_iff w).0 some_read,
          (letters_iff is_path_letter w is_path_letter_iff).0 letters,
          some_pointer,
          pointer_letters,
        )

    backward :
        HasForm ref
        → then_text "conformance/vectors/"
            (some_letters is_path_letter suffix_test false)
            (codes ref)
          ≡ true
    backward (w, v, e, some_read, letters, some_pointer, pointer_letters) =
        (then_text_iff "conformance/vectors/" (some_letters is_path_letter suffix_test false)
            (codes ref)).1
          (
            w ++ (codes ".json#/" ++ v),
            e,
            Run-some_letters is_path_letter suffix_test not_suffix false w (codes ".json#/" ++ v)
                ((letters_iff is_path_letter w is_path_letter_iff).1 letters)
                ((some_iff w).1 some_read)
                ((then_text_iff ".json#/" pointer_test (codes ".json#/" ++ v)).1
                  (v, refl, (pointer_iff v).1 (some_pointer, pointer_letters))),
          )

-- A path that is relative and never goes up.
abbrev pub IsInside : String → Type 0
IsInside path =
    (¬ ((rest : String) × (path ≡ "/" <> rest))) × All (λ part. part ≢ "..") (split_slash path)

-- The directory itself, or a path that goes on behind a slash.
abbrev pub IsUnder : String → String → Type 0
IsUnder root target = (target ≡ root) ⊎ ((rest : String) × (target ≡ (root <> "/") <> rest))

prefix_iff : (s t : String) → (starts_with s t ≡ true) ↔ ((rest : String) × (s ≡ t <> rest))
prefix_iff s t =
    then_iff (starts_with_iff s t) (λ (rest, e). (rest, sym e), λ (rest, e). (rest, sym e))

pub is_under_iff : (root target : String) → (is_under root target ≡ true) ↔ IsUnder root target
is_under_iff root target =
    or_iff (str_eq target root) (starts_with target (root <> "/")) (eq_iff target root)
      (prefix_iff target (root <> "/"))

contains-eq-false_iff :
    (parts : List String) (s : String) → (contains parts s ≡ false) ↔ All (λ part. part ≢ s) parts
unfolding contains
contains-eq-false_iff [] s = (λ h. tt, λ h. refl)
contains-eq-false_iff (part ∷ parts) s =
    then_iff (or_false (str_eq part s) (contains parts s))
      (join_iff (false_iff (str_eq part s) (eq_iff part s)) (contains-eq-false_iff parts s))
  where
    or_false : (a b : Bool) → ((a || b) ≡ false) ↔ ((a ≡ false) × (b ≡ false))
    or_false a b = ground arith

pub stays_inside_iff : (path : String) → (stays_inside path ≡ true) ↔ IsInside path
stays_inside_iff path =
    then_iff (and_iff (not (starts_with path "/")) (not (contains (split_slash path) ".."))) (
      join_iff
        (then_iff (not_iff (starts_with path "/"))
          (false_iff (starts_with path "/") (prefix_iff path "/")))
        (then_iff (not_iff (contains (split_slash path) ".."))
          (contains-eq-false_iff (split_slash path) "..")))
  where
    and_iff : (a b : Bool) → ((a && b) ≡ true) ↔ ((a ≡ true) × (b ≡ true))
    and_iff a b = ground arith
