-- ===== src/Vectors/Names.antt =====
-- The forms of a vector's identity, in tools/validate_vectors.py. What `str.isalnum` and `str.isdigit`
-- say of a character is a parameter.
use grain_protocol.Base.{
  ℕ, ◌==◌, Bool, true, false, not, ◌&&◌, List, [], ◌∷◌, ◌++◌, all, length, if◌then◌else◌,
}
use grain_protocol.Base.Text.{codes, codes_eq, has_prefix, has_infix}

pub record Unicode : Type 0 where
  pub is_alnum : ℕ → Bool
  pub is_digit : ℕ → Bool

-- `s.split("-")`.
unfoldable pub split_dashes : List ℕ → List ℕ → List (List ℕ)
split_dashes part [] = part ∷ []
split_dashes part (c ∷ s) =
    let next = split_dashes [] s in
    let longer = split_dashes (part ++ (c ∷ [])) s in if c == b'-' then part ∷ next else longer

abbrev pub is_head : List ℕ → Bool
is_head head = if codes_eq head (codes "POS") then true else codes_eq head (codes "NEG")

abbrev is_filled : List ℕ → Bool
is_filled [] = false
is_filled (c ∷ s) = true

module _ (unicode : Unicode) where
  -- `s.isalnum()` and `s.isdigit()`, which do not hold of an empty text.
  abbrev pub isalnum : List ℕ → Bool
  isalnum s = is_filled s && all unicode.is_alnum s

  abbrev pub isdigit : List ℕ → Bool
  isdigit s = is_filled s && all unicode.is_digit s

  abbrev pub is_wa_parts : List (List ℕ) → Bool
  is_wa_parts (head ∷ area ∷ wave ∷ digits ∷ []) =
      is_head head
      && (isalnum area && (codes_eq wave (codes "WA") && (length digits == 4 && isdigit digits)))
  is_wa_parts _ = false

  unfoldable pub looks_like_wa_id : List ℕ → Bool
  unfolding all
  looks_like_wa_id vector_id = is_wa_parts (split_dashes [] vector_id)

  abbrev pub is_object_parts : List (List ℕ) → Bool
  is_object_parts (head ∷ area ∷ digits ∷ []) =
      is_head head && (codes_eq area (codes "OBJ") && (length digits == 3 && isdigit digits))
  is_object_parts _ = false

  unfoldable pub looks_like_object_id : List ℕ → Bool
  unfolding all
  looks_like_object_id vector_id = is_object_parts (split_dashes [] vector_id)

-- `p.parent == VECTORS_DIR / "object"`, by the path from the root.
abbrev pub object_directory : List ℕ
object_directory = codes "conformance/vectors/object/"

abbrev pub after_prefix : List ℕ → List ℕ → List ℕ
after_prefix [] s = s
after_prefix (p ∷ ps) [] = []
after_prefix (p ∷ ps) (c ∷ s) = after_prefix ps s

unfoldable pub is_object_path : List ℕ → Bool
is_object_path rel =
    has_prefix rel object_directory
    && not (has_infix (after_prefix object_directory rel) (codes "/"))
