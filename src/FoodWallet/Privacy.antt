-- ===== src/FoodWallet/Privacy.antt =====
-- The search for raw material of tools/ci/check_food_wallet_contract.py.
use grain_protocol.Base.{
  ℕ, suc, ◌==◌, String, Bool, false, not, ◌&&◌, ◌||◌, List, [], ◌∷◌, ◌++◌, Result, ok, require,
  ◌>>◌, leb,
}
use grain_protocol.Base.Text.{codes, between}
use grain_protocol.Json.{Value, str, arr, obj, Items, nil, cons, Fields, end, field}
use grain_protocol.Report.{Detail, text, at, plus, Message, coded}
use grain_protocol.Regex.{
  Regex, class, char, star, literal, optional, some_of, at_least, any_of, any_text, sequence,
  match_prefix, search_regex,
}

-- `[_-]?`, `\s+` and `\s*`.
abbrev pub joint : Regex
joint = optional (class ((b'_', b'_') ∷ (b'-', b'-') ∷ []))

abbrev pub spaces : Regex
spaces = class (
    (9, 13)
    ∷ (28, 32)
    ∷ (0x85, 0x85)
    ∷ (0xa0, 0xa0)
    ∷ (0x1680, 0x1680)
    ∷ (0x2000, 0x200a)
    ∷ (0x2028, 0x2029)
    ∷ (0x202f, 0x202f)
    ∷ (0x205f, 0x205f)
    ∷ (0x3000, 0x3000)
    ∷ [])

abbrev pub joined : Regex → Regex → Regex
joined r q = sequence (r ∷ joint ∷ q ∷ [])

-- FORBIDDEN_FIELD_RE, and its alternatives.
abbrev pub forbidden_fields : List Regex
forbidden_fields =
    joined (literal "raw") (any_text ("photo" ∷ "image" ∷ "qr" ∷ "snapshot" ∷ "trust" ∷ []))
    ∷ joined (any_text ("photo" ∷ "image" ∷ [])) (any_text ("b64" ∷ "bytes" ∷ "data" ∷ []))
    ∷ joined (literal "trust") (literal "bundle")
    ∷ joined (literal "trust") (literal "pub")
    ∷ literal "snapshot"
    ∷ joined (literal "sync") (literal "bundle")
    ∷ joined (literal "identity") (literal "bundle")
    ∷ joined (literal "qr") (any_text ("payload" ∷ "string" ∷ []))
    ∷ joined (literal "private") (literal "key")
    ∷ joined (literal "secret") (literal "key")
    ∷ literal "seed"
    ∷ literal "mnemonic"
    ∷ joined (literal "cose") (literal "b64")
    ∷ []

abbrev pub forbidden_field : Regex
forbidden_field = any_of forbidden_fields

abbrev pub then_colon : Regex → Regex
then_colon r = sequence (r ∷ star spaces ∷ char b':' ∷ [])

-- FORBIDDEN_CONTENT_RE, without its one alternative that begins at a word boundary.
abbrev pub forbidden_contents : List Regex
forbidden_contents =
    sequence (
      literal "-----begin "
      ∷ star (class ((b'a', b'z') ∷ (32, 32) ∷ []))
      ∷ literal "private key-----"
      ∷ [])
    ∷ then_colon (
        sequence
          (literal "raw" ∷ some_of spaces ∷ literal "qr" ∷ some_of spaces ∷ literal "payload" ∷ []))
    ∷ then_colon (joined (joined (literal "trust") (literal "pub")) (literal "b64"))
    ∷ then_colon (joined (literal "identity") (literal "bundle"))
    ∷ then_colon (joined (literal "sync") (literal "bundle"))
    ∷ then_colon (joined (literal "snapshot") (literal "b64"))
    ∷ then_colon (
        sequence (
          literal "raw"
          ∷ some_of spaces
          ∷ literal "trust"
          ∷ some_of spaces
          ∷ literal "bundle"
          ∷ []))
    ∷ []

abbrev pub forbidden_content : Regex
forbidden_content = any_of forbidden_contents

-- `GR1[0-9A-Za-z_-]{8,}`, which the source wants at a word boundary.
abbrev pub forbidden_token : Regex
forbidden_token = sequence (
    literal "gr1"
    ∷ at_least 8 (class ((b'0', b'9') ∷ (b'a', b'z') ∷ (b'_', b'_') ∷ (b'-', b'-') ∷ []))
    ∷ [])

-- `FORBIDDEN_FIELD_RE.search(key)`.
unfoldable pub is_forbidden_key : String → Bool
is_forbidden_key key = search_regex forbidden_field (codes key)

-- What `walk_items` yields: the path, the key and the value of every member of an object.
unfoldable mutual
  pub walk_items : Value → Detail → List (Detail × String × Value)
  walk_items (obj fs) path = walk_fields fs path
  walk_items (arr vs) path = walk_list vs path 0
  walk_items _ path = []

  pub walk_fields : Fields → Detail → List (Detail × String × Value)
  walk_fields end path = []
  walk_fields (field key item fs) path =
      let child = plus (plus path ".") key in
      (child, key, item) ∷ (walk_items item child ++ walk_fields fs path)

  pub walk_list : Items → Detail → ℕ → List (Detail × String × Value)
  walk_list nil path index = []
  walk_list (cons item vs) path index =
      walk_items item (at path index) ++ walk_list vs path (suc index)

-- The characters of `\w`; those outside ASCII are a matter of the Unicode tables.
module _ (is_wide_word : ℕ → Bool) where
  abbrev pub is_word : ℕ → Bool
  is_word c =
      between b'0' b'9' c
      || between b'A' b'Z' c
      || between b'a' b'z' c
      || c == b'_'
      || (leb 128 c && is_wide_word c)

  -- `\b` before a character of a word: what stands before is none.
  unfoldable pub search_token : Bool → List ℕ → Bool
  search_token after_word [] = false
  search_token after_word (c ∷ s) =
      (not after_word && match_prefix forbidden_token (c ∷ s)) || search_token (is_word c) s

  -- `FORBIDDEN_CONTENT_RE.search(value)`.
  unfoldable pub has_forbidden_content : String → Bool
  has_forbidden_content s = search_regex forbidden_content (codes s) || search_token false (codes s)

  -- `isinstance(value, str) and FORBIDDEN_CONTENT_RE.search(value)`.
  abbrev pub is_forbidden_value : Value → Bool
  is_forbidden_value (str s) = has_forbidden_content s
  is_forbidden_value _ = false

  -- The loop over what `walk_items` yields.
  unfoldable pub reject_items : List (Detail × String × Value) → Result Message (Unit {0})
  reject_items [] = ok tt
  reject_items ((path, key, value) ∷ found) = do
    require (not (is_forbidden_key key)) (coded "FOOD_WALLET_CONTRACT_ERR_FORBIDDEN_RAW_FIELD" path)
    require (not (is_forbidden_value value))
        (coded "FOOD_WALLET_CONTRACT_ERR_FORBIDDEN_RAW_CONTENT" path)
    reject_items found

  -- The paths begin with the file's, as they do in the messages.
  unfoldable pub reject_forbidden_raw_material : Fields → String → Result Message (Unit {0})
  reject_forbidden_raw_material fixture path =
      reject_items (walk_fields fixture (plus (plus (text path) ":") "$"))
