-- ===== src/Base64.antt =====
-- `base64.b64encode`, and `base64.b64decode(s, validate=True)` as CPython's strict mode decodes: groups
-- of four characters of the standard alphabet, the last one with its padding.
pub mod RoundTrip
use Prim.Native.String
use Prim.Native.Char.{nul}
use grain_protocol.Base.{
  ℕ, zero, suc, String, Char, ◌+◌, ◌-◌, ◌*◌, ◌/◌, ◌%◌, ◌==◌, ◌&&◌, Option, none, some, List, [],
  ◌∷◌, ◌++◌, if◌then◌else◌,
}
use grain_protocol.Base.Text.{between}

abbrev pub digit : ℕ → Option ℕ
digit c =
    if between b'A' b'Z' c
    then some (c - b'A')
    else if between b'a' b'z' c
    then some ((c - b'a') + 26)
    else if between b'0' b'9' c
    then some ((c - b'0') + 52)
    else if c == b'+'
    then some 62
    else if c == b'/'
    then some 63
    else none

-- Three bytes of four digits, two of three, one of two.
abbrev pub four : Option ℕ → Option ℕ → Option ℕ → Option ℕ → Option (List ℕ)
four (some a) (some b) (some c) (some d) =
    some ((a * 4 + b / 16) ∷ ((b % 16) * 16 + c / 4) ∷ ((c % 4) * 64 + d) ∷ [])
four _ _ _ _ = none

abbrev three : Option ℕ → Option ℕ → Option ℕ → Option (List ℕ)
three (some a) (some b) (some c) = some ((a * 4 + b / 16) ∷ ((b % 16) * 16 + c / 4) ∷ [])
three _ _ _ = none

abbrev two : Option ℕ → Option ℕ → Option (List ℕ)
two (some a) (some b) = some ((a * 4 + b / 16) ∷ [])
two _ _ = none

abbrev pub both : Option (List ℕ) → Option (List ℕ) → Option (List ℕ)
both (some bytes) (some rest) = some (bytes ++ rest)
both _ _ = none

unfoldable pub decode : List ℕ → Option (List ℕ)
decode [] = some []
decode (a ∷ b ∷ c ∷ d ∷ []) =
    if c == b'=' && d == b'='
    then two (digit a) (digit b)
    else if d == b'='
    then three (digit a) (digit b) (digit c)
    else four (digit a) (digit b) (digit c) (digit d)
decode (a ∷ b ∷ c ∷ d ∷ s) = both (four (digit a) (digit b) (digit c) (digit d)) (decode s)
decode _ = none

abbrev pub alphabet : String
alphabet = "ABCDEFGHIJKLMNOPQRSTUVWXYZabcdefghijklmnopqrstuvwxyz0123456789+/"

abbrev pub nth_char : String → ℕ → Char
nth_char String.[] n = nul
nth_char (String.◌∷◌ c s) zero = c
nth_char (String.◌∷◌ c s) (suc n) = nth_char s n

-- The character of a digit below 64.
unfoldable pub char_of : ℕ → Char
char_of n = nth_char alphabet n

unfoldable pub encode : List ℕ → String
encode [] = ""
encode (a ∷ []) = String.◌∷◌ (char_of (a / 4)) (String.◌∷◌ (char_of ((a % 4) * 16)) "==")
encode (a ∷ b ∷ []) =
    String.◌∷◌ (char_of (a / 4))
      (String.◌∷◌ (char_of ((a % 4) * 16 + b / 16)) (String.◌∷◌ (char_of ((b % 16) * 4)) "="))
encode (a ∷ b ∷ c ∷ s) = String.◌∷◌ (char_of (a / 4)) (
    String.◌∷◌ (char_of ((a % 4) * 16 + b / 16))
      (String.◌∷◌ (char_of ((b % 16) * 4 + c / 64)) (String.◌∷◌ (char_of (c % 64)) (encode s))))
