-- ===== src/Regex.antt =====
-- Regular expressions as the tools use Python's `re` with IGNORECASE: literals, character classes,
-- options, repetition and alternation, searched for anywhere in a text of code points.
pub mod Matching
pub mod Languages
use grain_protocol.Base.{
  ℕ, zero, suc, ◌+◌, ◌==◌, String, Bool, true, false, ◌&&◌, ◌||◌, List, [], ◌∷◌, if◌then◌else◌,
}
use grain_protocol.Base.Text.{codes, between}

-- A class is a list of ranges of folded code points.
pub data Regex : Type 0 where
  never eps : Regex
  class : List (ℕ × ℕ) → Regex
  seq alt : Regex → Regex → Regex
  star : Regex → Regex

-- The case folding of `re.IGNORECASE`, as far as an ASCII pattern can tell.
unfoldable pub fold : ℕ → ℕ
fold c =
    if between b'A' b'Z' c
    then c + 32
    else if c == 0x130 || c == 0x131
    then b'i'
    else if c == 0x17f
    then b's'
    else if c == 0x212a
    then b'k'
    else c

unfoldable pub in_class : List (ℕ × ℕ) → ℕ → Bool
in_class [] c = false
in_class ((lo, hi) ∷ ranges) c = between lo hi (fold c) || in_class ranges c

abbrev pub char : ℕ → Regex
char c = class ((c, c) ∷ [])

abbrev pub literal_codes : List ℕ → Regex
literal_codes [] = eps
literal_codes (c ∷ []) = char c
literal_codes (c ∷ d ∷ s) = seq (char c) (literal_codes (d ∷ s))

-- A literal is written in lower case.
abbrev pub literal : String → Regex
literal s = literal_codes (codes s)

-- `r?`, `r+`, `r{n,}` and `(r|...)`.
abbrev pub optional : Regex → Regex
optional r = alt r eps

abbrev pub some_of : Regex → Regex
some_of r = seq r (star r)

abbrev pub at_least : ℕ → Regex → Regex
at_least zero r = star r
at_least (suc n) r = seq r (at_least n r)

abbrev pub any_of : List Regex → Regex
any_of [] = never
any_of (r ∷ rs) = alt r (any_of rs)

abbrev pub any_text : List String → Regex
any_text [] = never
any_text (s ∷ ss) = alt (literal s) (any_text ss)

abbrev pub sequence : List Regex → Regex
sequence [] = eps
sequence (r ∷ rs) = seq r (sequence rs)

-- Whether the empty text matches.
unfoldable pub nullable : Regex → Bool
nullable never = false
nullable eps = true
nullable (class ranges) = false
nullable (seq r q) = nullable r && nullable q
nullable (alt r q) = nullable r || nullable q
nullable (star r) = true

-- Sequences and alternatives that cannot match are cut off.
unfoldable pub seq' : Regex → Regex → Regex
seq' never q = never
seq' r q = seq r q

unfoldable pub alt' : Regex → Regex → Regex
alt' never q = q
alt' r q = alt r q

-- What is left to match after one character.
unfoldable pub deriv : ℕ → Regex → Regex
unfolding nullable in_class fold seq' alt'
deriv c never = never
deriv c eps = never
deriv c (class ranges) = if in_class ranges c then eps else never
deriv c (seq r q) =
    let here = seq' (deriv c r) q in
    let there = alt' here (deriv c q) in if nullable r then there else here
deriv c (alt r q) = alt' (deriv c r) (deriv c q)
deriv c (star r) = seq' (deriv c r) (star r)

-- `r.match(s)`: some beginning of the text matches.
unfoldable pub match_prefix : Regex → List ℕ → Bool
unfolding deriv
match_prefix r [] = nullable r
match_prefix r (c ∷ s) = nullable r || match_prefix (deriv c r) s

-- `r.search(s)`: some part of the text matches.
unfoldable pub search_regex : Regex → List ℕ → Bool
unfolding match_prefix
search_regex r [] = match_prefix r []
search_regex r (c ∷ s) = match_prefix r (c ∷ s) || search_regex r s
