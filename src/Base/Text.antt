-- ===== src/Base/Text.antt =====
-- Python's `str` methods that the tools use, over the code points of a text, and `sorted`.
use Prim.Native.String
use Prim.Native.Nat.{Ordering, ℕ, ◌+◌}
use Prim.Native.Char.{code}
use Prim.Native.String.{String}
use mathlib.Core.Bool.{Bool, true, false, ◌&&◌, ◌||◌}
use mathlib.Core.List.{List, [], ◌∷◌, ◌++◌, reverse}
use grain_protocol.Base.Tests.{leb, ◌==◌, if◌then◌else◌}

-- The code points of a text.
abbrev pub codes : String → List ℕ
codes String.[] = []
codes (String.◌∷◌ c s) = code c ∷ codes s

abbrev pub between : ℕ → ℕ → ℕ → Bool
between lo hi c = leb lo c && leb c hi

-- The characters that `str.strip()` and `str.split()` take as white space.
unfoldable pub is_space : ℕ → Bool
is_space c =
    between 9 13 c
    || between 28 32 c
    || c == 0x85
    || c == 0xa0
    || c == 0x1680
    || between 0x2000 0x200a c
    || c == 0x2028
    || c == 0x2029
    || c == 0x202f
    || c == 0x205f
    || c == 0x3000

unfoldable pub drop_space : List ℕ → List ℕ
unfolding is_space
drop_space [] = []
drop_space (c ∷ s) = if is_space c then drop_space s else c ∷ s

-- `s.strip()`.
unfoldable pub strip : List ℕ → List ℕ
unfolding drop_space
strip s = reverse (drop_space (reverse (drop_space s)))

-- `c.lower()`, as far as an ASCII text can tell: of the capitals outside ASCII only the dotted I and
-- the Kelvin sign have a lower case with an ASCII character in it, and the others are left alone.
unfoldable pub lower_char : ℕ → List ℕ
lower_char c =
    if between b'A' b'Z' c
    then (c + 32) ∷ []
    else if c == 0x130
    then b'i' ∷ 0x307 ∷ []
    else if c == 0x212a
    then b'k' ∷ []
    else c ∷ []

unfoldable pub lower : List ℕ → List ℕ
unfolding lower_char
lower [] = []
lower (c ∷ s) = lower_char c ++ lower s

unfoldable pub codes_eq : List ℕ → List ℕ → Bool
codes_eq [] [] = true
codes_eq (a ∷ s) (b ∷ t) = a == b && codes_eq s t
codes_eq _ _ = false

-- `s.startswith(p)`.
unfoldable pub has_prefix : List ℕ → List ℕ → Bool
has_prefix s [] = true
has_prefix [] (b ∷ p) = false
has_prefix (a ∷ s) (b ∷ p) = a == b && has_prefix s p

-- `p in s`.
unfoldable pub has_infix : List ℕ → List ℕ → Bool
unfolding has_prefix
has_infix [] p = has_prefix [] p
has_infix (a ∷ s) p = has_prefix (a ∷ s) p || has_infix s p

-- `sorted` on texts.
unfoldable pub insert_text : String → List String → List String
insert_text x [] = x ∷ []
insert_text x (y ∷ ys) =
    let rest = y ∷ insert_text x ys in
    elim (Prim.Native.String.compare y x) [ Ordering.gt ↦ x ∷ (y ∷ ys) | _ ↦ rest ]

unfoldable pub sorted : List String → List String
sorted [] = []
sorted (x ∷ xs) = insert_text x (sorted xs)
