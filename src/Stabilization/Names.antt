-- ===== src/Stabilization/Names.antt =====
-- How tools/stabilization/run_rc_stab.py names a case: the stem of the seed's path, and the two numbers
-- with two digits at least.
use grain_protocol.Base.{ℕ, zero, suc, ◌==◌, String, ◌<>◌, code, List, [], ◌∷◌, if◌then◌else◌}
use grain_protocol.Base64.{nth_char}

-- The digits of a number, the last one first: one more, with its carry.
unfoldable pub increment : List ℕ → List ℕ
increment [] = 1 ∷ []
increment (d ∷ ds) = let carried = 0 ∷ increment ds in if d == 9 then carried else suc d ∷ ds

unfoldable pub digits : ℕ → List ℕ
digits zero = 0 ∷ []
digits (suc n) = increment (digits n)

abbrev pub digit_text : ℕ → String
digit_text d = String.◌∷◌ (nth_char "0123456789" d) ""

unfoldable pub digits_text : List ℕ → String → String
digits_text [] after = after
digits_text (d ∷ ds) after = digits_text ds (digit_text d <> after)

-- f"{n:02d}".
unfoldable pub two_digits : ℕ → String
two_digits n = padded (digits n)
  where
    padded : List ℕ → String
    padded [] = "00"
    padded (d ∷ []) = "0" <> digit_text d
    padded (d ∷ e ∷ ds) = digits_text (d ∷ e ∷ ds) ""

-- The name after the last slash, and a name without its last suffix: what stands before the last dot,
-- unless the dot is at an end.
unfoldable pub name_of : String → String → String
name_of name String.[] = name
name_of name (String.◌∷◌ c s) = name_of (if code c == b'/' then "" else name <> String.◌∷◌ c "") s

unfoldable pub without_suffix : String → String → String → String
without_suffix whole before String.[] = whole
without_suffix whole before (String.◌∷◌ c String.[]) = whole
without_suffix whole String.[] (String.◌∷◌ c (String.◌∷◌ d s)) =
    without_suffix whole (String.◌∷◌ c "") (String.◌∷◌ d s)
without_suffix whole (String.◌∷◌ b before) (String.◌∷◌ c (String.◌∷◌ d s)) =
    let stem = if code c == b'.' then String.◌∷◌ b before else whole in
    without_suffix stem (String.◌∷◌ b before <> String.◌∷◌ c "") (String.◌∷◌ d s)

-- `Path(seed_path).stem`.
abbrev pub stem_text : String → String
stem_text path = let name = name_of "" path in without_suffix name "" name

-- f"FZ-{stem}-{pidx:02d}-{midx:02d}".
abbrev pub case_name : String → ℕ → ℕ → String
case_name seed_path pidx midx =
    "FZ-" <> stem_text seed_path <> "-" <> two_digits pidx <> "-" <> two_digits midx
