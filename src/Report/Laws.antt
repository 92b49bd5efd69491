-- ===== src/Report/Laws.antt =====
-- What `require_equal` establishes, and the numbers that the contracts take.
use grain_protocol.Base.{◌≡◌, String, true, List, Accepts, require-Accepts}
use grain_protocol.Base.Int.{ℤ, pos, ◌≤ℤ◌}
use grain_protocol.Json.{Value, int, str, arr, texts, py_eq}
use grain_protocol.Json.Equality.{py_eq-str_iff, py_eq-texts_iff}
use grain_protocol.Report.{Detail, require_equal, int64_min, int64_max}

abbrev pub InInt64 : ℤ → Type 0
InInt64 n = (int64_min ≤ℤ n) × (n ≤ℤ int64_max)

-- A JSON integer that fits, and one that is not negative.
abbrev pub IsInt : Value → ℤ → Type 0
IsInt v n = (v ≡ int n) × InInt64 n

abbrev pub IsCount : Value → Type 0
IsCount v = (n : ℤ) × (IsInt v n × (pos 0 ≤ℤ n))

module _ (v : Value) (code : String) (detail : Detail) where
  pub require_equal-str : (s : String) → Accepts (require_equal v (str s) code detail) (v ≡ str s)
  unfolding require_equal
  require_equal-str s = require-Accepts _ _ (py_eq-str_iff v s)

  pub require_equal-texts :
      (ss : List String)
      → Accepts (require_equal v (arr (texts ss)) code detail) (v ≡ arr (texts ss))
  unfolding require_equal
  require_equal-texts ss = require-Accepts _ _ (py_eq-texts_iff v ss)

  pub require_equal-Accepts :
      (w : Value) → Accepts (require_equal v w code detail) (py_eq v w ≡ true)
  unfolding require_equal
  require_equal-Accepts w = require-Accepts _ _ (λ h. h, λ h. h)
