-- ===== src/Report.antt =====
-- What the checks of the contracts share: the text after an error code, the error message, and the
-- repository's files as the checks find them.
pub mod Laws
use grain_protocol.Base.{
  ℕ, String, Bool, true, false, Option, none, some, List, Result, ok, err, exit, decode_error,
  require,
}
use grain_protocol.Base.Int.{ℤ, pos, negsuc, ltb_ℤ}
use grain_protocol.Json.{Value, Fields, obj, py_eq}

-- A text that is put together from parts: f"{d}[{i}]" is `at d i`, and f"{d}{s}" is `plus d s`.
pub data Detail : Type 0 where
  text : String → Detail
  at : Detail → ℕ → Detail
  plus : Detail → String → Detail

-- f"{code}: {detail}", and the forms that name the values or the texts that differ.
pub data Message : Type 0 where
  coded : String → Detail → Message
  differs : String → Detail → Value → Value → Message
  not_one_of : String → Detail → List String → String → Message
  lacks : String → String → String → Message

-- `require_equal(actual, expected, code, detail)`.
unfoldable pub require_equal : Value → Value → String → Detail → Result Message (Unit {0})
require_equal actual expected code detail =
    require (py_eq actual expected) (differs code detail expected actual)

-- A file as `json.loads(path.read_text())` finds it.
pub data JsonFile : Type 0 where
  missing malformed : JsonFile
  parsed : Value → JsonFile

-- The files below a root: those that are read as JSON, and those that are read as text.
pub record Files : Type 0 where
  pub json : String → JsonFile
  pub text_of : String → Option String

abbrev pub int64_min : ℤ
int64_min = negsuc 9223372036854775807

abbrev pub int64_max : ℤ
int64_max = pos 9223372036854775807
