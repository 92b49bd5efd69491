-- ===== src/Json/Elements.antt =====
-- What iterating over a value yields, and `in` for a text.
use grain_protocol.Base.{String, Bool, List, [], ◌∷◌, any, Result, ok, err, type_error}
use grain_protocol.Base.Text.{codes, has_infix}
use grain_protocol.Json.{Value, str, obj, arr, items, has_key, py_eq}

-- The characters of a text, and the keys of an object.
abbrev pub chars_of : String → List Value
chars_of String.[] = []
chars_of (String.◌∷◌ c s) = str (String.◌∷◌ c "") ∷ chars_of s

abbrev pub names_of : List String → List Value
names_of [] = []
names_of (k ∷ ks) = str k ∷ names_of ks

-- `s in v`: an element of a list, a key of an object, a part of a text.
unfoldable pub is_in {ℓ} : {M : Type ℓ} → String → Value → Result M Bool
is_in s (arr vs) = ok (any (λ v. py_eq v (str s)) (items vs))
is_in s (obj fs) = ok (has_key fs s)
is_in s (str t) = ok (has_infix (codes t) (codes s))
is_in s _ = err type_error
