-- ===== src/Workflows/References.antt =====
-- The references of tools/ci/check_client_workflow_fixtures.py: `resolve_ref` and the trust anchor
-- bundle.
use grain_protocol.Base.{
  ℕ, ◌==◌, String, str_eq, starts_with, code, Bool, true, false, not, ◌&&◌, ◌||◌, Option, none,
  some, List, [], ◌∷◌, ◌<>◌, contains, keys, all, if◌then◌else◌, Result, ok, err, exit, require,
  ◌>>=◌, ◌>>◌,
}
use grain_protocol.Base.Int.{pos}
use grain_protocol.Base.Text.{codes, codes_eq, between, strip}
use grain_protocol.Json.{
  Value, int, str, arr, obj, Items, nil, cons, Fields, fields, get, has_key, py_eq,
}
use grain_protocol.Report.{JsonFile, missing, malformed, parsed}
use grain_protocol.Base64.{decode}

-- f"{path}: {text}", with the value, the key or the keys that the text ends in.
pub data Message : Type 0 where
  said : String → String → Message
  said_value : String → String → Value → Message
  said_key : String → String → String → Message
  said_keys : String → String → List String → Message
  unread : String → Message
  invalid_json : String → Message
  uncovered : List String → Message
  no_fixtures : Message

-- The repository: what a path's file holds as JSON, and `(ROOT / path).resolve()`.
pub record Repo : Type 0 where
  pub json : String → JsonFile
  pub resolve : String → String

unfoldable pub load_json : Repo → String → Result Message Value
load_json repo path = elim (repo.json path) [
  | missing ↦ err (exit (unread path))
  | malformed ↦ err (exit (invalid_json path))
  | parsed v ↦ ok v
]

abbrev pub is_letter : ℕ → Bool
is_letter c =
    between b'A' b'Z' c || between b'a' b'z' c || between b'0' b'9' c || c == b'_' || c == b'-'

abbrev pub is_path_letter : ℕ → Bool
is_path_letter c = is_letter c || c == b'/'

abbrev pub is_pointer_letter : ℕ → Bool
is_pointer_letter c = is_path_letter c || c == b'~' || c == b'.'

-- What follows a text at the beginning of another.
abbrev pub after : List ℕ → List ℕ → Option (List ℕ)
after [] s = some s
after (a ∷ p) [] = none
after (a ∷ p) (b ∷ s) = let rest = after p s in if a == b then rest else none

-- `[letters]+` and then what the test accepts: no rest begins with one of the letters.
unfoldable pub some_letters : (ℕ → Bool) → (List ℕ → Bool) → Bool → List ℕ → Bool
some_letters letter rest seen [] = seen && rest []
some_letters letter rest seen (c ∷ s) =
    let later = some_letters letter rest true s in if letter c then later else seen && rest (c ∷ s)

abbrev pub is_empty : List ℕ → Bool
is_empty [] = true
is_empty (c ∷ s) = false

abbrev pub then_text : String → (List ℕ → Bool) → List ℕ → Bool
then_text p rest s = elim (after (codes p) s) [ none ↦ false | some t ↦ rest t ]

-- `REF_RE.fullmatch(ref)` and `TRUST_BUNDLE_REF_RE.fullmatch(ref)`.
unfoldable pub is_ref : String → Bool
is_ref s =
    then_text "conformance/vectors/"
      (some_letters is_path_letter
        (then_text ".json#/" (some_letters is_pointer_letter is_empty false)) false)
      (codes s)

unfoldable pub is_trust_bundle_ref : String → Bool
is_trust_bundle_ref s =
    then_text "sdk/trust/fixtures/" (some_letters is_letter (then_text ".json" is_empty) false)
      (codes s)

abbrev tail : String → String
tail String.[] = String.[]
tail (String.◌∷◌ c s) = s

-- `s.split("#/", 1)`.
unfoldable pub split_ref : String → String × String
split_ref String.[] = ("", "")
split_ref (String.◌∷◌ c s) =
    let rest : String × String = split_ref s in
    if starts_with (String.◌∷◌ c s) "#/" then ("", tail s) else (String.◌∷◌ c rest.0, rest.1)

abbrev head_of : List String → String
head_of [] = ""
head_of (p ∷ ps) = p

abbrev rest_of : List String → List String
rest_of [] = []
rest_of (p ∷ ps) = ps

-- `s.split("/")`.
unfoldable pub split_slash : String → List String
split_slash String.[] = "" ∷ []
split_slash (String.◌∷◌ c s) =
    let rest = split_slash s in
    if code c == b'/' then "" ∷ rest else String.◌∷◌ c (head_of rest) ∷ rest_of rest

-- `s.replace("~" + digit, by)`; `pending` says that the character before was a tilde of its own.
unfoldable pub replace_from : Bool → ℕ → String → String → String
replace_from pending digit by String.[] = if pending then "~" else ""
replace_from pending digit by (String.◌∷◌ c s) =
    let hit = pending && code c == digit in
    let tilde = not hit && code c == b'~' in
    let rest = replace_from tilde digit by s in
    let here = if hit then by <> rest else if tilde then rest else String.◌∷◌ c rest in
    if pending && not hit then "~" <> here else here

unfoldable pub unescape : String → String
unescape raw_part = replace_from false b'0' "~" (replace_from false b'1' "/" raw_part)

-- The loop over the parts of the pointer.
unfoldable pub follow : String → String → Value → List String → Result Message Value
follow path ref node [] = ok node
follow path ref (obj fs) (raw_part ∷ parts) = do
  require (has_key fs (unescape raw_part)) (said_value path "missing" (str ref))
  follow path ref (get fs (unescape raw_part)) parts
follow path ref _ (raw_part ∷ parts) = err (exit (said_value path "missing" (str ref)))

-- `target == root or root in target.parents`.
abbrev pub is_under : String → String → Bool
is_under root target = str_eq target root || starts_with target (root <> "/")

-- `not rel.is_absolute() and ".." not in rel.parts`.
abbrev pub stays_inside : String → Bool
stays_inside rel = not (starts_with rel "/") && not (contains (split_slash rel) "..")

unfoldable pub resolve_ref : Repo → Value → String → Result Message String
resolve_ref repo (str ref) path = do
  require (is_ref ref) (said_value path "invalid ref" (str ref))
  let parts : String × String = split_ref ref
  require (stays_inside parts.0) (said_value path "ref escapes repository root" (str ref))
  let target = repo.resolve parts.0
  require (is_under (repo.resolve "conformance/vectors") target)
      (said_value path "ref must stay under conformance/vectors" (str ref))
  document ← load_json repo target
  node ← follow path ref document (split_slash parts.1)
  elim node [ str s ↦ ok s | _ ↦ err (exit (said_value path "ref must point to string" (str ref))) ]
resolve_ref repo ref path = err (exit (said_value path "ref must be a string" ref))

-- `set(d) == {...}`.
unfoldable pub has_exactly : Fields → List String → Bool
has_exactly fs names = all (contains names) (keys (fields fs)) && all (has_key fs) names

-- A text that is not empty and has no white space at its edges.
abbrev pub is_trimmed : String → Bool
is_trimmed s = not (str_eq s "") && codes_eq (strip (codes s)) (codes s)

unfoldable pub check_anchor : String → List String → Value → Result Message (String × String)
check_anchor path seen (obj anchor) = do
  require (has_exactly anchor ("id" ∷ "trust_pub_b64" ∷ []))
      (said path "trust anchor keys must be id and trust_pub_b64")
  anchor_id ← elim (get anchor "id") [
    | str s ↦
        require (is_trimmed s)
          (said path "trust anchor id must be non-blank without edge whitespace")
        >> ok s
    | _ ↦ err (exit (said path "trust anchor id must be non-blank without edge whitespace"))
  ]
  require (not (contains seen anchor_id)) (said_key path "duplicate trust anchor id" anchor_id)
  trust_pub_b64 ← elim (get anchor "trust_pub_b64") [
    | str s ↦
        require (not (str_eq s "")) (said path "trust_pub_b64 must be a non-empty string") >> ok s
    | _ ↦ err (exit (said path "trust_pub_b64 must be a non-empty string"))
  ]
  elim (decode (codes trust_pub_b64)) [
    | none ↦ err (exit (said path "trust_pub_b64 must be standard base64"))
    | some [] ↦ err (exit (said path "trust_pub_b64 must decode to non-empty bytes"))
    | some (b ∷ bytes) ↦ ok (anchor_id, trust_pub_b64)
  ]
check_anchor path seen _ = err (exit (said path "trust anchor must be an object"))

-- The loop over the anchors; the ids that it has seen are those of the bundle it returns.
unfoldable pub check_anchors :
    String → List String → Items → Result Message (List (String × String))
check_anchors path seen nil = ok []
check_anchors path seen (cons anchor anchors) = do
  row ← check_anchor path seen anchor
  rest ← check_anchors path (row.0 ∷ seen) anchors
  ok (row ∷ rest)

unfoldable pub resolve_trust_anchor_bundle_ref :
    Repo → Value → String → Result Message (List (String × String))
resolve_trust_anchor_bundle_ref repo (str ref) path = do
  require (is_trust_bundle_ref ref) (said_value path "invalid trust_anchor_bundle_ref" (str ref))
  require (stays_inside ref)
      (said_value path "trust_anchor_bundle_ref escapes repository root" (str ref))
  let target = repo.resolve ref
  require (is_under (repo.resolve "sdk/trust/fixtures") target)
      (said_value path "trust_anchor_bundle_ref must stay under sdk/trust/fixtures" (str ref))
  document ← load_json repo target
  bundle ← elim document [
    | obj fs ↦ ok fs
    | _ ↦ err (exit (said path "trust anchor bundle must be an object"))
  ]
  require (has_exactly bundle ("bundle_v" ∷ "anchors" ∷ []))
      (said path "trust anchor bundle keys must be bundle_v and anchors")
  require (py_eq (get bundle "bundle_v") (int (pos 1)))
      (said path "trust anchor bundle_v must be 1")
  anchors ← elim (get bundle "anchors") [
    | arr (cons v vs) ↦ ok (cons v vs)
    | _ ↦ err (exit (said path "trust anchor bundle anchors must be a non-empty list"))
  ]
  check_anchors path [] anchors
resolve_trust_anchor_bundle_ref repo ref path =
    err (exit (said path "trust_anchor_bundle_ref must be a string"))
