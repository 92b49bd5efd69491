-- ===== src/Stabilization/Built.antt =====
-- What stands in a vector that the fuzz campaign builds.
use grain_protocol.Base.{
  ℕ, ◌≡◌, refl, sym, String, true, some, List, lookup, ok, ok-injective, >>=-eq-ok, ◌∙◌,
}
use grain_protocol.Base.Below.{AreBytes}
use grain_protocol.Base.Text.{codes}
use grain_protocol.Base64.{encode, decode}
use grain_protocol.Base64.RoundTrip.{decode-encode}
use grain_protocol.Json.{Value, bool, str, obj, Fields, fields}
use grain_protocol.Stabilization.Campaign.{Failure}
use grain_protocol.Stabilization.FuzzVector.{build_fuzz_vector, rejection}
use grain_protocol.Stabilization.Paths.{
  Part, key, put_field, get_item, get_at_path, set_item, set_at_path,
}
use grain_protocol.Stabilization.Updates.{
  lookup-put_field, lookup-put_field_ne, get_at_path-set_at_path,
}

-- A text at a path of the input that decodes to the bytes, and the members that make the vector one of
-- the campaign.
abbrev pub IsBuilt : Fields → List Part → List ℕ → String → Type 0
IsBuilt fs path mbytes case_id =
    ((input : Value) × (s : String) × (lookup "input" (fields fs) ≡ some input)
      × (get_at_path {M = Failure} input path ≡ ok (str s))
      × (decode (codes s) ≡ some mbytes))
    × (lookup "vector_id" (fields fs) ≡ some (str case_id))
    × (lookup "strict" (fields fs) ≡ some (bool true))
    × (lookup "expect" (fields fs) ≡ some rejection)

abbrev with_input : Fields → Value → Fields
with_input fs mutated = put_field fs "input" mutated

abbrev named : Fields → Value → String → Fields
named fs mutated case_id = put_field (with_input fs mutated) "vector_id" (str case_id)

abbrev made_strict : Fields → Value → String → Fields
made_strict fs mutated case_id = put_field (named fs mutated case_id) "strict" (bool true)

abbrev completed_fields : Fields → Value → String → Fields
completed_fields fs mutated case_id = put_field (made_strict fs mutated case_id) "expect" rejection

completed_fields-id :
    (fs : Fields) (mutated : Value) (case_id : String)
    → lookup "vector_id" (fields (completed_fields fs mutated case_id)) ≡ some (str case_id)
completed_fields-id fs mutated case_id =
    lookup-put_field_ne (made_strict fs mutated case_id) "expect" "vector_id" rejection refl
    ∙ lookup-put_field_ne (named fs mutated case_id) "strict" "vector_id" (bool true) refl
    ∙ lookup-put_field (with_input fs mutated) "vector_id" (str case_id)

completed_fields-IsBuilt :
    (fs : Fields) (input mutated : Value) (path : List Part) (mbytes : List ℕ) (case_id : String)
    → AreBytes mbytes
    → set_at_path {M = Failure} input path (str (encode mbytes)) ≡ ok mutated
    → IsBuilt (completed_fields fs mutated case_id) path mbytes case_id
completed_fields-IsBuilt fs input mutated path mbytes case_id h set = (
  (
    mutated,
    encode mbytes,
    at_input,
    get_at_path-set_at_path input path (str (encode mbytes)) set,
    decode-encode mbytes h,
  ),
  completed_fields-id fs mutated case_id,
  lookup-put_field_ne (made_strict fs mutated case_id) "expect" "strict" rejection refl
      ∙ lookup-put_field (named fs mutated case_id) "strict" (bool true),
  lookup-put_field (made_strict fs mutated case_id) "expect" rejection,
)
  where
    at_input : lookup "input" (fields (completed_fields fs mutated case_id)) ≡ some mutated
    at_input =
        lookup-put_field_ne (made_strict fs mutated case_id) "expect" "input" rejection refl
        ∙ lookup-put_field_ne (named fs mutated case_id) "strict" "input" (bool true) refl
        ∙ lookup-put_field_ne (with_input fs mutated) "vector_id" "input" (str case_id) refl
        ∙ lookup-put_field fs "input" mutated

-- An object with this identity.
abbrev pub HasId : Value → String → Type 0
HasId vector id =
    (fs : Fields) × (vector ≡ obj fs) × (lookup "vector_id" (fields fs) ≡ some (str id))

pub build_fuzz_vector-HasId :
    (base : Value) (path : List Part) (mbytes : List ℕ) (case_id : String) (vector : Value)
    → build_fuzz_vector base path mbytes case_id ≡ ok vector
    → HasId vector case_id
unfolding build_fuzz_vector get_item set_item
build_fuzz_vector-HasId (obj fs) path mbytes case_id vector built =
    let (input, got, h1) = >>=-eq-ok (get_item {M = Failure} (obj fs) (key "input")) _ built in
    let (mutated, set, h2) =
      >>=-eq-ok (set_at_path {M = Failure} input path (str (encode mbytes))) _ h1 in
    (
      completed_fields fs mutated case_id,
      sym (ok-injective h2),
      completed_fields-id fs mutated case_id,
    )
build_fuzz_vector-HasId _ path mbytes case_id vector built = cc

-- A vector that is built from bytes is an object: at the path of its input stands a text that decodes
-- to those bytes, it has the identity of the case, it is strict, and it expects a rejection.
pub build_fuzz_vector-IsBuilt :
    (base : Value) (path : List Part) (mbytes : List ℕ) (case_id : String) (vector : Value)
    → AreBytes mbytes
    → build_fuzz_vector base path mbytes case_id ≡ ok vector
    → (fs : Fields) × (vector ≡ obj fs) × IsBuilt fs path mbytes case_id
unfolding build_fuzz_vector get_item set_item
build_fuzz_vector-IsBuilt (obj fs) path mbytes case_id vector h built =
    let (input, got, h1) = >>=-eq-ok (get_item {M = Failure} (obj fs) (key "input")) _ built in
    let (mutated, set, h2) =
      >>=-eq-ok (set_at_path {M = Failure} input path (str (encode mbytes))) _ h1 in
    (
      completed_fields fs mutated case_id,
      sym (ok-injective h2),
      completed_fields-IsBuilt fs input mutated path mbytes case_id h set,
    )
build_fuzz_vector-IsBuilt _ path mbytes case_id vector h built = cc
