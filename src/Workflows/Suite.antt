-- ===== src/Workflows/Suite.antt =====
-- The fixtures as a whole: what `validate_fixture` and `main` have established when they return.
use grain_protocol.Base.{
  ◌≡◌, ◌∙◌, ap, sym, subst, arith, String, true, false, not, List, [], ◌∷◌, contains, Result, ok,
  err, type_error, >>=-eq-ok, require->>-eq-ok, require-eq-ok, ok-injective,
}
use grain_protocol.Base.Int.{ℤ}
use grain_protocol.Base.Text.{codes, codes_eq}
use grain_protocol.Json.{Value, str, obj, Fields, get, in_set, is_true}
use grain_protocol.Json.Equality.{in_set-OneOf, OneOf}
use grain_protocol.Report.{parsed}
use grain_protocol.Workflows.{
  allowed_workflow, as_object, as_text, stem, check_top_level, check_id, check_meta,
  validate_fixture, workflow_of,
}
use grain_protocol.Workflows.References.{Message, Repo, load_json}
use grain_protocol.Workflows.Input.{require_in, check_input}
use grain_protocol.Workflows.Expect.{check_expect, check_diag}
use grain_protocol.Workflows.Kinds.{check_kind}
use grain_protocol.Workflows.Resolve.{load_json_iff}

as_object-eq-ok : (v : Value) (m : Message) {fs : Fields} → as_object v m ≡ ok fs → v ≡ obj fs
unfolding as_object
as_object-eq-ok (obj gs) m h = cc
as_object-eq-ok _ m h = cc

as_text-eq-ok : (v : Value) (m : Message) {s : String} → as_text v m ≡ ok s → v ≡ str s
unfolding as_text
as_text-eq-ok (str t) m h = cc
as_text-eq-ok _ m h = cc

require_in-OneOf :
    (v : Value) (names : List String) (m : Message) {u : Unit {0}}
    → require_in v names m ≡ ok u
    → OneOf names v
unfolding require_in
require_in-OneOf v names m h =
    let (found, is_in, there) = >>=-eq-ok (in_set v names) _ h in
    in_set-OneOf v names (is_in ∙ ap ok (require-eq-ok found m there))

-- What makes a file the fixture of this identity and this workflow.
abbrev pub IsNamed : Repo → String → String → String → Type 0
IsNamed repo path fixture_id workflow =
    (fs : Fields) × (repo.json path ≡ parsed (obj fs))
    × ((get fs "fixture_id" ≡ str fixture_id)
        × ((codes_eq (stem path) (codes fixture_id) ≡ true)
            × ((get fs "workflow" ≡ str workflow) × (contains allowed_workflow workflow ≡ true))))

check_id-eq-ok :
    (fs : Fields) (seen : List String) (path : String) {fixture_id : String}
    → check_id fs seen path ≡ ok fixture_id
    → (get fs "fixture_id" ≡ str fixture_id)
      × ((contains seen fixture_id ≡ false) × (codes_eq (stem path) (codes fixture_id) ≡ true))
unfolding check_id
check_id-eq-ok fs seen path {fixture_id} h =
    let (s, is_str, h1) = >>=-eq-ok (as_text (get fs "fixture_id") _) _ h in
    let (fresh, h2) = require->>-eq-ok (not (contains seen s)) _ _ h1 in
    let (named, same) = require->>-eq-ok (codes_eq (stem path) (codes s)) _ _ h2 in
    let e : s ≡ fixture_id = ok-injective same in
    let fresh' : contains seen s ≡ false = ground arith in
    (
      as_text-eq-ok _ _ is_str ∙ ap str e,
      (
        subst (λ x. contains seen x ≡ false) e fresh',
        subst (λ x. codes_eq (stem path) (codes x) ≡ true) e named,
      ),
    )

-- The parts of an accepted fixture that its checks have read.
abbrev pub Checked : Repo → String → List String → List String → Type 0
Checked repo path seen ids =
    (fs : Fields) × (repo.json path ≡ parsed (obj fs))
    × ((fixture_id : String) × (check_id fs seen path ≡ ok fixture_id)
        × (OneOf allowed_workflow (get fs "workflow")
            × ((input_obj : Fields) × (get fs "input" ≡ obj input_obj)
                × ((tries : ℤ × ℤ) × (check_input repo input_obj (get fs "workflow") path
                      ≡ ok tries)
                    × ((expect : Fields) × (get fs "expect" ≡ obj expect)
                        × ((status : Value) × (check_expect expect (get fs "workflow") path
                              ≡ ok status)
                            × ((check_kind (get fs "workflow") input_obj expect status tries path
                                  ≡ ok tt)
                                × (ids ≡ fixture_id ∷ seen))))))))

pub validate_fixture-Checked :
    (repo : Repo) (path : String) (seen : List String) {ids : List String}
    → validate_fixture repo path seen ≡ ok ids
    → Checked repo path seen ids
unfolding validate_fixture
validate_fixture-Checked repo path seen h =
    let (document, loaded, h1) = >>=-eq-ok (load_json repo path) _ h in
    let (fs, is_obj, h2) = >>=-eq-ok (as_object document _) _ h1 in
    let (u1, top, h3) = >>=-eq-ok (check_top_level fs path) _ h2 in
    let (fixture_id, named, h4) = >>=-eq-ok (check_id fs seen path) _ h3 in
    let (u2, kind, h5) = >>=-eq-ok (require_in (get fs "workflow") allowed_workflow _) _ h4 in
    let (strict, h6) = require->>-eq-ok (is_true (get fs "strict")) _ _ h5 in
    let (input_obj, is_input, h7) = >>=-eq-ok (as_object (get fs "input") _) _ h6 in
    let (tries, read, h8) = >>=-eq-ok (check_input repo input_obj (get fs "workflow") path) _ h7 in
    let (expect, is_expect, h9) = >>=-eq-ok (as_object (get fs "expect") _) _ h8 in
    let (status, expected, h10) = >>=-eq-ok (check_expect expect (get fs "workflow") path) _ h9 in
    let (u3, kept, h11) =
      >>=-eq-ok (check_kind (get fs "workflow") input_obj expect status tries path) _ h10 in
    let (u4, diag, h12) = >>=-eq-ok (check_diag expect path) _ h11 in
    let (u5, meta, h13) = >>=-eq-ok (check_meta fs path) _ h12 in
    (
      fs,
      (load_json_iff repo path document).0 loaded ∙ ap parsed (as_object-eq-ok document _ is_obj),
      (
        fixture_id,
        named,
        (
          require_in-OneOf _ _ _ kind,
          (
            input_obj,
            as_object-eq-ok _ _ is_input,
            (
              tries,
              read,
              (
                expect,
                as_object-eq-ok _ _ is_expect,
                (status, expected, (kept, sym (ok-injective h13))),
              ),
            ),
          ),
        ),
      ),
    )

-- The fixtures of the paths, as rows of a workflow and an identity.
abbrev pub AreNamed : Repo → List String → List (String × String) → Type 0
AreNamed repo [] [] = Unit
AreNamed repo (path ∷ paths) ((workflow, fixture_id) ∷ rows) =
    IsNamed repo path fixture_id workflow × AreNamed repo paths rows
AreNamed repo _ _ = ⊥

-- No identity stands among those before it.
abbrev pub AreFresh : List String → List (String × String) → Type 0
AreFresh seen [] = Unit
AreFresh seen ((workflow, fixture_id) ∷ rows) =
    (contains seen fixture_id ≡ false) × AreFresh (fixture_id ∷ seen) rows

abbrev pub workflow_in : Value → Result Message String
workflow_in document = elim document [
  | obj fs ↦ elim (get fs "workflow") [ str s ↦ ok s | _ ↦ err type_error ]
  | _ ↦ err type_error
]

workflow_in-eq-ok :
    (fs : Fields) {w : String} → workflow_in (obj fs) ≡ ok w → get fs "workflow" ≡ str w
workflow_in-eq-ok fs {w} h = go (get fs "workflow") h
  where
    go :
        (v : Value)
        → ◌≡◌ {A = Result Message String} (elim v [ str s ↦ ok s | _ ↦ err type_error ]) (ok w)
        → v ≡ str w
    go (str s) e = cc
    go _ e = cc

parsed_injective : {v w : Value} → parsed v ≡ parsed w → v ≡ w
parsed_injective h = cc

workflow_of-eq-ok :
    (repo : Repo) (path : String) (fs : Fields) {w : String}
    → repo.json path ≡ parsed (obj fs)
    → workflow_of repo path ≡ ok w
    → get fs "workflow" ≡ str w
unfolding workflow_of
workflow_of-eq-ok repo path fs {w} there h =
    let (document, loaded, read) = >>=-eq-ok (load_json repo path) workflow_in h in
    let same = parsed_injective (sym ((load_json_iff repo path document).0 loaded) ∙ there) in
    workflow_in-eq-ok fs (subst (λ v. workflow_in v ≡ ok w) same read)

-- A fixture that is accepted is named, and is new.
pub validate_fixture-IsNamed :
    (repo : Repo) (path : String) (seen : List String) {ids : List String} {w : String}
    → validate_fixture repo path seen ≡ ok ids
    → workflow_of repo path ≡ ok w
    → (fixture_id : String) × IsNamed repo path fixture_id w
      × ((contains seen fixture_id ≡ false) × (ids ≡ fixture_id ∷ seen))
validate_fixture-IsNamed repo path seen {w = w} h k =
    let (
      fs,
      there,
      (
        fixture_id,
        named,
        (kind, (input_obj, i, (tries, t, (expect, e, (status, s, (kept, same)))))),
      ),
    ) =
      validate_fixture-Checked repo path seen h in
    let (is_id, (fresh, is_stem)) = check_id-eq-ok fs seen path named in
    let is_w = workflow_of-eq-ok repo path fs there k in
    let (v, is_v, allowed) = kind in
    let same_w : v ≡ w = str_injective (sym is_v ∙ is_w) in
    (
      fixture_id,
      (
        fs,
        there,
        (is_id, (is_stem, (is_w, subst (λ x. contains allowed_workflow x ≡ true) same_w allowed))),
      ),
      (fresh, same),
    )
  where
    str_injective : {s t : String} → str s ≡ str t → s ≡ t
    str_injective e = cc
