-- ===== src/Workflows/Resolve.antt =====
-- What a reference that resolves has established, and a bundle of trust anchors that is accepted.
use grain_protocol.Base.{
  ◌≡◌, refl, ◌↔◌, subst, String, true, List, [], ◌∷◌, Result, ok, err, exit, >>=_iff, >>_iff,
  ok_iff, require-Accepts,
}
use grain_protocol.Json.{Value, str, obj, Fields, get, has_key}
use grain_protocol.Report.{JsonFile, missing, malformed, parsed}
use grain_protocol.Workflows.Forms.{
  HasForm, IsInside, IsUnder, is_ref_iff, is_under_iff, stays_inside_iff,
}
use grain_protocol.Workflows.References.{
  Message, Repo, load_json, is_ref, split_ref, split_slash, unescape, follow, is_under,
  stays_inside, resolve_ref,
}

pub load_json_iff :
    (repo : Repo) (path : String) (v : Value)
    → (load_json repo path ≡ ok v) ↔ (repo.json path ≡ parsed v)
unfolding load_json
load_json_iff repo path v = go (repo.json path) refl
  where
    go :
        (f : JsonFile)
        → repo.json path ≡ f
        → (load_json repo path ≡ ok v) ↔ (repo.json path ≡ parsed v)
    go missing e = rw e (λ h. cc, λ h. cc)
    go malformed e = rw e (λ h. cc, λ h. cc)
    go (parsed w) e = rw e (λ h. cc, λ h. cc)

-- The parts of a pointer lead from one value to another.
abbrev pub LeadsTo : Value → List String → Value → Type 0
LeadsTo node [] v = node ≡ v
LeadsTo node (raw_part ∷ parts) v =
    (fs : Fields) × (node ≡ obj fs)
    × ((has_key fs (unescape raw_part) ≡ true) × LeadsTo (get fs (unescape raw_part)) parts v)

follow_iff :
    (path ref : String) (node : Value) (parts : List String) (v : Value)
    → (follow path ref node parts ≡ ok v) ↔ LeadsTo node parts v
unfolding follow
follow_iff path ref node [] v = ok_iff node v
follow_iff path ref (obj gs) (raw_part ∷ parts) v =
    let steps =
      >>_iff _ _ v (require-Accepts (has_key gs (unescape raw_part)) _ (λ h. h, λ h. h))
        (follow_iff path ref (get gs (unescape raw_part)) parts v) in
    (
      λ h. (gs, refl, steps.0 h),
      λ (fs, e, rest).
          let same : fs ≡ gs = cc in
          steps.1 (
            subst
              (λ x.
                (has_key x (unescape raw_part) ≡ true)
                × LeadsTo (get x (unescape raw_part)) parts v)
              same rest),
    )
follow_iff path ref _ (raw_part ∷ parts) v = (λ h. cc, λ (fs, e, rest). cc)

str_node_iff :
    (node : Value) (m : Message) (s : String)
    → ◌≡◌ {A = Result Message String} (elim node [ str t ↦ ok t | _ ↦ err (exit m) ]) (ok s)
      ↔ (node ≡ str s)
str_node_iff (str t) m s = (λ h. cc, λ h. cc)
str_node_iff _ m s = (λ h. cc, λ h. cc)

-- The file of a reference, whose path is resolved.
abbrev pub target_of : Repo → String → String
target_of repo ref = repo.resolve (split_ref ref).0

-- A reference of the form, with a path that is relative and never goes up, whose resolved file is the
-- directory of the vectors or lies below it, and whose pointer leads to a text.
abbrev pub Found : Repo → String → String → Type 0
Found repo s ref =
    HasForm ref
    × (IsInside (split_ref ref).0
        × (IsUnder (repo.resolve "conformance/vectors") (target_of repo ref)
            × ((document : Value) × (repo.json (target_of repo ref) ≡ parsed document)
                × LeadsTo document (split_slash (split_ref ref).1) (str s))))

abbrev pub Resolves : Repo → Value → String → Type 0
Resolves repo v s = (ref : String) × (v ≡ str ref) × Found repo s ref

-- A reference resolves to a text exactly when it has the form that is spelled out by `HasForm`, its path
-- is relative and never goes up, its resolved file is the directory of the vectors or lies below it,
-- that file is JSON, and the parts of its pointer lead to that text.
pub resolve_ref_iff :
    (repo : Repo) (v : Value) (path s : String)
    → (resolve_ref repo v path ≡ ok s) ↔ Resolves repo v s
unfolding resolve_ref
resolve_ref_iff repo (str ref) path s =
    let steps = >>_iff _ _ s (require-Accepts (is_ref ref) _ (is_ref_iff ref)) (
      >>_iff _ _ s
        (require-Accepts (stays_inside (split_ref ref).0) _ (stays_inside_iff (split_ref ref).0))
        (>>_iff _ _ s
          (require-Accepts (is_under (repo.resolve "conformance/vectors") (target_of repo ref)) _
            (is_under_iff (repo.resolve "conformance/vectors") (target_of repo ref)))
          (>>=_iff _ _ s (load_json_iff repo (target_of repo ref)) (λ document.
            >>=_iff _ _ s (follow_iff path ref document (split_slash (split_ref ref).1))
              (λ node. str_node_iff node _ s))))) in
    (
      λ h.
          let (form, (inside, (under, (document, there, (node, leads, is_str))))) = steps.0 h in
          (
            ref,
            refl,
            (
              form,
              (
                inside,
                (
                  under,
                  (
                    document,
                    there,
                    subst (LeadsTo document (split_slash (split_ref ref).1)) is_str leads,
                  ),
                ),
              ),
            ),
          ),
      λ (r, e, rest).
          let same : r ≡ ref = cc in
          let (form, (inside, (under, (document, there, leads)))) =
            subst (Found repo s) same rest in
          steps.1 (form, (inside, (under, (document, there, (str s, leads, refl))))),
    )
resolve_ref_iff repo _ path s = (λ h. cc, λ (r, e, rest). cc)
