-- ===== src/Workflows/Coverage.antt =====
-- `main`: every fixture is named after its file, no two have one identity, and each workflow has one.
use grain_protocol.Base.{
  ℕ, ◌≡◌, refl, ◌∙◌, ap, sym, subst, arith, String, Bool, true, false, not, ◌||◌, ◌==◌, List, [],
  ◌∷◌, contains, keys, All, length, not_iff, ok, >>=-eq-ok, require->>-eq-ok, ok-injective,
  Bool-cases, inl, inr,
}
use grain_protocol.Workflows.{
  allowed_workflow, validate_fixture, workflow_of, validate_fixtures, main,
}
use grain_protocol.Workflows.References.{Repo}
use grain_protocol.Workflows.Expect.{extra_keys}
use grain_protocol.Workflows.Suite.{AreNamed, AreFresh, validate_fixture-IsNamed}

-- What the loop has added to the workflows that it has seen.
abbrev pub Passes : Repo → List String → List String → List String → List String → Type 0
Passes repo seen workflows paths out =
    (rows : List (String × String)) × AreNamed repo paths rows
    × (AreFresh seen rows
        × ((w : String) → contains out w ≡ (contains workflows w || contains (keys rows) w)))

contains-step :
    (ws rest : List String) (v w : String)
    → (contains (v ∷ ws) w || contains rest w) ≡ (contains ws w || contains (v ∷ rest) w)
unfolding contains
contains-step ws rest v w = ground arith

contains-keys-cons :
    (w v i : String) (rows : List (String × String))
    → contains (keys ((v, i) ∷ rows)) w ≡ contains (v ∷ keys rows) w
unfolding contains keys
contains-keys-cons w v i rows = refl

or_nil : (b : Bool) (w : String) → b ≡ (b || contains (keys {V = String} []) w)
unfolding contains keys
or_nil true w = refl
or_nil false w = refl

validate_fixtures-Passes :
    (repo : Repo) (seen workflows paths : List String) {out : List String × List String}
    → validate_fixtures repo seen workflows paths ≡ ok out
    → Passes repo seen workflows paths out.1
unfolding validate_fixtures
validate_fixtures-Passes repo seen workflows [] h =
    let e : workflows ≡ _ = ap (λ p. p.1) (ok-injective h) in
    ([], tt, (tt, λ w. ap (λ l. contains l w) (sym e) ∙ or_nil (contains workflows w) w))
validate_fixtures-Passes repo seen workflows (path ∷ paths) {out} h =
    let (ids, accepted, h1) = >>=-eq-ok (validate_fixture repo path seen) _ h in
    let (workflow, is_workflow, h2) = >>=-eq-ok (workflow_of repo path) _ h1 in
    let (fixture_id, named, (fresh, same)) =
      validate_fixture-IsNamed repo path seen accepted is_workflow in
    let (rows, are_named, (are_fresh, covers)) =
      validate_fixtures-Passes repo ids (workflow ∷ workflows) paths h2 in
    (
      (workflow, fixture_id) ∷ rows,
      (named, are_named),
      (
        (fresh, subst (λ l. AreFresh l rows) same are_fresh),
        λ w.
            covers w
            ∙ contains-step workflows (keys rows) workflow w
            ∙ ap (λ b. contains workflows w || b)
                (sym (contains-keys-cons w workflow fixture_id rows)),
      ),
    )

extra_keys-nil :
    (names ks : List String)
    → (length (extra_keys names ks) == 0) ≡ true
    → All (λ k. contains names k ≡ true) ks
unfolding extra_keys
extra_keys-nil names [] h = tt
extra_keys-nil names (k ∷ ks) h = elim (Bool-cases (contains names k)) [
  | inl there ↦ (there, extra_keys-nil names ks (rw (there, extra_keys) at h))
  | inr absent ↦ ground arith
]

covered :
    (out : List String) (rows : List (String × String))
    → ((w : String) → contains out w ≡ (contains [] w || contains (keys rows) w))
    → (names : List String) → All (λ w. contains out w ≡ true) names
    → All (λ w. contains (keys rows) w ≡ true) names
unfolding contains
covered out rows covers [] h = tt
covered out rows covers (w ∷ names) h = (sym (covers w) ∙ h.0, covered out rows covers names h.1)

-- When `main` returns, it returns the number of the paths, which are some; every file is an object that
-- is named after its path and has an allowed workflow; no two have one identity; and each of the
-- allowed workflows is that of a fixture.
pub main-eq-ok :
    (repo : Repo) (paths : List String) (n : ℕ)
    → main repo paths ≡ ok n
    → (n ≡ length paths)
      × ((length paths == 0) ≡ false)
      × ((rows : List (String × String)) × AreNamed repo paths rows
          × (AreFresh [] rows × All (λ w. contains (keys rows) w ≡ true) allowed_workflow))
unfolding main
main-eq-ok repo paths n h =
    let (some_path, h1) = require->>-eq-ok (not (length paths == 0)) _ _ h in
    let (seen, ran, h2) = >>=-eq-ok (validate_fixtures repo [] [] paths) _ h1 in
    let (all_seen, same) =
      require->>-eq-ok (length (extra_keys seen.1 allowed_workflow) == 0) _ _ h2 in
    let (rows, are_named, (are_fresh, covers)) = validate_fixtures-Passes repo [] [] paths ran in
    (
      sym (ok-injective same),
      (not_iff (length paths == 0)).0 some_path,
      (
        rows,
        are_named,
        (
          are_fresh,
          covered seen.1 rows covers allowed_workflow
              (extra_keys-nil seen.1 allowed_workflow all_seen),
        ),
      ),
    )
