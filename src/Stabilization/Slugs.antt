-- ===== src/Stabilization/Slugs.antt =====
-- The name of the repository that a campaign reports.
use grain_protocol.Base.{ℕ, ◌≡◌, refl, String, true, List, [], ◌∷◌, ok, Bool-cases, inl, inr}
use grain_protocol.Base.Text.{codes, strip, has_prefix, has_infix}
use grain_protocol.Stabilization.Actions.{any-Returns, pure-Returns}
use grain_protocol.Stabilization.Campaign.{
  Machine, World, Completed, run_completed, shell, succeeded,
}
use grain_protocol.Stabilization.Repository.{
  no_slug, has_slash, slug_of, slug_of_url, strip_slashes, drop_git, slug_from, detect_repo_slug,
}

no_slug-has_slash : has_slash no_slug ≡ true
unfolding has_infix has_prefix
no_slug-has_slash = refl

slug_of-has_slash : (s : List ℕ) → has_slash (slug_of s) ≡ true
unfolding slug_of
slug_of-has_slash s = elim (Bool-cases (has_slash (strip_slashes (drop_git s)))) [
  | inl slash ↦ rw slash slash
  | inr bare ↦ rw bare no_slug-has_slash
]

slug_of_url-has_slash : (url : List ℕ) → has_slash (slug_of_url url) ≡ true
unfolding slug_of_url
slug_of_url-has_slash url = elim (Bool-cases (has_prefix url (codes "git@github.com:"))) [
  | inl ssh ↦ rw ssh (slug_of-has_slash _)
  | inr other ↦ elim (Bool-cases (has_infix url (codes "github.com/"))) [
    | inl https ↦ rw (other, https) (slug_of-has_slash _)
    | inr none_of ↦ rw (other, none_of) no_slug-has_slash
  ]
]

slug_from-has_slash : (machine : Machine) (c : Completed) → has_slash (slug_from machine c) ≡ true
slug_from-has_slash machine c = elim (Bool-cases (succeeded machine c)) [
  | inl done ↦ rw done (slug_of_url-has_slash (strip c.stdout))
  | inr bad ↦ rw bad no_slug-has_slash
]

-- A name that is found has a slash in it, even the one that stands for a name that is not known.
pub detect_repo_slug-has_slash :
    (machine : Machine) (github_repository : String) (w : World) (slug : List ℕ) (w' : World)
    → detect_repo_slug machine github_repository w ≡ ok (slug, w')
    → has_slash slug ≡ true
unfolding detect_repo_slug
detect_repo_slug-has_slash machine github_repository =
    elim (Bool-cases (has_slash (strip (codes github_repository)))) [
      | inl slash ↦ rw slash (pure-Returns (λ s. has_slash s ≡ true) _ slash)
      | inr bare ↦ rw bare (
          any-Returns
            (run_completed machine (shell ("git" ∷ "config" ∷ "--get" ∷ "remote.origin.url" ∷ [])))
            _ (λ c. pure-Returns (λ s. has_slash s ≡ true) _ (slug_from-has_slash machine c)))
    ]
