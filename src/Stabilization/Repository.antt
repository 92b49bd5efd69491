-- ===== src/Stabilization/Repository.antt =====
-- What tools/stabilization/run_rc_stab.py asks git: the commit of a tag, and the name of the repository.
use mathlib.Core.List.{reverse}
use grain_protocol.Base.{ℕ, ◌==◌, String, ◌<>◌, Bool, List, [], ◌∷◌, if◌then◌else◌, other}
use grain_protocol.Base.Text.{codes, strip, has_prefix, has_infix}
use grain_protocol.Stabilization.Campaign.{
  Completed, git_failed, Machine, Action, pure, raise, ◌>>=◌, run_completed, shell, succeeded,
}

module _ (machine : Machine) where
  unfoldable pub git_rev_parse : String → Action (List ℕ)
  git_rev_parse ref = do
    c ← run_completed machine (shell ("git" ∷ "rev-parse" ∷ ref ∷ []))
    if succeeded machine c
        then pure (strip c.stdout)
        else raise (other (git_failed ref (strip c.stderr)))

  unfoldable pub git_commit_rev_parse : String → Action (List ℕ)
  git_commit_rev_parse ref = git_rev_parse (ref <> "^{commit}")

abbrev pub no_slug : List ℕ
no_slug = codes "<owner>/<repo>"

-- `s.split(sep, 1)[1]`, where `sep` is in `s`.
unfoldable pub after : List ℕ → List ℕ → List ℕ
after sep [] = []
after sep (c ∷ s) =
    let rest = after sep s in if has_prefix (c ∷ s) sep then drop sep (c ∷ s) else rest
  where
    drop : List ℕ → List ℕ → List ℕ
    drop [] t = t
    drop (p ∷ ps) [] = []
    drop (p ∷ ps) (d ∷ t) = drop ps t

-- `s.strip("/")`.
unfoldable pub drop_slashes : List ℕ → List ℕ
drop_slashes [] = []
drop_slashes (c ∷ s) = if c == b'/' then drop_slashes s else c ∷ s

abbrev pub strip_slashes : List ℕ → List ℕ
strip_slashes s = reverse (drop_slashes (reverse (drop_slashes s)))

-- `slug[:-4]` of a text that ends in ".git".
unfoldable pub drop_git : List ℕ → List ℕ
drop_git s = if has_prefix (reverse s) (reverse (codes ".git")) then without (reverse s) else s
  where
    without : List ℕ → List ℕ
    without (a ∷ b ∷ c ∷ d ∷ r) = reverse r
    without r = []

abbrev pub has_slash : List ℕ → Bool
has_slash s = has_infix s (codes "/")

unfoldable pub slug_of : List ℕ → List ℕ
slug_of s = let slug = strip_slashes (drop_git s) in if has_slash slug then slug else no_slug

unfoldable pub slug_of_url : List ℕ → List ℕ
slug_of_url url =
    if has_prefix url (codes "git@github.com:")
    then slug_of (after (codes "git@github.com:") url)
    else if has_infix url (codes "github.com/")
    then slug_of (after (codes "github.com/") url)
    else no_slug

-- The variable GITHUB_REPOSITORY of the environment is an argument.
module _ (machine : Machine) where
  abbrev pub slug_from : Completed → List ℕ
  slug_from c = if succeeded machine c then slug_of_url (strip c.stdout) else no_slug

  unfoldable pub detect_repo_slug : String → Action (List ℕ)
  detect_repo_slug github_repository =
      let env_repo = strip (codes github_repository) in
      if has_slash env_repo
      then pure env_repo
      else (run_completed machine (shell ("git" ∷ "config" ∷ "--get" ∷ "remote.origin.url" ∷ []))
          >>= λ c. pure (slug_from c))
