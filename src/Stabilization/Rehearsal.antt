-- ===== src/Stabilization/Rehearsal.antt =====
-- `run_rollback_rehearsal` of tools/stabilization/run_rc_stab.py: the tags, and the release of the
-- baseline with its assets.
use grain_protocol.Base.{
  ℕ, ◌==◌, String, str_eq, Bool, true, false, not, ◌&&◌, Option, none, some, List, [], ◌∷◌,
  if◌then◌else◌, decode_error,
}
use grain_protocol.Base.Text.{codes, codes_eq, strip}
use grain_protocol.Json.{Value, bool, arr, nil, truthy}
use grain_protocol.Report.{JsonFile, parsed}
use grain_protocol.Stabilization.Assets.{names_of, release_assets_ok}
use grain_protocol.Stabilization.Campaign.{
  Completed, Machine, Action, pure, raise, ◌>>=◌, lift_result, run_completed, list_tag,
  release_lookup, shell, succeeded, output_get,
}

pub record Rollback : Type 0 where
  pub executed : Bool
  pub success : Bool
  pub rc2_tag_candidate : List ℕ
  pub error : Option String
  pub tag_exists : Bool
  pub rc2_exists : Bool
  pub release_lookup_ok : Bool
  pub release_prerelease : Bool
  pub release_assets : List Value
  pub release_assets_ok : Bool

-- `baseline_tag.replace("rc1", "rc2")`.
unfoldable pub replace_rc1 : List ℕ → List ℕ
replace_rc1 (a ∷ b ∷ c ∷ s) =
    let kept = a ∷ replace_rc1 (b ∷ c ∷ s) in
    let replaced = b'r' ∷ b'c' ∷ b'2' ∷ replace_rc1 s in
    if a == b'r' && b == b'c' && c == b'1' then replaced else kept
replace_rc1 s = s

abbrev pub not_rehearsed : Bool → Option String → List ℕ → Rollback
not_rehearsed executed error candidate = record {
  executed = executed;
  success = false;
  rc2_tag_candidate = candidate;
  error = error;
  tag_exists = false;
  rc2_exists = false;
  release_lookup_ok = false;
  release_prerelease = false;
  release_assets = [];
  release_assets_ok = false;
}

abbrev pub is_empty : List ℕ → Bool
is_empty [] = true
is_empty (c ∷ s) = false

-- What the answer on the release says: whether it is a prerelease, its assets, and whether they are
-- all there.
abbrev pub read_release : JsonFile → Action (Bool × List Value × Bool)
read_release (parsed payload) = do
  prerelease ← lift_result (output_get payload "prerelease" (bool false))
  listed ← lift_result (output_get payload "assets" (arr nil))
  assets ← lift_result (names_of listed)
  release_ok ← lift_result (release_assets_ok assets)
  pure (truthy prerelease, assets, release_ok)
read_release _ = raise decode_error

module _ (machine : Machine) where
  abbrev pub release_of : Bool → Completed → Action (Bool × List Value × Bool)
  release_of true rel = read_release (machine.loads rel.stdout)
  release_of false rel = pure (false, [], false)

  abbrev pub look_up : List ℕ → String → List ℕ → Bool → Bool → Action Rollback
  look_up candidate baseline_tag repo_slug tag_exists rc2_exists = do
    rel ← run_completed machine (release_lookup repo_slug baseline_tag)
    (prerelease, assets, release_ok) ← release_of (succeeded machine rel) rel
    pure (record {
      executed = true;
      success = tag_exists && not rc2_exists && succeeded machine rel && release_ok && prerelease;
      rc2_tag_candidate = candidate;
      error = none;
      tag_exists = tag_exists;
      rc2_exists = rc2_exists;
      release_lookup_ok = succeeded machine rel;
      release_prerelease = prerelease;
      release_assets = assets;
      release_assets_ok = release_ok;
    })

  abbrev pub rehearse : List ℕ → String → List ℕ → Action Rollback
  rehearse candidate baseline_tag repo_slug = do
    tags ← run_completed machine (list_tag (codes baseline_tag))
    rc2_tags ← run_completed machine (list_tag candidate)
    gh ← run_completed machine (shell ("gh" ∷ "--version" ∷ []))
    if succeeded machine gh
        then look_up candidate baseline_tag repo_slug
            (codes_eq (strip tags.stdout) (codes baseline_tag))
            (not (is_empty (strip rc2_tags.stdout)))
        else pure (not_rehearsed true (some "gh_cli_missing") candidate)

  unfoldable pub run_rollback_rehearsal : String → String → List ℕ → Action Rollback
  run_rollback_rehearsal mode baseline_tag repo_slug =
      let candidate = replace_rc1 (codes baseline_tag) in
      if str_eq mode "deep"
      then rehearse candidate baseline_tag repo_slug
      else pure (not_rehearsed false none candidate)
