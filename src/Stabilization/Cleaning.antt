-- ===== src/Stabilization/Cleaning.antt =====
-- The removal of the clone's directory, and the verdict of the campaign.
use grain_protocol.Base.{ℕ, ◌≡◌, refl, String, str_eq, Bool-cases, inl, inr, Result, ok, err}
use grain_protocol.Stabilization.{Args, Before, before_repro, after_repro, main}
use grain_protocol.Stabilization.Campaign.{Failure, World, Machine, Action, ◌>>=◌, bind_result}
use grain_protocol.Stabilization.Outcome.{Evidence}
use grain_protocol.Stabilization.Repository.{git_rev_parse, git_commit_rev_parse}
use grain_protocol.Stabilization.Rehearsal.{run_rollback_rehearsal}
use grain_protocol.Stabilization.Reproduction.{
  Removal, Cleanup, Repro, with_cleanup, skipped, safe_rmtree, reproduce, run_deep, run_repro_check,
}

abbrev pub Outcome : Type 0
Outcome = Result Failure ((ℕ × Evidence) × World)

-- Two outcomes that differ in what they say of the removal at most.
abbrev pub AgreeBesideCleanup : Outcome → Outcome → Type 0
AgreeBesideCleanup (ok ((status, e), w)) (ok ((status', e'), w')) =
    (status ≡ status')
    × (e.verdict ≡ e'.verdict)
    × (e.protocol_verdict ≡ e'.protocol_verdict)
    × (e.gates ≡ e'.gates)
    × (w ≡ w')
AgreeBesideCleanup (err e) (err e') = e ≡ e'
AgreeBesideCleanup _ _ = ⊥

module _ {A : Type 0} where
  agree-bind :
      (m : Action A) (f g : A → Action (ℕ × Evidence)) (w : World)
      → ((a : A) (v : World) → AgreeBesideCleanup (f a v) (g a v))
      → AgreeBesideCleanup ((m >>= f) w) ((m >>= g) w)
  agree-bind m f g w h = go (m w)
    where
      go : (r : Result Failure (A × World)) → AgreeBesideCleanup (bind_result r f) (bind_result r g)
      go (ok (a, v)) = h a v
      go (err e) = refl

  agree-bind_first :
      {B : Type 0} (m : Action A) (f g : A → Action B) (k : B → Action (ℕ × Evidence)) (w : World)
      → ((a : A) (v : World) → AgreeBesideCleanup ((f a >>= k) v) ((g a >>= k) v))
      → AgreeBesideCleanup (((m >>= f) >>= k) w) (((m >>= g) >>= k) w)
  agree-bind_first m f g k w h = go (m w)
    where
      go :
          (r : Result Failure (A × World))
          → AgreeBesideCleanup (bind_result (bind_result r f) k) (bind_result (bind_result r g) k)
      go (ok (a, v)) = h a v
      go (err e) = refl

module _ (machine : Machine) (args : Args) (before : Before) where
  after_repro-Agree :
      (report : Repro) (c d : Cleanup) (w : World)
      → AgreeBesideCleanup
          (after_repro machine args before (with_cleanup c report) w)
          (after_repro machine args before (with_cleanup d report) w)
  after_repro-Agree report c d w =
      agree-bind (run_rollback_rehearsal machine args.mode args.baseline_tag before.repo) _ _ w
        (λ rollback v.
          agree-bind (git_rev_parse machine "HEAD") _ _ v
            (λ head u. (refl, refl, refl, refl, refl)))

  run_deep-Agree :
      (temp : String) (r s : Removal) (w : World)
      → AgreeBesideCleanup
          ((run_deep machine args.baseline_tag args.baseline_sha temp r
              >>= after_repro machine args before)
            w)
          ((run_deep machine args.baseline_tag args.baseline_sha temp s
              >>= after_repro machine args before)
            w)
  run_deep-Agree temp r s w =
      agree-bind_first (git_commit_rev_parse machine args.baseline_tag) _ _
        (after_repro machine args before) w
        (λ commit v.
          agree-bind_first (reproduce machine args.baseline_tag args.baseline_sha commit) _ _
            (after_repro machine args before) v
            (λ report u. after_repro-Agree report (safe_rmtree temp r) (safe_rmtree temp s) u))

  run_repro_check-Agree :
      (temp : String) (r s : Removal) (w : World)
      → AgreeBesideCleanup
          ((run_repro_check machine args.mode args.baseline_tag args.baseline_sha temp r
              >>= after_repro machine args before)
            w)
          ((run_repro_check machine args.mode args.baseline_tag args.baseline_sha temp s
              >>= after_repro machine args before)
            w)
  unfolding run_repro_check
  run_repro_check-Agree temp r s w = elim (Bool-cases (str_eq args.mode "deep")) [
    | inl deep ↦ rw deep (run_deep-Agree temp r s w)
    | inr smoke ↦ rw smoke (after_repro-Agree skipped skipped.cleanup skipped.cleanup w)
  ]

-- However the removal of the clone's directory ends, the campaign raises the same exception, or returns
-- the same exit status, the same verdicts and the same gates.
pub main-Agree :
    (machine : Machine) (github_repository : String) (args : Args) (temp : String) (r s : Removal)
    (w : World)
    → AgreeBesideCleanup
        (main machine github_repository args temp r w)
        (main machine github_repository args temp s w)
unfolding main
main-Agree machine github_repository args temp r s w =
    agree-bind (before_repro machine github_repository args) _ _ w
      (λ before v. run_repro_check-Agree machine args before temp r s v)
