-- ===== src/Stabilization/Writing.antt =====
-- The actions of a campaign that write no file.
use grain_protocol.Base.{
  ◌≡◌, refl, sym, ap, ◌∙◌, String, Exception, Bool, true, false, List, Result, ok, err,
  ok-injective, if◌then◌else◌,
}
use grain_protocol.Base.Int.{ℤ, pos, eqb_ℤ}
use grain_protocol.Json.{Value}
use grain_protocol.Report.{JsonFile, missing, malformed, parsed}
use grain_protocol.Stabilization.Actions.{bind-eq-ok, lift_result-eq-ok}
use grain_protocol.Stabilization.Campaign.{
  Failure, World, Action, Command, Ran, completed, timed_out, failed, undecodable, Machine, pure,
  raise, ◌>>=◌, lift_result, load_json, run, run_completed, completed_or_raise, command_exists,
  succeeded, finished, in_container, docker_for, handle, invoke_runner, runner, container, shell,
}
use grain_protocol.Stabilization.Fuzz.{evaluate_mutation_case}
use grain_protocol.Stabilization.Matrix.{Context}
use grain_protocol.Stabilization.Verdicts.{judge_mutation}

-- An action that leaves the written files as they are.
abbrev pub WritesNothing {ℓ} : {A : Type ℓ} → Action A → Type ℓ
WritesNothing {A} m = (w : World) (a : A) (v : World) → m w ≡ ok (a, v) → v.written ≡ w.written

module _ {ℓ} {A : Type ℓ} where
  pure-WritesNothing : (a : A) → WritesNothing (pure a)
  pure-WritesNothing a w b v h = ap (λ (x : A × World). x.1.written) (sym (ok-injective h))

  raise-WritesNothing : (e : Exception Failure) → WritesNothing (raise {A = A} e)
  raise-WritesNothing e w a v h = cc

  pub lift_result-WritesNothing : (r : Result Failure A) → WritesNothing (lift_result r)
  lift_result-WritesNothing r w a v h =
      ap (λ (x : World). x.written) (sym (lift_result-eq-ok r w h).1)

  >>=-WritesNothing {κ} :
      {B : Type κ} (m : Action B) (f : B → Action A)
      → WritesNothing m
      → ((b : B) → WritesNothing (f b))
      → WritesNothing (m >>= f)
  >>=-WritesNothing m f p q w a v h =
      let (b, u, first, rest) = bind-eq-ok m f w h in q b u a v rest ∙ p w b u first

module _ (machine : Machine) where
  run-WritesNothing : (cmd : Command) → WritesNothing (run machine cmd)
  run-WritesNothing cmd w a v h = ap (λ (x : Ran × World). x.1.written) (sym (ok-injective h))

  completed_or_raise-WritesNothing : (ran : Ran) → WritesNothing (completed_or_raise machine ran)
  completed_or_raise-WritesNothing (completed c) = pure-WritesNothing c
  completed_or_raise-WritesNothing (timed_out out errs) = raise-WritesNothing _
  completed_or_raise-WritesNothing (failed errno) = raise-WritesNothing _
  completed_or_raise-WritesNothing undecodable = raise-WritesNothing _

  run_completed-WritesNothing : (cmd : Command) → WritesNothing (run_completed machine cmd)
  unfolding run_completed
  run_completed-WritesNothing cmd =
      >>=-WritesNothing (run machine cmd) (completed_or_raise machine) (run-WritesNothing cmd)
        completed_or_raise-WritesNothing

  docker_for-WritesNothing : (errno : ℤ) → WritesNothing (docker_for machine errno)
  unfolding command_exists
  docker_for-WritesNothing errno = go (eqb_ℤ errno (pos 8))
    where
      go :
          (b : Bool)
          → WritesNothing (if b then command_exists machine "docker" else pure {A = Bool} false)
      go true =
          >>=-WritesNothing (run_completed machine (shell _)) (λ c. pure (succeeded machine c))
            (run_completed-WritesNothing (shell _)) (λ c. pure-WritesNothing (succeeded machine c))
      go false = pure-WritesNothing false

  in_container-WritesNothing :
      (docker : Bool) (vector : Value) (errno : ℤ)
      → WritesNothing (in_container machine docker vector errno)
  in_container-WritesNothing true vector errno =
      >>=-WritesNothing (run_completed machine (container vector))
        (λ c. pure (finished machine.loads c)) (run_completed-WritesNothing (container vector))
        (λ c. pure-WritesNothing (finished machine.loads c))
  in_container-WritesNothing false vector errno = raise-WritesNothing _

  handle-WritesNothing : (vector : Value) (ran : Ran) → WritesNothing (handle machine vector ran)
  handle-WritesNothing vector (completed c) = pure-WritesNothing (finished machine.loads c)
  handle-WritesNothing vector (timed_out out errs) = pure-WritesNothing _
  handle-WritesNothing vector (failed errno) =
      >>=-WritesNothing (docker_for machine errno)
        (λ docker. in_container machine docker vector errno) (docker_for-WritesNothing errno)
        (λ docker. in_container-WritesNothing docker vector errno)
  handle-WritesNothing vector undecodable = raise-WritesNothing _

  invoke_runner-WritesNothing :
      (prefix : List String) (vector : Value) → WritesNothing (invoke_runner machine prefix vector)
  unfolding invoke_runner
  invoke_runner-WritesNothing prefix vector =
      >>=-WritesNothing (run machine (runner prefix vector)) (handle machine vector)
        (run-WritesNothing (runner prefix vector)) (handle-WritesNothing vector)

  pub load_json-WritesNothing : (path : String) → WritesNothing (load_json machine path)
  unfolding load_json
  load_json-WritesNothing path = go (machine.json path)
    where
      go :
          (f : JsonFile)
          → WritesNothing (λ w. elim f [
            | missing ↦ err (grain_protocol.Base.other (Failure.file_not_found path))
            | malformed ↦ err grain_protocol.Base.decode_error
            | parsed v ↦ ok (v, w)
          ])
      go missing = raise-WritesNothing _
      go malformed = raise-WritesNothing _
      go (parsed x) = pure-WritesNothing x

-- The evaluation of a case writes no file.
pub evaluate_mutation_case-WritesNothing :
    (ctx : Context) (vector : Value) (case_id : String)
    → WritesNothing (evaluate_mutation_case ctx vector case_id)
unfolding evaluate_mutation_case
evaluate_mutation_case-WritesNothing ctx vector case_id =
    >>=-WritesNothing (invoke_runner ctx.machine ctx.rust_cmd vector) _
      (invoke_runner-WritesNothing ctx.machine ctx.rust_cmd vector)
      (λ rust.
        >>=-WritesNothing (invoke_runner ctx.machine ctx.ts_cmd vector) _
          (invoke_runner-WritesNothing ctx.machine ctx.ts_cmd vector)
          (λ ts. lift_result-WritesNothing (judge_mutation case_id rust ts)))
