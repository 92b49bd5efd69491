-- ===== src/Stabilization/Campaign.antt =====
-- What a campaign of tools/stabilization/run_rc_stab.py does to the world: it starts processes, draws
-- bytes and reads files. Processes and the generator are parameters, and the state is how far they are.
use grain_protocol.Base.{
  ℕ, suc, String, Bool, true, false, ◌||◌, ◌==◌, Option, none, some, List, [], ◌∷◌, ◌++◌,
  if◌then◌else◌, Result, ok, err, Exception, other, decode_error, attribute_error,
}
use grain_protocol.Base.Int.{ℤ, pos, eqb_ℤ}
use grain_protocol.Base.Text.{between, strip}
use grain_protocol.Json.{Value, obj, end, get_or}
use grain_protocol.Report.{JsonFile, missing, malformed, parsed}

-- A command: a runner on a vector, the runner in a container, `git tag --list` of a tag, the release
-- of a repository and a tag, the
-- certification of a commit in the clone, any other in the clone, or any other at the root.
pub data Command : Type 0 where
  runner : List String → Value → Command
  container : Value → Command
  list_tag : List ℕ → Command
  release_lookup : List ℕ → String → Command
  certify : List ℕ → Command
  in_clone : List String → Command
  shell : List String → Command

pub record Completed : Type 0 where
  pub return_code : ℤ
  pub stdout : List ℕ
  pub stderr : List ℕ

-- How `subprocess.run` ends: with a process, by `TimeoutExpired`, by `OSError`, or by the
-- UnicodeDecodeError of an output that is no text.
pub data Ran : Type 0 where
  completed : Completed → Ran
  timed_out : List ℕ → List ℕ → Ran
  failed : ℤ → Ran
  undecodable : Ran

-- The exceptions that a campaign dies of, beside those of Python itself.
pub data Failure : Type 0 where
  os_error : ℤ → Failure
  unicode_decode_error : Failure
  timeout_expired : Failure
  file_not_found : String → Failure
  git_failed : String → List ℕ → Failure
  build_failed : Failure

-- `written` are the files that `dump_json` has written, the last one first.
pub record World : Type 0 where
  pub started : ℕ
  pub drawn : ℕ
  pub written : List (String × Value)

-- The outcome of the n-th process, the n-th byte of the generator, the files as JSON and as text, and
-- `json.loads`.
pub record Machine : Type 0 where
  pub process : ℕ → Command → Ran
  pub random_byte : ℕ → ℕ
  pub json : String → JsonFile
  pub text_of : String → Option String
  pub loads : List ℕ → JsonFile

abbrev pub Action {ℓ} : Type ℓ → Type ℓ
Action A = World → Result Failure (A × World)

module _ {ℓ} {A : Type ℓ} where
  abbrev pub pure : A → Action A
  pure a w = ok (a, w)

  abbrev pub raise : Exception Failure → Action A
  raise e w = err e

infixl 5 ◌>>=◌ ◌>>◌
abbrev pub bind_result {ℓ κ} :
    {A : Type ℓ} {B : Type κ}
    → Result Failure (A × World)
    → (A → Action B)
    → Result Failure (B × World)
bind_result (ok (a, w)) f = f a w
bind_result (err e) f = err e

abbrev pub ◌>>=◌ {ℓ κ} : {A : Type ℓ} {B : Type κ} → Action A → (A → Action B) → Action B
◌>>=◌ m f w = bind_result (m w) f

abbrev pub ◌>>◌ {ℓ κ} : {A : Type ℓ} {B : Type κ} → Action A → Action B → Action B
m >> k = m >>= λ _. k

abbrev pub lift_result {ℓ} : {A : Type ℓ} → Result Failure A → Action A
lift_result (ok a) w = ok (a, w)
lift_result (err e) w = err e

module _ (machine : Machine) where
  -- `run(cmd)`.
  abbrev pub run : Command → Action Ran
  run cmd w = ok (
    machine.process w.started cmd,
    record { started = suc w.started; drawn = w.drawn; written = w.written },
  )

  -- A process of which no exception is caught.
  abbrev pub completed_or_raise : Ran → Action Completed
  completed_or_raise (completed c) = pure c
  completed_or_raise (timed_out out errs) = raise (other timeout_expired)
  completed_or_raise (failed errno) = raise (other (os_error errno))
  completed_or_raise undecodable = raise (other unicode_decode_error)

  unfoldable pub run_completed : Command → Action Completed
  run_completed cmd = do ran ← run cmd; completed_or_raise ran

  abbrev pub succeeded : Completed → Bool
  succeeded c = eqb_ℤ c.return_code (pos 0)

  unfoldable pub command_exists : String → Action Bool
  command_exists name = do
    c ← run_completed (shell ("bash" ∷ "-lc" ∷ "command -v " ∷ name ∷ []))
    pure (succeeded c)

  unfoldable pub load_json : String → Action Value
  load_json path w = elim (machine.json path) [
    | missing ↦ err (other (file_not_found path))
    | malformed ↦ err decode_error
    | parsed v ↦ ok (v, w)
  ]

pub record RunnerResult : Type 0 where
  pub crash : Bool
  pub timeout : Bool
  pub return_code : ℤ
  pub output : Value
  pub raw_stdout : List ℕ
  pub raw_stderr : List ℕ

-- The characters at which `str.splitlines` cuts.
abbrev pub is_line_break : ℕ → Bool
is_line_break c = between 10 13 c || between 28 30 c || c == 0x85 || between 0x2028 0x2029 c

abbrev is_blank : List ℕ → Bool
is_blank [] = true
is_blank (c ∷ s) = false

-- A line that is stripped, unless nothing is left of it.
abbrev keep_line : List ℕ → Option (List ℕ) → Option (List ℕ)
keep_line line last = let s = strip line in if is_blank s then last else some s

-- `lines[-1]` of the stripped lines that are not blank; a CR LF cuts off a blank line here.
unfoldable pub last_line : List ℕ → Option (List ℕ) → List ℕ → Option (List ℕ)
last_line line last [] = keep_line line last
last_line line last (c ∷ s) =
    let cut = is_line_break c in
    last_line (if cut then [] else line ++ (c ∷ [])) (if cut then keep_line line last else last) s

-- `parse_runner_output`, where `none` is any of the exceptions that it may raise.
abbrev pub parsed_value : JsonFile → Option Value
parsed_value (parsed v) = some v
parsed_value _ = none

abbrev pub by_line : (List ℕ → JsonFile) → Option (List ℕ) → Option Value
by_line loads none = none
by_line loads (some line) = parsed_value (loads line)

unfoldable pub parse_runner_output : (List ℕ → JsonFile) → List ℕ → Option Value
parse_runner_output loads stdout = by_line loads (last_line [] none stdout)

abbrev pub output_or : Option Value → Value
output_or none = obj end
output_or (some v) = v

abbrev pub is_none : Option Value → Bool
is_none none = true
is_none (some v) = false

-- The result of a process that has ended, and that of one that has run out of time.
abbrev pub finished : (List ℕ → JsonFile) → Completed → RunnerResult
finished loads c =
    let value = parse_runner_output loads c.stdout in
    record {
      crash = is_none value;
      timeout = false;
      return_code = c.return_code;
      output = output_or value;
      raw_stdout = c.stdout;
      raw_stderr = c.stderr;
    }

abbrev pub expired : List ℕ → List ℕ → RunnerResult
expired out errs = record {
  crash = true;
  timeout = true;
  return_code = pos 124;
  output = obj end;
  raw_stdout = out;
  raw_stderr = errs;
}

-- `invoke_runner`. Errno 8 is an executable of another machine, for which the container stands in; what
-- is raised while the container runs is not caught, nor is a UnicodeDecodeError.
module _ (machine : Machine) where
  abbrev pub in_container : Bool → Value → ℤ → Action RunnerResult
  in_container true vector errno = do
    c ← run_completed machine (container vector)
    pure (finished machine.loads c)
  in_container false vector errno = raise (other (os_error errno))

  abbrev pub docker_for : ℤ → Action Bool
  docker_for errno = if eqb_ℤ errno (pos 8) then command_exists machine "docker" else pure false

  abbrev pub handle : Value → Ran → Action RunnerResult
  handle vector (completed c) = pure (finished machine.loads c)
  handle vector (timed_out out errs) = pure (expired out errs)
  handle vector (failed errno) = do docker ← docker_for errno; in_container docker vector errno
  handle vector undecodable = raise (other unicode_decode_error)

  unfoldable pub invoke_runner : List String → Value → Action RunnerResult
  invoke_runner prefix vector = do ran ← run machine (runner prefix vector); handle vector ran

-- `output.get(k, default)`: what a runner prints need not be an object.
abbrev pub output_get : Value → String → Value → Result Failure Value
output_get (obj fs) k default = ok (get_or fs k default)
output_get _ k default = err attribute_error
