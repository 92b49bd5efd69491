-- ===== src/Stabilization/PropertyTests.antt =====
-- `run_properties` of tools/stabilization/run_rc_stab.py: the property tests of the two implementations.
use grain_protocol.Base.{String, Bool, true, false, Option, none, some, List, [], ◌∷◌, decode_error}
use grain_protocol.Base.Int.{ℤ, pos, eqb_ℤ}
use grain_protocol.Json.{Value}
use grain_protocol.Report.{JsonFile, missing, malformed, parsed}
use grain_protocol.Stabilization.Campaign.{
  Machine, Action, pure, raise, ◌>>=◌, run_completed, command_exists, shell,
}

pub record Properties : Type 0 where
  pub rust_pass : Bool
  pub rust_return_code : ℤ
  pub ts_pass : Bool
  pub ts_return_code : ℤ
  pub summary : Option Value

abbrev pub is_zero : ℤ → Bool
is_zero n = eqb_ℤ n (pos 0)

abbrev pub cargo_test : List String
cargo_test =
    "cargo" ∷ "test" ∷ "--manifest-path" ∷ "core/rust/Cargo.toml" ∷ "-p" ∷ "grain-core" ∷ "--test"
    ∷ "properties" ∷ []

abbrev pub docker_test : List String
docker_test =
    "docker" ∷ "run" ∷ "--rm" ∷ "-v" ∷ "{ROOT}:/work" ∷ "-w" ∷ "/work/core/rust" ∷ "rust:1.86"
    ∷ "bash" ∷ "-lc"
    ∷ "set -euo pipefail; export PATH=/usr/local/cargo/bin:$PATH; cargo test --manifest-path /work/core/rust/Cargo.toml -p grain-core --test properties"
    ∷ []

abbrev pub ts_properties_path : String
ts_properties_path = "runner/typescript/.properties-full.json"

module _ (machine : Machine) where
  -- The process of the Rust tests: 127 stands for a process that cannot be started.
  abbrev pub in_docker : Bool → Action ℤ
  in_docker true = do c ← run_completed machine (shell docker_test); pure c.return_code
  in_docker false = pure (pos 127)

  abbrev pub with_cargo : Bool → Action ℤ
  with_cargo true = do c ← run_completed machine (shell cargo_test); pure c.return_code
  with_cargo false = do docker ← command_exists machine "docker"; in_docker docker

  abbrev pub summary_of : JsonFile → Action (Option Value)
  summary_of missing = pure none
  summary_of malformed = raise decode_error
  summary_of (parsed v) = pure (some v)

  unfoldable pub run_properties : Action Properties
  run_properties = do
    cargo ← command_exists machine "cargo"
    rust ← with_cargo cargo
    ts ←
        run_completed machine
          (shell ("npm" ∷ "--prefix" ∷ "runner/typescript" ∷ "run" ∷ "test:properties" ∷ []))
    summary ← summary_of (machine.json ts_properties_path)
    pure (record {
      rust_pass = is_zero rust;
      rust_return_code = rust;
      ts_pass = is_zero ts.return_code;
      ts_return_code = ts.return_code;
      summary = summary;
    })
