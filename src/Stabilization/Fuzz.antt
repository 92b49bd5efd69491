-- ===== src/Stabilization/Fuzz.antt =====
-- The fuzz campaign of tools/stabilization/run_rc_stab.py: `evaluate_mutation_case` and `run_fuzz`.
use grain_protocol.Base.{
  ℕ, zero, suc, String, ◌<>◌, str_eq, Bool, true, false, Option, none, some, List, [], ◌∷◌, ◌++◌,
  length, ok, if◌then◌else◌,
}
use grain_protocol.Base.Text.{codes}
use grain_protocol.Base64.{decode}
use grain_protocol.Json.{Value, str, obj, end}
use grain_protocol.Stabilization.Bytes.{mutate_bytes}
use grain_protocol.Stabilization.Campaign.{
  Action, pure, ◌>>=◌, ◌>>◌, lift_result, load_json, invoke_runner, output_get,
}
use grain_protocol.Stabilization.FuzzVector.{build_fuzz_vector}
use grain_protocol.Stabilization.Matrix.{Context}
use grain_protocol.Stabilization.Names.{case_name}
use grain_protocol.Stabilization.Paths.{Part, key, get_item, get_at_path, find_b64_paths}
use grain_protocol.Stabilization.Verdicts.{Case, judge_mutation, is_found_bug, is_saved}

abbrev pub fuzz_seed_vectors : List String
fuzz_seed_vectors =
    "conformance/vectors/cid/POS-CID-001.json" ∷ "conformance/vectors/cose/POS-COSE-001.json"
    ∷ "conformance/vectors/ledger/POS-LED-WA-0001.json"
    ∷ "conformance/vectors/manifest/POS-MAN-WA-0001.json"
    ∷ "conformance/vectors/e2e/POS-E2E-WA-0001.json" ∷ "conformance/vectors/e2e/POS-E2E-001.json"
    ∷ []

pub record FuzzCase : Type 0 where
  pub case_result : Case
  pub seed_vector : String
  pub mutated_path : List Part
  pub mutated_size : ℕ

-- The three lists that the campaign returns, as far as they have grown.
pub record Tally : Type 0 where
  pub cases : List FuzzCase
  pub findings : List FuzzCase
  pub saved : List String

abbrev pub one_if {ℓ} : {A : Type ℓ} → Bool → A → List A
one_if true a = a ∷ []
one_if false a = []

-- The tally with one case more, and the file that is kept of it, if one is.
abbrev pub add_case : Tally → FuzzCase → List String → Tally
add_case tally row kept = record {
  cases = tally.cases ++ (row ∷ []);
  findings = tally.findings ++ one_if (is_found_bug row.case_result.verdict) row;
  saved = tally.saved ++ kept;
}

abbrev pub per_path : String → ℕ
per_path mode = if str_eq mode "smoke" then 3 else 10

-- `dump_json(path, payload)`.
abbrev pub dump_json : String → Value → Action (Unit {0})
dump_json path payload w =
    ok (tt, record { started = w.started; drawn = w.drawn; written = (path, payload) ∷ w.written })

module _ (ctx : Context) where
  unfoldable pub evaluate_mutation_case : Value → String → Action Case
  evaluate_mutation_case vector case_id = do
    rust ← invoke_runner ctx.machine ctx.rust_cmd vector
    ts ← invoke_runner ctx.machine ctx.ts_cmd vector
    lift_result (judge_mutation case_id rust ts)

  -- `mutate_bytes(original, midx, ctx.rng)`.
  abbrev pub draw_mutation : List ℕ → ℕ → Action (List ℕ)
  draw_mutation original midx w =
      let (mutated, drawn) = mutate_bytes ctx.machine.random_byte original midx w.drawn in
      ok (mutated, record { started = w.started; drawn = drawn; written = w.written })

  abbrev pub repro_path : String → String
  repro_path case_id = ctx.minimized_dir <> "/" <> case_id <> ".json"

  abbrev pub save : Bool → String → Value → Action (List String)
  save true case_id vector = do
    dump_json (repro_path case_id) vector
    pure (repro_path case_id ∷ [])
  save false case_id vector = pure []

  -- The body of the loop over the mutations of one text.
  unfoldable pub fuzz_one : String → Value → List Part → List ℕ → ℕ → ℕ → Tally → Action Tally
  fuzz_one seed_path base path original pidx midx tally = do
    let case_id = case_name seed_path pidx midx
    mutated ← draw_mutation original midx
    vector ← lift_result (build_fuzz_vector base path mutated case_id)
    result ← evaluate_mutation_case vector case_id
    let row : FuzzCase = record {
      case_result = result;
      seed_vector = seed_path;
      mutated_path = path;
      mutated_size = length mutated;
    }
    kept ← save (is_saved result.verdict) case_id vector
    pure (add_case tally row kept)

  unfoldable pub fuzz_mutations :
      String → Value → List Part → List ℕ → ℕ → ℕ → ℕ → Tally → Action Tally
  fuzz_mutations seed_path base path original pidx zero midx tally = pure tally
  fuzz_mutations seed_path base path original pidx (suc n) midx tally = do
    tally' ← fuzz_one seed_path base path original pidx midx tally
    fuzz_mutations seed_path base path original pidx n (suc midx) tally'

  -- The bytes that a text stands for, if it stands for any.
  abbrev pub original_of : Value → Option (List ℕ)
  original_of (str raw) = decode (codes raw)
  original_of _ = none

  abbrev pub fuzz_text :
      String → String → Value → List Part → ℕ → Option (List ℕ) → Tally → Action Tally
  fuzz_text mode seed_path base path pidx none tally = pure tally
  fuzz_text mode seed_path base path pidx (some original) tally =
      fuzz_mutations seed_path base path original pidx (per_path mode) 0 tally

  unfoldable pub fuzz_paths : String → String → Value → List (List Part) → ℕ → Tally → Action Tally
  fuzz_paths mode seed_path base [] pidx tally = pure tally
  fuzz_paths mode seed_path base (path ∷ paths) pidx tally = do
    input ← lift_result (get_item base (key "input"))
    raw ← lift_result (get_at_path input path)
    tally' ← fuzz_text mode seed_path base path pidx (original_of raw) tally
    fuzz_paths mode seed_path base paths (suc pidx) tally'

  unfoldable pub fuzz_seeds : String → List String → Tally → Action Tally
  fuzz_seeds mode [] tally = pure tally
  fuzz_seeds mode (seed_path ∷ seeds) tally = do
    base ← load_json ctx.machine seed_path
    input ← lift_result (output_get base "input" (obj end))
    tally' ← fuzz_paths mode seed_path base (find_b64_paths input []) 0 tally
    fuzz_seeds mode seeds tally'

  unfoldable pub run_fuzz : String → Action Tally
  run_fuzz mode =
      fuzz_seeds mode fuzz_seed_vectors (record { cases = []; findings = []; saved = [] })
