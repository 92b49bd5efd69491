-- ===== src/Stabilization/Matrix.antt =====
-- The attack matrix of tools/stabilization/run_rc_stab.py: its cases, and `run_attack_matrix`.
use grain_protocol.Base.{
  ℕ, zero, suc, String, str_eq, Option, none, some, List, [], ◌∷◌, ◌++◌, if◌then◌else◌,
}
use grain_protocol.Json.{Value}
use grain_protocol.Stabilization.Campaign.{
  Machine, Action, pure, ◌>>=◌, lift_result, load_json, invoke_runner,
}
use grain_protocol.Stabilization.Verdicts.{
  RowReason, RowVerdict, row_rejected, row_found_bug, judge_vector, judge_replay,
}

pub record AttackCase : Type 0 where
  pub id : String
  pub name : String
  pub kind : String
  pub vector : String
  pub replays : Option ℕ

abbrev on_vector : String → String → String → AttackCase
on_vector id name path = record {
  id = id;
  name = name;
  kind = "vector";
  vector = path;
  replays = none;
}

abbrev pub attack_cases : List AttackCase
attack_cases =
    record {
      id = "AM-001";
      name = "GR1 replay yields deterministic decode";
      kind = "replay";
      vector = "conformance/vectors/qr/POS-QR-001.json";
      replays = some 3;
    }
    ∷ on_vector "AM-002" "COSE tag18 injection rejected"
        "conformance/vectors/cose/NEG-COSE-010.json"
    ∷ on_vector "AM-003" "COSE profile header anomaly rejected"
        "conformance/vectors/cose/NEG-COSE-001.json"
    ∷ on_vector "AM-004" "CBOR-seq garbage tail rejected"
        "conformance/vectors/ledger/NEG-LED-WA-0002.json"
    ∷ on_vector "AM-005" "CBOR-seq invalid initial byte rejected"
        "conformance/vectors/ledger/NEG-LED-WA-0003.json"
    ∷ on_vector "AM-006" "deterministic nonce mismatch rejected"
        "conformance/vectors/e2e/NEG-E2E-010.json"
    ∷ on_vector "AM-007" "ciphertext hash mismatch rejected"
        "conformance/vectors/e2e/NEG-E2E-020.json"
    ∷ on_vector "AM-008" "mixed manifest with tombstone remains unresolvable"
        "conformance/vectors/manifest/NEG-MAN-WA-0200.json"
    ∷ on_vector "AM-009" "cap/chash ambiguity conflict deterministic"
        "conformance/vectors/manifest/NEG-MAN-WA-0201.json"
    ∷ on_vector "AM-010" "ineligible records never perturb eligible winner"
        "conformance/vectors/manifest/NEG-MAN-WA-0202.json"
    ∷ on_vector "AM-011" "retroactive revoke removes revoked semantics"
        "conformance/vectors/ledger/NEG-LED-010.json"
    ∷ on_vector "AM-012" "UTF-8 bytes sorting trap rejected"
        "conformance/vectors/utf8/NEG-UTF8-WA-0001.json"
    ∷ []

-- A row: the case, and its verdict with the reason. What a row shows of the answers is left out.
pub record Row : Type 0 where
  pub entry : AttackCase
  pub verdict : RowVerdict

pub record Finding : Type 0 where
  pub id : String
  pub reason : RowReason
  pub vector : String

-- `findings.append(...)`, in the branches that find a bug.
abbrev pub finding_from : AttackCase → RowVerdict → List Finding
finding_from entry (row_found_bug reason) =
    record { id = entry.id; reason = reason; vector = entry.vector } ∷ []
finding_from entry _ = []

abbrev pub finding_of : Row → List Finding
finding_of row = finding_from row.entry row.verdict

-- `entry.get("replays", 3)`.
abbrev pub replays_of : Option ℕ → ℕ
replays_of none = 3
replays_of (some n) = n

-- The commands of the two runners, the directory of the vectors that are kept, and the machine.
pub record Context : Type 0 where
  pub rust_cmd : List String
  pub ts_cmd : List String
  pub minimized_dir : String
  pub machine : Machine

module _ (ctx : Context) where
  -- The loop over the replays.
  unfoldable pub replay : ℕ → Value → List Value → List Value → Action (List Value × List Value)
  replay zero vector rust_runs ts_runs = pure (rust_runs, ts_runs)
  replay (suc n) vector rust_runs ts_runs = do
    rust ← invoke_runner ctx.machine ctx.rust_cmd vector
    ts ← invoke_runner ctx.machine ctx.ts_cmd vector
    replay n vector (rust_runs ++ (rust.output ∷ [])) (ts_runs ++ (ts.output ∷ []))

  unfoldable pub attack_vector : Value → Action RowVerdict
  attack_vector vector = do
    rust ← invoke_runner ctx.machine ctx.rust_cmd vector
    ts ← invoke_runner ctx.machine ctx.ts_cmd vector
    lift_result (judge_vector rust ts)

  unfoldable pub attack_replay : ℕ → Value → Action RowVerdict
  attack_replay n vector = do
    (rust_runs, ts_runs) ← replay n vector [] []
    lift_result (judge_replay rust_runs ts_runs)

  abbrev pub by_kind : AttackCase → Value → Action RowVerdict
  by_kind entry vector =
      if str_eq entry.kind "vector"
      then attack_vector vector
      else if str_eq entry.kind "replay"
      then attack_replay (replays_of entry.replays) vector
      else pure row_rejected

  unfoldable pub attack : AttackCase → Action RowVerdict
  attack entry = do vector ← load_json ctx.machine entry.vector; by_kind entry vector

  -- The loop over the cases, with the rows and the findings so far.
  unfoldable pub run_attacks :
      List AttackCase → List Row → List Finding → Action (List Row × List Finding)
  run_attacks [] rows findings = pure (rows, findings)
  run_attacks (entry ∷ entries) rows findings = do
    verdict ← attack entry
    let row : Row = record { entry = entry; verdict = verdict }
    run_attacks entries (rows ++ (row ∷ [])) (findings ++ finding_of row)

  unfoldable pub run_attack_matrix : Action (List Row × List Finding)
  run_attack_matrix = run_attacks attack_cases [] []
