-- ===== src/Stabilization/Tallies.antt =====
-- What the fuzz campaign returns: its cases, and those of them that are findings and that are saved.
use grain_protocol.Base.{
  ℕ, zero, suc, ◌≡◌, refl, sym, ap, subst, ◌∙◌, ok-injective, String, Option, none, some, List, [],
  ◌∷◌, ◌++◌, All-append, ok, length,
}
use grain_protocol.Json.{Value, obj, end}
use grain_protocol.Stabilization.Actions.{bind-eq-ok, lift_result-eq-ok}
use grain_protocol.Stabilization.Built.{HasId, build_fuzz_vector-HasId}
use grain_protocol.Stabilization.Writing.{
  lift_result-WritesNothing, load_json-WritesNothing, evaluate_mutation_case-WritesNothing,
}
use grain_protocol.Stabilization.Bytes.{mutate_bytes}
use grain_protocol.Stabilization.Campaign.{World, Action, pure, lift_result, load_json, output_get}
use grain_protocol.Stabilization.Evaluation.{evaluate_mutation_case-eq-ok}
use grain_protocol.Stabilization.Fuzz.{
  FuzzCase, Tally, one_if, add_case, save, evaluate_mutation_case, fuzz_one, fuzz_mutations,
  original_of, fuzz_text, fuzz_paths, fuzz_seeds, fuzz_seed_vectors, run_fuzz, per_path,
}
use grain_protocol.Stabilization.FuzzVector.{build_fuzz_vector}
use grain_protocol.Stabilization.Matrix.{Context}
use grain_protocol.Stabilization.Names.{case_name}
use grain_protocol.Stabilization.Paths.{Part, key, get_item, get_at_path, find_b64_paths}
use grain_protocol.Stabilization.Verdicts.{is_found_bug, is_saved}
use grain_protocol.Stabilization.Recorded.{
  Recorded, at_start, IsTallied, bugs_of-append, save-Recorded,
}

module _ (ctx : Context) (start : List (String × Value)) where
  -- A step on the tally that keeps it right.
  abbrev Keeps : (Tally → Action Tally) → Type 0
  Keeps step =
      (tally : Tally) (w : World) (tally' : Tally) (w' : World)
      → IsTallied ctx start tally w.written
      → step tally w ≡ ok (tally', w')
      → IsTallied ctx start tally' w'.written

  pure-Keeps : Keeps pure
  pure-Keeps tally w tally' w' kept h =
      subst (λ (x : Tally × World). IsTallied ctx start x.0 x.1.written) (ok-injective h) kept

  fuzz_one-Keeps :
      (seed_path : String) (base : Value) (path : List Part) (original : List ℕ) (pidx midx : ℕ)
      → Keeps (fuzz_one ctx seed_path base path original pidx midx)
  unfolding fuzz_one
  fuzz_one-Keeps seed_path base path original pidx midx tally w tally' w'
        (all_judged, findings, recorded) h =
      let case_id = case_name seed_path pidx midx in
      let mutated = (mutate_bytes ctx.machine.random_byte original midx w.drawn).0 in
      let (vector, w2, built, h2) =
        bind-eq-ok (lift_result (build_fuzz_vector base path mutated case_id)) _ _ h in
      let (result, w3, at, h3) = bind-eq-ok (evaluate_mutation_case ctx vector case_id) _ w2 h2 in
      let (id, judged) = evaluate_mutation_case-eq-ok ctx vector case_id w2 at in
      let (files, w4, saved, h4) =
        bind-eq-ok (save ctx (is_saved result.verdict) case_id vector) _ w3 h3 in
      let row : FuzzCase = record {
        case_result = result;
        seed_vector = seed_path;
        mutated_path = path;
        mutated_size = length mutated;
      } in
      let unchanged : w3.written ≡ w.written =
        evaluate_mutation_case-WritesNothing ctx vector case_id w2 result w3 at
        ∙ lift_result-WritesNothing (build_fuzz_vector base path mutated case_id) _ vector w2
            built in
      let named =
        build_fuzz_vector-HasId base path mutated case_id vector (lift_result-eq-ok _ _ built).0 in
      let grown =
        save-Recorded ctx start result.verdict tally row vector w3 files w4 refl
          (subst (HasId vector) (sym id) named)
          (subst (λ x. save ctx (is_saved result.verdict) x vector w3 ≡ ok (files, w4)) (sym id)
            saved)
          (subst (Recorded ctx.minimized_dir start tally.cases tally.findings tally.saved)
            (sym unchanged) recorded) in
      pure-Keeps (add_case tally row files) w4 tally' w'
        (
          All-append _ tally.cases (row ∷ []) all_judged (judged, tt),
          ap (λ xs. xs ++ one_if (is_found_bug result.verdict) row) findings
              ∙ sym (bugs_of-append tally.cases row),
          grown,
        )
        h4

  fuzz_mutations-Keeps :
      (seed_path : String) (base : Value) (path : List Part) (original : List ℕ) (pidx n midx : ℕ)
      → Keeps (fuzz_mutations ctx seed_path base path original pidx n midx)
  unfolding fuzz_mutations
  fuzz_mutations-Keeps seed_path base path original pidx zero midx tally w tally' w' kept h =
      pure-Keeps tally w tally' w' kept h
  fuzz_mutations-Keeps seed_path base path original pidx (suc n) midx tally w tally' w' kept h =
      let (next, w1, at, h1) =
        bind-eq-ok (fuzz_one ctx seed_path base path original pidx midx tally) _ w h in
      fuzz_mutations-Keeps seed_path base path original pidx n (suc midx) next w1 tally' w'
        (fuzz_one-Keeps seed_path base path original pidx midx tally w next w1 kept at) h1

  fuzz_text-Keeps :
      (mode seed_path : String) (base : Value) (path : List Part) (pidx : ℕ)
      (original : Option (List ℕ))
      → Keeps (fuzz_text ctx mode seed_path base path pidx original)
  fuzz_text-Keeps mode seed_path base path pidx none tally w tally' w' kept h =
      pure-Keeps tally w tally' w' kept h
  fuzz_text-Keeps mode seed_path base path pidx (some original) tally w tally' w' kept h =
      fuzz_mutations-Keeps seed_path base path original pidx (per_path mode) 0 tally w tally' w'
        kept h

  fuzz_paths-Keeps :
      (mode seed_path : String) (base : Value) (paths : List (List Part)) (pidx : ℕ)
      → Keeps (fuzz_paths ctx mode seed_path base paths pidx)
  unfolding fuzz_paths
  fuzz_paths-Keeps mode seed_path base [] pidx tally w tally' w' kept h =
      pure-Keeps tally w tally' w' kept h
  fuzz_paths-Keeps mode seed_path base (path ∷ paths) pidx tally w tally' w' kept h =
      let (input, w1, is_input, h1) =
        bind-eq-ok (lift_result (get_item base (key "input"))) _ w h in
      let (raw, w2, is_raw, h2) = bind-eq-ok (lift_result (get_at_path input path)) _ w1 h1 in
      let (next, w3, at, h3) =
        bind-eq-ok (fuzz_text ctx mode seed_path base path pidx (original_of ctx raw) tally) _ w2
          h2 in
      let unchanged : w2.written ≡ w.written =
        lift_result-WritesNothing (get_at_path input path) w1 raw w2 is_raw
        ∙ lift_result-WritesNothing (get_item base (key "input")) w input w1 is_input in
      fuzz_paths-Keeps mode seed_path base paths (suc pidx) next w3 tally' w'
        (fuzz_text-Keeps mode seed_path base path pidx (original_of ctx raw) tally w2 next w3
          (subst (IsTallied ctx start tally) (sym unchanged) kept) at)
        h3

  fuzz_seeds-Keeps : (mode : String) (seeds : List String) → Keeps (fuzz_seeds ctx mode seeds)
  unfolding fuzz_seeds
  fuzz_seeds-Keeps mode [] tally w tally' w' kept h = pure-Keeps tally w tally' w' kept h
  fuzz_seeds-Keeps mode (seed_path ∷ seeds) tally w tally' w' kept h =
      let (base, w1, is_base, h1) = bind-eq-ok (load_json ctx.machine seed_path) _ w h in
      let (input, w2, is_input, h2) =
        bind-eq-ok (lift_result (output_get base "input" (obj end))) _ w1 h1 in
      let (next, w3, at, h3) =
        bind-eq-ok (fuzz_paths ctx mode seed_path base (find_b64_paths input []) 0 tally) _ w2 h2 in
      let unchanged : w2.written ≡ w.written =
        lift_result-WritesNothing (output_get base "input" (obj end)) w1 input w2 is_input
        ∙ load_json-WritesNothing ctx.machine seed_path w base w1 is_base in
      fuzz_seeds-Keeps mode seeds next w3 tally' w'
        (fuzz_paths-Keeps mode seed_path base (find_b64_paths input []) 0 tally w2 next w3
          (subst (IsTallied ctx start tally) (sym unchanged) kept) at)
        h3

pub run_fuzz-IsTallied :
    (ctx : Context) (mode : String) (w : World) (tally : Tally) (w' : World)
    → run_fuzz ctx mode w ≡ ok (tally, w')
    → IsTallied ctx w.written tally w'.written
unfolding run_fuzz
run_fuzz-IsTallied ctx mode w tally w' h =
    fuzz_seeds-Keeps ctx w.written mode fuzz_seed_vectors _ w tally w' (tt, refl, at_start) h
