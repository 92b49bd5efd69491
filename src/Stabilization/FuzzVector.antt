-- ===== src/Stabilization/FuzzVector.antt =====
-- `build_fuzz_vector` of tools/stabilization/run_rc_stab.py.
use grain_protocol.Base.{ℕ, String, false, true, List, Result, ◌>>=◌}
use grain_protocol.Base64.{encode}
use grain_protocol.Json.{Value, bool, str, obj, arr, nil, end, field}
use grain_protocol.Stabilization.Campaign.{Failure}
use grain_protocol.Stabilization.Paths.{Part, key, get_item, set_item, set_at_path}

-- What a mutated vector is said to expect.
abbrev pub rejection : Value
rejection = obj (field "pass" (bool false) (field "diag_contains" (arr nil) end))

-- The copy is changed in place: its input first, then its own members.
unfoldable pub build_fuzz_vector : Value → List Part → List ℕ → String → Result Failure Value
build_fuzz_vector base path mbytes case_id = do
  input ← get_item base (key "input")
  mutated ← set_at_path input path (str (encode mbytes))
  with_input ← set_item base (key "input") mutated
  named ← set_item with_input (key "vector_id") (str case_id)
  strict ← set_item named (key "strict") (bool true)
  set_item strict (key "expect") rejection
