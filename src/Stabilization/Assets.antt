-- ===== src/Stabilization/Assets.antt =====
-- The assets of a release, as `run_rollback_rehearsal` of tools/stabilization/run_rc_stab.py reads them.
use grain_protocol.Base.{
  String, Bool, true, false, List, [], ◌∷◌, Result, ok, err, attribute_error, type_error, ◌>>=◌,
}
use grain_protocol.Base.Text.{codes, has_prefix}
use grain_protocol.Json.{Value, str, obj, arr, Items, nil, cons, end, field}
use grain_protocol.Stabilization.Campaign.{Failure, output_get}

-- `[a.get("name", "") for a in assets]` of a list.
unfoldable pub asset_names : Items → Result Failure (List Value)
asset_names nil = ok []
asset_names (cons asset assets) = do
  name ← output_get asset "name" (str "")
  names ← asset_names assets
  ok (name ∷ names)

-- What is no list may be empty; of what else an object or a text yields, nothing has a `get`.
unfoldable pub names_of : Value → Result Failure (List Value)
names_of (arr assets) = asset_names assets
names_of (obj end) = ok []
names_of (obj (field k v fs)) = err attribute_error
names_of (str String.[]) = ok []
names_of (str (String.◌∷◌ c s)) = err attribute_error
names_of _ = err type_error

-- `any(name.startswith(prefix) for name in assets)`, up to the first that does.
unfoldable pub any_starts : String → List Value → Result Failure Bool
any_starts prefix [] = ok false
any_starts prefix (str name ∷ names) =
    let rest = any_starts prefix names in starts (has_prefix (codes name) (codes prefix)) rest
  where
    starts : Bool → Result Failure Bool → Result Failure Bool
    starts true rest = ok true
    starts false rest = rest
any_starts prefix (name ∷ names) = err attribute_error

abbrev pub and_then : Bool → Result Failure Bool → Result Failure Bool
and_then true rest = rest
and_then false rest = ok false

unfoldable pub release_assets_ok : List Value → Result Failure Bool
release_assets_ok assets = do
  has_evidence ← any_starts "evidence-" assets
  and_then has_evidence (any_starts "interop-evidence-" assets)
