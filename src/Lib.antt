-- ===== src/Lib.antt =====
-- The Python tooling of the Grain protocol repository, as far as it decides something: the checks that
-- gate a change on its CI results, on the files it touches, on the conformance vectors, on the
-- contracts of the food profile and the food wallet and on the protection of the branch, and the
-- campaign that stabilizes a release candidate.
--
-- Which file models what (paths from the repository's root):
-- - Base and its children: the shared names; Base/Results has exceptions as values, Base/Text the
--   `str` methods in use, Base/Int Python's integers.
-- - Json: the values that `json.loads` returns, with `dict.get`, `in`, truth values and `==`.
-- - CiGate: tools/ci/evaluate_ci_gate.py.
-- - Report: error codes with their details, `require_equal`, and the files that a check reads.
-- - Regex: the search of Python's `re` with IGNORECASE, by derivatives; Regex/Matching is its meaning,
--   and Regex/Languages reads expressions as predicates on texts.
-- - CiScope: tools/ci/classify_ci_scope.py.
-- - Base64: `base64.b64encode`, and `base64.b64decode` with `validate=True`, as CPython's strict mode
--   decodes; padding beyond the last group, which older versions of CPython let pass, is refused.
-- - Workflows: tools/ci/check_client_workflow_fixtures.py; Workflows/References has the references and
--   the bundles of trust anchors, Workflows/Input and Workflows/Expect the two objects of a fixture, and
--   Workflows/Kinds what each workflow adds. Workflows/Suite, Coverage, Scans,
--   Lifecycle and Resolve hold proofs, and Workflows/Forms the form of a reference.
-- - Vectors: tools/validate_vectors.py; Vectors itself has the walks and the shapes of records and events,
--   Vectors/Names the forms of the identities, Vectors/Operations the rules of three operations,
--   Vectors/Contents the checks of one vector, Vectors/Files the loop and `main`. Shapes, Walks,
--   Accepted, Noted, Covered and Suite hold proofs.
-- - Stabilization: tools/stabilization/run_rc_stab.py. Stabilization/Campaign has the processes and the
--   actions on them, Paths, Bytes, Names and FuzzVector the mutated vectors, Verdicts the judgement of
--   answers, Matrix and Fuzz the two campaigns, Repository, PropertyTests, Reproduction, Rehearsal and
--   Assets the other parts, Counts the report, Outcome the gates, and Stabilization itself `main`. The
--   other modules below it hold proofs.
-- - Drift: tools/ci/check_branch_protection_drift.py; Drift/Rules has the reading of the service's
--   answers, Drift/Active and Drift/Last what the answers say apart from the code, Drift/Protected and
--   Drift/Verdict proofs.
-- - FoodProfile: tools/ci/check_food_profile.py; FoodProfile/Pilot has the checks on values, on an
--   intake event and on the local pilot fixture.
-- - FoodWallet: tools/ci/check_food_wallet_contract.py; FoodWallet/Checks has the checks on single
--   values, FoodWallet/Privacy the search for raw material, FoodWallet/Shapes entries, drafts,
--   candidates, offers and the safe summary. FoodWallet/Forbidden spells out raw material, and
--   Material, Clean, Entry, Draft, Summary and Fixtures hold proofs.
--
-- Correspondence. A function of the source is a function here with the source's name; a loop is a
-- function of its own that recurs on the list it walks, with the variables it changes as arguments. A
-- message is a value that keeps the parts which the source's f-string interpolates. `raise SystemExit`
-- and `raise ValueError` are the cases `exit` and `value_error` of a result, and the exceptions that
-- Python itself raises on a value of the wrong type are cases too. No definition takes fuel. Where the
-- source starts processes or draws random bytes, a function is an action on a state: how many processes
-- were started, how many bytes drawn, and which files written. What the processes return is a parameter.
--
-- Not modelled: reading and writing files, processes and the command line parsers, whose results are
-- arguments of the definitions; the Markdown reports, the archive and the digests of the stabilization
-- campaign, which no decision reads; the other scripts of tools, which mostly scan the repository's own
-- files or build archives and manifests from them; and what is not written in Python.
pub mod Base
pub mod Json
pub mod Report
pub mod Regex
pub mod Base64
pub mod CiGate
pub mod CiScope
pub mod FoodProfile
pub mod FoodWallet
pub mod Workflows
pub mod Vectors
pub mod Stabilization
pub mod Drift
