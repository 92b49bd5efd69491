-- ===== src/Stabilization/Judging.antt =====
-- The verdict of a mutation case.
use grain_protocol.Base.{
  ◌≡◌, ◌≢◌, refl, ◌↔◌, ◌⊎◌, inl, inr, String, Bool, true, false, ◌||◌, Option, none, some, ok,
  lookup,
}
use grain_protocol.Json.{Value, null, bool, obj, Fields, fields, get_or, or_default, truthy}
use grain_protocol.Stabilization.Campaign.{RunnerResult}
use grain_protocol.Stabilization.Verdicts.{
  Verdict, Reason, unparseable_output, found_bug, intentionally_rejected, interesting_accept, Case,
  answer_of, matched, judge_mutation, verdict_or, verdict_of,
}

abbrev pub Crashed : Case → Type 0
Crashed c = (c.rust.crash ≡ true) ⊎ (c.ts.crash ≡ true)

-- The verdicts by what the case keeps of the two answers: a bug is found when a runner has crashed or
-- when the answers differ, and else the input is rejected or accepted by both.
abbrev pub IsJudged : Case → Type 0
IsJudged c =
    ((c.verdict ≡ found_bug) ↔ (Crashed c ⊎ (truthy c.rust.answered ≢ truthy c.ts.answered)))
    × ((c.verdict ≡ intentionally_rejected) ↔ (
        (c.rust.crash ≡ false)
        × (c.ts.crash ≡ false)
        × (truthy c.rust.answered ≡ true)
        × (truthy c.ts.answered ≡ true)))
    × ((c.verdict ≡ interesting_accept) ↔ (
        (c.rust.crash ≡ false)
        × (c.ts.crash ≡ false)
        × (truthy c.rust.answered ≡ false)
        × (truthy c.ts.answered ≡ false)))

abbrev pub IsObject : Value → Type 0
IsObject v = (fs : Fields) × (v ≡ obj fs)

-- The default of `pass` is false where a verdict is reached, and null where the answer is kept.
truthy-or_default :
    (o : Option Value) → truthy (or_default (bool false) o) ≡ truthy (or_default null o)
unfolding truthy
truthy-or_default none = refl
truthy-or_default (some v) = refl

abbrev decide : Bool → Bool → Bool → Verdict × Reason
decide true p q = (found_bug, unparseable_output)
decide false p q = verdict_of p q

abbrev pub Decided : Bool → Bool → Bool → Bool → Verdict → Type 0
Decided a b p q v =
    ((v ≡ found_bug) ↔ (((a ≡ true) ⊎ (b ≡ true)) ⊎ (p ≢ q)))
    × ((v ≡ intentionally_rejected) ↔ ((a ≡ false) × (b ≡ false) × (p ≡ true) × (q ≡ true)))
    × ((v ≡ interesting_accept) ↔ ((a ≡ false) × (b ≡ false) × (p ≡ false) × (q ≡ false)))

neither {ℓ κ} : {N : Type ℓ} {P : Type κ} → (N → ⊥) → (((false ≡ true) ⊎ (false ≡ true)) ⊎ N) → P
neither never (inl (inl h)) = cc
neither never (inl (inr h)) = cc
neither never (inr n) = absurd (never n)

decide-Decided : (a b p q : Bool) → Decided a b p q (decide (a || b) p q).0
decide-Decided true b p q =
    ((λ _. inl (inl refl), λ _. refl), (λ h. cc, λ h. cc), (λ h. cc, λ h. cc))
decide-Decided false true p q =
    ((λ _. inl (inr refl), λ _. refl), (λ h. cc, λ h. cc), (λ h. cc, λ h. cc))
decide-Decided false false true true = (
  (λ h. cc, λ h. neither (λ e. e refl) h),
  (λ _. (refl, refl, refl, refl), λ _. refl),
  (λ h. cc, λ h. cc),
)
decide-Decided false false false false = (
  (λ h. cc, λ h. neither (λ e. e refl) h),
  (λ h. cc, λ h. cc),
  (λ _. (refl, refl, refl, refl), λ _. refl),
)
decide-Decided false false true false =
    ((λ _. inr (λ e. cc), λ _. refl), (λ h. cc, λ h. cc), (λ h. cc, λ h. cc))
decide-Decided false false false true =
    ((λ _. inr (λ e. cc), λ _. refl), (λ h. cc, λ h. cc), (λ h. cc, λ h. cc))

verdict_or-decide :
    (crash : Bool) (rust ts : RunnerResult) (fs gs : Fields)
    → rust.output ≡ obj fs
    → ts.output ≡ obj gs
    → verdict_or crash rust ts
      ≡ ok (decide crash (truthy (get_or fs "pass" null)) (truthy (get_or gs "pass" null)))
unfolding verdict_or matched get_or
verdict_or-decide true rust ts fs gs h k = refl
verdict_or-decide false rust ts fs gs h k =
    rw
      (
        h,
        k,
        truthy-or_default (lookup "pass" (fields fs)),
        truthy-or_default (lookup "pass" (fields gs)),
      )
      refl

-- Of two answers that are objects, a case is made, and its verdict is the one that they call for.
pub judged :
    (case_id : String) (rust ts : RunnerResult) (fs gs : Fields)
    → rust.output ≡ obj fs
    → ts.output ≡ obj gs
    → (c : Case) × (judge_mutation case_id rust ts ≡ ok c) × (c.id ≡ case_id) × IsJudged c
unfolding judge_mutation answer_of
judged case_id rust ts fs gs h k =
    rw (verdict_or-decide (rust.crash || ts.crash) rust ts fs gs h k)
      (rw (h, k) (_, refl, refl, decide-Decided rust.crash ts.crash _ _))
