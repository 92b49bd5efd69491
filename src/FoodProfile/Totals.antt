-- ===== src/FoodProfile/Totals.antt =====
-- The sums over the events of the pilot, and what an accepted profile has established.
use grain_protocol.Base.{
  ℕ, suc, ◌≡◌, ◌↔◌, ◌∙◌, ap, sym, subst, List, [], ◌∷◌, ok, >>=-eq-ok, ok-injective,
}
use grain_protocol.Base.Int.{ℤ, pos, ◌+ℤ◌, +ℤ_assoc, +ℤ_comm, zero-+ℤ}
use grain_protocol.Json.{Value}
use grain_protocol.FoodProfile.Pilot.{validate_food_event, sum_events}
use grain_protocol.FoodProfile.Intake.{IsIntakeEvent, validate_food_event_iff}

-- Events with the kcal means and variances that they report.
pub data Reported : List Value → List (ℤ × ℤ) → Type 0 where
  none_left : Reported [] []
  event :
      {v : Value} {vs : List Value} {mean var : ℤ} {rest : List (ℤ × ℤ)}
      → IsIntakeEvent v mean var
      → Reported vs rest
      → Reported (v ∷ vs) ((mean, var) ∷ rest)

abbrev pub sum_of : (ℤ × ℤ → ℤ) → List (ℤ × ℤ) → ℤ
sum_of part [] = pos 0
sum_of part (p ∷ ps) = part p +ℤ sum_of part ps

abbrev pub mean_of : ℤ × ℤ → ℤ
mean_of p = p.0

abbrev pub var_of : ℤ × ℤ → ℤ
var_of p = p.1

abbrev Totals : List Value → ℤ → ℤ → ℤ × ℤ → Type 0
Totals events sum_mean sum_var sums =
    (ps : List (ℤ × ℤ)) × Reported events ps
    × (sums.0 ≡ sum_mean +ℤ sum_of mean_of ps)
    × (sums.1 ≡ sum_var +ℤ sum_of var_of ps)

pair : {a b c d : ℤ} → a ≡ c → b ≡ d → ◌≡◌ {A = ℤ × ℤ} (a, b) (c, d)
pair p q = λ i. (p i, q i)

+ℤ_zero : (a : ℤ) → a +ℤ pos 0 ≡ a
+ℤ_zero a = +ℤ_comm a (pos 0) ∙ zero-+ℤ a

sum_events-Totals :
    (index : ℕ) (sum_mean sum_var : ℤ) (events : List Value) (sums : ℤ × ℤ)
    → sum_events index sum_mean sum_var events ≡ ok sums
    → Totals events sum_mean sum_var sums
unfolding sum_events
sum_events-Totals index sum_mean sum_var [] sums h =
    subst (Totals [] sum_mean sum_var) (ok-injective h)
      ([], none_left, sym (+ℤ_zero sum_mean), sym (+ℤ_zero sum_var))
sum_events-Totals index sum_mean sum_var (v ∷ events) sums h =
    let ((mean, var), one, rest) = >>=-eq-ok (validate_food_event v index) _ h in
    let (ps, reported, means, vars) =
      sum_events-Totals (suc index) (sum_mean +ℤ mean) (sum_var +ℤ var) events sums rest in
    (
      (mean, var) ∷ ps,
      event ((validate_food_event_iff v index mean var).0 one) reported,
      means ∙ +ℤ_assoc sum_mean mean (sum_of mean_of ps),
      vars ∙ +ℤ_assoc sum_var var (sum_of var_of ps),
    )

Totals-sum_events :
    (index : ℕ) (sum_mean sum_var : ℤ) {events : List Value} {ps : List (ℤ × ℤ)}
    → Reported events ps
    → sum_events index sum_mean sum_var events
      ≡ ok (sum_mean +ℤ sum_of mean_of ps, sum_var +ℤ sum_of var_of ps)
unfolding sum_events
Totals-sum_events index sum_mean sum_var none_left =
    ap ok (pair (sym (+ℤ_zero sum_mean)) (sym (+ℤ_zero sum_var)))
Totals-sum_events index sum_mean sum_var
      (event {v} {mean = mean} {var = var} {rest = rest} is_event reported) =
    rw ((validate_food_event_iff v index mean var).1 is_event) (
      Totals-sum_events (suc index) (sum_mean +ℤ mean) (sum_var +ℤ var) reported
      ∙ ap ok (
          pair (+ℤ_assoc sum_mean mean (sum_of mean_of rest))
            (+ℤ_assoc sum_var var (sum_of var_of rest))))

-- The loop over the events succeeds exactly on intake events, and returns the sums of their means
-- and of their variances.
pub sum_events_iff :
    (events : List Value) (sums : ℤ × ℤ)
    → (sum_events 0 (pos 0) (pos 0) events ≡ ok sums)
      ↔ ((ps : List (ℤ × ℤ)) × Reported events ps × (sums ≡ (sum_of mean_of ps, sum_of var_of ps)))
sum_events_iff events sums = (
  λ h.
      let (ps, reported, means, vars) = sum_events-Totals 0 (pos 0) (pos 0) events sums h in
      (ps, reported, pair (means ∙ zero-+ℤ _) (vars ∙ zero-+ℤ _)),
  λ (ps, reported, same).
      Totals-sum_events 0 (pos 0) (pos 0) reported
      ∙ ap ok (pair (zero-+ℤ _) (zero-+ℤ _) ∙ sym same),
)
