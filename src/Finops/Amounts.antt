-- ===== src/Finops/Amounts.antt =====
-- src/core/finops_invariants: arithmetic.py, savings.py and forecast.py.
use wasteless.Common.{
  ℕ, String, Bool, ◌&&◌, ◌||◌, Option, none, some, List, [], ◌∷◌, str_eq, ◌==◌, if◌then◌else◌,
}
use wasteless.Common.Int.{pos}
use wasteless.Python.{
  Numbers, error, Failure, zero_division, invariant_violated, Result, ok, ◌>>◌, raise_if,
}

-- One entry of `recommendations`, with the amount that its two keys come to.
pub record Saving (F : Type 0) : Type 0 where
  pub resource_id : String
  pub potential_saving : Option F
  pub saving : Option F

module _ {F : Type 0} ⦃n : Numbers F⦄ where
  abbrev pub zero_f : F
  zero_f = n.of_int (pos 0)

  abbrev pub hundred : F
  hundred = n.of_int (pos 100)

  unfoldable pub annualize : F → F
  annualize monthly = n.mul monthly (n.of_int (pos 12))

  unfoldable pub waste_percentage : F → F → Result F
  waste_percentage waste_monthly spend_monthly = do
    raise_if (n.le spend_monthly zero_f) (error invariant_violated)
    raise_if (n.lt waste_monthly zero_f) (error invariant_violated)
    raise_if (n.lt spend_monthly waste_monthly) (error invariant_violated)
    ok (n.mul (n.div waste_monthly spend_monthly) hundred)

  unfoldable pub budget_used_percentage : F → F → Result F
  budget_used_percentage spent budget = do
    raise_if (n.le budget zero_f) (error invariant_violated)
    raise_if (n.lt spent zero_f) (error invariant_violated)
    ok (n.mul (n.div spent budget) hundred)

  unfoldable pub validate_forecast : F → F → Result F
  validate_forecast forecast_end_of_month current_spend_mtd = do
    raise_if (n.lt forecast_end_of_month current_spend_mtd) (error invariant_violated)
    ok forecast_end_of_month

  unfoldable pub linear_forecast : F → F → F → Result F
  linear_forecast current_spend days_elapsed days_in_month = do
    raise_if (n.le days_elapsed zero_f || n.le days_in_month zero_f) (error invariant_violated)
    raise_if (n.lt days_in_month days_elapsed) (error invariant_violated)
    ok (n.mul (n.div current_spend days_elapsed) days_in_month)

  unfoldable pub forecast_after_remediation : F → F → F → Result F
  forecast_after_remediation forecast validated_low_risk_savings current_spend_mtd =
      validate_forecast (n.sub forecast validated_low_risk_savings) current_spend_mtd

  unfoldable pub flags_budget_overrun : F → F → Bool
  flags_budget_overrun forecast budget = n.lt budget forecast

  abbrev pub sum_from : F → List F → F
  sum_from total [] = total
  sum_from total (x ∷ xs) = sum_from (n.add total x) xs

  -- `max(a, b)` of Python: the first of two that are equal
  abbrev pub larger : F → F → F
  larger a b = if n.lt a b then b else a

  abbrev pub is_zero : F → Bool
  is_zero x = n.le x zero_f && n.le zero_f x

  -- The second message has the share of the gap in the total.
  abbrev pub unaccounted : F → Failure
  unaccounted total_spend = if is_zero total_spend then zero_division else invariant_violated

  -- `service_costs` is the list of its values.
  unfoldable pub validate_service_breakdown : List F → F → F → Result F
  validate_service_breakdown service_costs total_spend tolerance =
      let gap = n.sub total_spend (sum_from zero_f service_costs) in
      let margin = n.mul (n.absolute total_spend) tolerance in
      raise_if (n.lt gap (n.mul (n.sub zero_f (n.absolute total_spend)) tolerance))
        (error invariant_violated)
      >> raise_if (n.lt margin gap) (error (unaccounted total_spend))
      >> ok (larger gap zero_f)

  unfoldable pub validate_recommendation_saving : F → F → Result F
  validate_recommendation_saving saving_monthly resource_monthly_cost = do
    raise_if (n.lt saving_monthly zero_f) (error invariant_violated)
    raise_if (n.lt resource_monthly_cost saving_monthly) (error invariant_violated)
    ok saving_monthly

  unfoldable pub validate_potential_vs_detected : F → F → Result F
  validate_potential_vs_detected potential_savings_monthly detected_waste_monthly = do
    raise_if (n.lt detected_waste_monthly potential_savings_monthly) (error invariant_violated)
    ok potential_savings_monthly

  -- `rec.get("potential_saving", rec.get("saving", 0.0))`
  abbrev pub amount_of : Saving F → F
  amount_of r = elim (r.potential_saving) [
    | some x ↦ x
    | none ↦ elim (r.saving) [ some x ↦ x | none ↦ zero_f ]
  ]

  -- `best_per_resource`, in the order of its keys
  abbrev pub best_for : String → List (String × F) → F
  best_for rid [] = zero_f
  best_for rid ((key, x) ∷ best) = if str_eq key rid then x else best_for rid best

  -- `best[rid] = max(best.get(rid, 0.0), saving)`
  unfoldable pub keep_best : String → F → List (String × F) → List (String × F)
  keep_best rid x [] = (rid, larger zero_f x) ∷ []
  keep_best rid x ((key, y) ∷ best) =
      if str_eq key rid then (key, larger y x) ∷ best else (key, y) ∷ keep_best rid x best

  unfoldable pub best_per_resource : List (String × F) → List (Saving F) → List (String × F)
  best_per_resource best [] = best
  best_per_resource best (r ∷ rs) =
      best_per_resource (keep_best r.resource_id (amount_of r) best) rs

  abbrev amounts : List (String × F) → List F
  amounts [] = []
  amounts ((key, x) ∷ best) = x ∷ amounts best

  unfoldable pub deduplicated_total_savings : List (Saving F) → F
  deduplicated_total_savings rs = sum_from zero_f (amounts (best_per_resource [] rs))

  unfoldable pub validate_realized_savings : F → ℕ → Result F
  validate_realized_savings realized_monthly completed_actions = do
    raise_if (n.lt zero_f realized_monthly && completed_actions == 0) (error invariant_violated)
    ok realized_monthly
