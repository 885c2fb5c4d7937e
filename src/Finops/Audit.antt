-- ===== src/Finops/Audit.antt =====
-- src/core/finops_invariants/audit.py: `audit_dataset`.
--
-- A key of a dataset is missing or has an amount of `Numbers`; the messages of the violations are
-- left out. The severities are the words of RISK_LEVELS.
pub mod Clean
pub mod Steps
mod Tests
use wasteless.Common.{
  is_in, ℕ, String, Bool, true, false, not, ◌&&◌, Option, none, some, List, [], ◌∷◌, ◌++◌, str_eq,
  leb, is_some, if◌then◌else◌,
}
use wasteless.Python.{
  Numbers, Exn, Result, ok, raised, raise_if, error, type_error, value_error, invariant_violated,
  ◌>>=◌, ◌>>◌,
}
use wasteless.Finops.Amounts.{
  hundred, annualize, waste_percentage, budget_used_percentage, validate_forecast, zero_f, is_zero,
  validate_service_breakdown, validate_recommendation_saving, validate_potential_vs_detected,
}
use wasteless.Finops.Risk.{RiskLevel, low, medium, high, critical, validate_risk_level}

pub data Rule : Type 0 where
  missing_currency waste_within_spend potential_within_detected yearly_is_monthly_x12 : Rule
  reduction_recomputable forecast_not_below_spend budget_used_recomputable : Rule
  service_sum_matches_total : Rule
  duplicate_resource : String → Rule
  saving_within_resource_cost risk_floor : Rule

pub record Violation : Type 0 where
  pub rule : Rule
  pub severity : RiskLevel

-- One entry of `recommendations`. `none` is a missing key. Where null is not read like a missing
-- key, `some none` is null: an amount, and a risk, for which it also is any word that is no level.
pub record Advice (F : Type 0) : Type 0 where
  pub resource_id : Option String
  pub potential_saving : Option (Option F)
  pub monthly_cost : Option (Option F)
  pub action : Option String
  pub environment : Option String
  pub risk : Option (Option RiskLevel)
  pub owner : Option String

-- The lists are empty where the keys are missing.
pub record Dataset (F : Type 0) : Type 0 where
  pub currency : Option String
  pub cloud_spend_monthly : Option F
  pub detected_waste_monthly : Option F
  pub potential_savings_monthly : Option F
  pub potential_savings_yearly : Option F
  pub reduction_percentage : Option F
  pub budget_monthly : Option F
  pub budget_used_percentage : Option F
  pub forecast_end_of_month : Option F
  pub services : List (String × F)
  pub recommendations : List (Advice F)

-- `dict.get(key, default)`
abbrev pub get_or : {A : Type 0} → A → Option A → A
get_or default none = default
get_or default (some x) = x

-- `violations.append(…)`
abbrev pub append : Rule → RiskLevel → List Violation → List Violation
append rule severity vs = vs ++ record { rule = rule; severity = severity } ∷ []

abbrev pub append_if : Bool → Rule → RiskLevel → List Violation → List Violation
append_if true rule severity vs = append rule severity vs
append_if false rule severity vs = vs

-- `except FinOpsInvariantError`
abbrev pub is_invariant_error : Exn → Bool
is_invariant_error (error invariant_violated) = true
is_invariant_error _ = false

-- `_check`, which lets pass what is no FinOpsInvariantError
abbrev pub caught :
    {A : Type 0} → Rule → RiskLevel → Result A → List Violation → Result (List Violation)
caught rule severity (raised e) vs =
    if is_invariant_error e then ok (append rule severity vs) else raised e
caught rule severity (ok x) vs = ok vs

-- `_check` of the invariants that raise nothing but a FinOpsInvariantError
abbrev pub checked : {A : Type 0} → Rule → RiskLevel → Result A → List Violation → List Violation
checked rule severity (raised e) vs = append rule severity vs
checked rule severity (ok x) vs = vs

abbrev pub check_currency : Option String → List Violation → List Violation
check_currency none vs = append missing_currency high vs
check_currency (some c) vs = append_if (str_eq c "") missing_currency high vs

-- `severity_order`
abbrev pub severity_order : RiskLevel → ℕ
severity_order critical = 0
severity_order high = 1
severity_order medium = 2
severity_order low = 3

-- `violations.sort(key = …)`, which is stable
unfoldable pub insert : Violation → List Violation → List Violation
insert v [] = v ∷ []
insert v (w ∷ ws) =
    let rest = insert v ws in
    if leb (severity_order v.severity) (severity_order w.severity) then v ∷ w ∷ ws else w ∷ rest

unfoldable pub sort : List Violation → List Violation
sort [] = []
sort (v ∷ vs) = insert v (sort vs)

module _ {F : Type 0} ⦃n : Numbers F⦄ where
  abbrev pub check_waste : Option F → Option F → List Violation → List Violation
  check_waste (some spend) (some waste) vs =
      checked waste_within_spend critical (waste_percentage waste spend) vs
  check_waste _ _ vs = vs

  abbrev pub check_potential : Option F → Option F → List Violation → List Violation
  check_potential (some waste) (some potential) vs =
      checked potential_within_detected critical (validate_potential_vs_detected potential waste) vs
  check_potential _ _ vs = vs

  abbrev pub check_yearly : Option F → Option F → List Violation → List Violation
  check_yearly (some potential) (some yearly) vs =
      append_if (n.lt (n.decimal 1 2) (n.absolute (n.sub yearly (annualize potential))))
        yearly_is_monthly_x12 high vs
  check_yearly _ _ vs = vs

  abbrev pub check_reduction : Option F → Option F → Option F → List Violation → List Violation
  check_reduction (some reduction) (some spend) (some potential) vs =
      append_if
        (not (is_zero spend)
          && n.lt (n.decimal 10 1)
              (n.absolute (n.sub reduction (n.mul (n.div potential spend) hundred))))
        reduction_recomputable high vs
  check_reduction _ _ _ vs = vs

  abbrev pub check_forecast : Option F → Option F → List Violation → List Violation
  check_forecast (some forecast) (some spend) vs =
      checked forecast_not_below_spend critical (validate_forecast forecast spend) vs
  check_forecast _ _ vs = vs

  -- This one is called outside `_check`.
  abbrev pub check_budget :
      Option F → Option F → Option F → List Violation → Result (List Violation)
  check_budget (some budget) (some spend) (some budget_used) vs = do
    actual ← budget_used_percentage spend budget
    ok (
        append_if (n.lt (n.decimal 5 1) (n.absolute (n.sub budget_used actual)))
          budget_used_recomputable medium vs)
  check_budget _ _ _ vs = ok vs

  -- `{s["name"]: s["monthly_cost"] for s in services}`, in the order of its keys
  abbrev pub put_cost : String → F → List (String × F) → List (String × F)
  put_cost name x [] = (name, x) ∷ []
  put_cost name x ((key, y) ∷ costs) =
      let rest = put_cost name x costs in
      if str_eq key name then (key, x) ∷ costs else (key, y) ∷ rest

  abbrev pub costs_of : List (String × F) → List (String × F) → List F
  costs_of [] [] = []
  costs_of ((key, y) ∷ costs) [] = y ∷ costs_of costs []
  costs_of costs ((name, x) ∷ services) = costs_of (put_cost name x costs) services

  abbrev pub check_services :
      List (String × F) → Option F → List Violation → Result (List Violation)
  check_services (s ∷ services) (some spend) vs =
      caught service_sum_matches_total medium
        (validate_service_breakdown (costs_of [] (s ∷ services)) spend (n.decimal 5 3)) vs
  check_services _ _ vs = ok vs

  abbrev pub id_of : Advice F → String
  id_of r = get_or "?" r.resource_id

  abbrev pub saving_of : Advice F → Option F
  saving_of r = get_or (some (n.decimal 0 1)) r.potential_saving

  abbrev pub cost_of : Advice F → Option F
  cost_of r = get_or (some (n.decimal 0 1)) r.monthly_cost

  abbrev pub risk_of : Advice F → Option RiskLevel
  risk_of r = get_or (some low) r.risk

  -- `validate_recommendation_saving`, whose comparisons raise a TypeError on null
  abbrev pub check_saving : Option F → Option F → Result F
  check_saving none cost = raised (error type_error)
  check_saving (some saving) none = do
    raise_if (n.lt saving zero_f) (error invariant_violated)
    raised (error type_error)
  check_saving (some saving) (some cost) = validate_recommendation_saving saving cost

  -- The checks before the budget.
  abbrev pub first_checks : Dataset F → List Violation
  first_checks d = check_forecast d.forecast_end_of_month d.cloud_spend_monthly (
      check_reduction d.reduction_percentage d.cloud_spend_monthly d.potential_savings_monthly (
        check_yearly d.potential_savings_monthly d.potential_savings_yearly (
          check_potential d.detected_waste_monthly d.potential_savings_monthly (
            check_waste d.cloud_spend_monthly d.detected_waste_monthly
              (check_currency d.currency [])))))

  module _ (lower : String → String) where
    -- `validate_risk_level`, where RISK_LEVELS.index raises a ValueError on what is no level
    abbrev pub check_risk : Advice F → Option RiskLevel → Result RiskLevel
    check_risk r none = raised (error value_error)
    check_risk r (some level) =
        validate_risk_level lower (get_or "" r.action) r.environment level r.owner

    abbrev pub check_recommendation :
        List String → Advice F → List Violation → Result (List Violation)
    check_recommendation seen r vs = do
      ws ←
          caught saving_within_resource_cost high (check_saving (saving_of r) (cost_of r))
            (append_if (is_in seen (id_of r)) (duplicate_resource (id_of r)) high vs)
      caught risk_floor critical (check_risk r (risk_of r)) ws

    -- The loop over the recommendations.
    unfoldable pub check_recommendations :
        List String → List (Advice F) → List Violation → Result (List Violation)
    check_recommendations seen [] vs = ok vs
    check_recommendations seen (r ∷ rs) vs = do
      ws ← check_recommendation seen r vs
      check_recommendations (id_of r ∷ seen) rs ws

    unfoldable pub audit_dataset : Dataset F → Result (List Violation)
    audit_dataset d = do
      vs ←
          check_budget d.budget_monthly d.cloud_spend_monthly d.budget_used_percentage
            (first_checks d)
      ws ← check_services d.services d.cloud_spend_monthly vs
      us ← check_recommendations [] d.recommendations ws
      ok (sort us)
