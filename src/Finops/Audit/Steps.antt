-- ===== src/Finops/Audit/Steps.antt =====
-- src/core/finops_invariants/audit.py: what each check of `audit_dataset` has seen where the list of
-- violations is still empty behind it.
use wasteless.Common.{
  ◌≡◌, refl, inl, inr, String, Bool, true, false, Option, none, some, List, [], ◌∷◌, ltb, leb,
  Bool-cases,
}
use wasteless.Python.{ok_inj, Numbers, IsOrdered, Result, ok, raised, raise_if, >>-eq-ok, >>=-eq-ok}
use wasteless.Finops.Amounts.{
  zero_f, waste_percentage, budget_used_percentage, validate_recommendation_saving,
  validate_potential_vs_detected,
}
use wasteless.Finops.Risk.{RiskLevel, rank, medium, minimum_risk_for, validate_risk_level}
use wasteless.Finops.Cascade.{raise_if-passed}
use wasteless.Finops.Audit.{
  Rule, Violation, Dataset, append_if, checked, caught, is_invariant_error, severity_order, insert,
  sort, check_waste, check_potential, check_yearly, check_reduction, check_forecast, check_budget,
  check_services, budget_used_recomputable, first_checks,
}

pub append_if_clean :
    (b : Bool) (rule : Rule) (severity : RiskLevel) (vs : List Violation)
    → append_if b rule severity vs ≡ []
    → (vs ≡ []) × (b ≡ false)
append_if_clean true rule severity [] h = cc
append_if_clean true rule severity (v ∷ vs) h = cc
append_if_clean false rule severity vs h = (h, refl)

pub checked_clean :
    {A : Type 0} (rule : Rule) (severity : RiskLevel) (r : Result A) (vs : List Violation)
    → checked rule severity r vs ≡ []
    → (vs ≡ []) × ((x : A) × (r ≡ ok x))
checked_clean rule severity (raised e) [] h = cc
checked_clean rule severity (raised e) (v ∷ vs) h = cc
checked_clean rule severity (ok x) vs h = (h, (x, refl))

pub caught_clean :
    {A : Type 0} (rule : Rule) (severity : RiskLevel) (r : Result A) (vs : List Violation)
    → caught rule severity r vs ≡ ok []
    → (vs ≡ []) × ((x : A) × (r ≡ ok x))
caught_clean rule severity (raised e) vs h = elim (Bool-cases (is_invariant_error e)) [
  | inl expected ↦
      let one_less = (append_if_clean true rule severity vs (ok_inj (rw expected at h))).1 in
      cc one_less
  | inr other ↦ cc (rw other at h)
]
caught_clean rule severity (ok x) vs h = (ok_inj h, (x, refl))

pub insert_some : (v : Violation) (ws : List Violation) → insert v ws ≡ [] → [] ≡ v ∷ ws
unfolding insert
insert_some v [] h = cc
insert_some v (w ∷ ws) h =
    elim (Bool-cases (leb (severity_order v.severity) (severity_order w.severity))) [
      | inl first ↦ cc (rw first at h)
      | inr later ↦ cc (rw later at h)
    ]

pub sort_clean : (vs : List Violation) → sort vs ≡ [] → vs ≡ []
unfolding sort
sort_clean [] h = refl
sort_clean (v ∷ vs) h = cc (insert_some v (sort vs) h)

module _ (lower : String → String) where
  pub risk_passed :
      (action : String) (environment owner : Option String) (risk : RiskLevel) {level : RiskLevel}
      → validate_risk_level lower action environment risk owner ≡ ok level
      → ltb (rank risk) (rank (minimum_risk_for lower action environment owner)) ≡ false
  unfolding validate_risk_level
  risk_passed action environment owner risk h =
      raise_if-passed _
        (>>-eq-ok
          (raise_if (ltb (rank risk) (rank (minimum_risk_for lower action environment owner))) _) _
          h).0

module _ {F : Type 0} ⦃n : Numbers F⦄ where
  pub waste_passed :
      (spend waste : F) (vs : List Violation)
      → check_waste (some spend) (some waste) vs ≡ []
      → (vs ≡ []) × ((x : F) × (waste_percentage waste spend ≡ ok x))
  waste_passed spend waste vs h = checked_clean _ _ _ vs h

  pub potential_passed :
      (waste potential : F) (vs : List Violation)
      → check_potential (some waste) (some potential) vs ≡ []
      → (vs ≡ []) × ((x : F) × (validate_potential_vs_detected potential waste ≡ ok x))
  potential_passed waste potential vs h = checked_clean _ _ _ vs h

  pub yearly_clean :
      (potential yearly : Option F) (vs : List Violation)
      → check_yearly potential yearly vs ≡ []
      → vs ≡ []
  yearly_clean (some potential) (some yearly) vs h = (append_if_clean _ _ _ vs h).0
  yearly_clean (some potential) none vs h = h
  yearly_clean none yearly vs h = h

  pub reduction_clean :
      (reduction spend potential : Option F) (vs : List Violation)
      → check_reduction reduction spend potential vs ≡ []
      → vs ≡ []
  reduction_clean (some reduction) (some spend) (some potential) vs h =
      (append_if_clean _ _ _ vs h).0
  reduction_clean (some reduction) (some spend) none vs h = h
  reduction_clean (some reduction) none potential vs h = h
  reduction_clean none spend potential vs h = h

  pub forecast_clean :
      (forecast spend : Option F) (vs : List Violation)
      → check_forecast forecast spend vs ≡ []
      → vs ≡ []
  forecast_clean (some forecast) (some spend) vs h = (checked_clean _ _ _ vs h).0
  forecast_clean (some forecast) none vs h = h
  forecast_clean none spend vs h = h

  pub budget_clean :
      (budget spend used : Option F) (vs : List Violation)
      → check_budget budget spend used vs ≡ ok []
      → vs ≡ []
  budget_clean (some budget) (some spend) (some used) vs h =
      let wrong = λ (actual : F). n.lt (n.decimal 5 1) (n.absolute (n.sub used actual)) in
      let (actual, _, rest) =
        >>=-eq-ok (budget_used_percentage spend budget)
          (λ actual. ok (append_if (wrong actual) budget_used_recomputable medium vs)) h in
      (append_if_clean (wrong actual) budget_used_recomputable medium vs (ok_inj rest)).0
  budget_clean (some budget) (some spend) none vs h = ok_inj h
  budget_clean (some budget) none used vs h = ok_inj h
  budget_clean none spend used vs h = ok_inj h

  pub services_clean :
      (services : List (String × F)) (spend : Option F) (vs : List Violation)
      → check_services services spend vs ≡ ok []
      → vs ≡ []
  services_clean (s ∷ services) (some spend) vs h = (caught_clean _ _ _ vs h).0
  services_clean (s ∷ services) none vs h = ok_inj h
  services_clean [] spend vs h = ok_inj h

  pub first_clean :
      (d : Dataset F) (potential waste spend : F)
      → d.cloud_spend_monthly ≡ some spend
      → d.detected_waste_monthly ≡ some waste
      → d.potential_savings_monthly ≡ some potential
      → first_checks d ≡ []
      → ((x : F) × (waste_percentage waste spend ≡ ok x))
        × ((y : F) × (validate_potential_vs_detected potential waste ≡ ok y))
  first_clean d potential waste spend s w p h =
      let f = forecast_clean d.forecast_end_of_month d.cloud_spend_monthly _ h in
      let r =
        reduction_clean d.reduction_percentage d.cloud_spend_monthly d.potential_savings_monthly _
          f in
      let y = yearly_clean d.potential_savings_monthly d.potential_savings_yearly _ r in
      let (before, saved) = potential_passed waste potential _ (rw (w, p) at y) in
      let (_, wasted) = waste_passed spend waste _ (rw s at before) in (wasted, saved)

  pub saving_passed :
      (o : IsOrdered n) (saving cost : F) {accepted : F}
      → validate_recommendation_saving saving cost ≡ ok accepted
      → n.le saving cost ≡ true
  unfolding validate_recommendation_saving
  saving_passed o saving cost h =
      let (_, later) = >>-eq-ok (raise_if (n.lt saving zero_f) _) _ h in
      let (within, _) = >>-eq-ok (raise_if (n.lt cost saving) _) _ later in
      o.not_lt_le cost saving (raise_if-passed _ within)
