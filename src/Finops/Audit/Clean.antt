-- ===== src/Finops/Audit/Clean.antt =====
-- src/core/finops_invariants/audit.py, `audit_dataset`: what an audit without a violation shows.
use wasteless.Common.{
  refl, is_in, ◌≡◌, ap, ◌∙◌, String, true, false, Option, none, some, List, [], ◌∷◌, ltb,
}
use wasteless.Python.{ok_inj, Numbers, IsOrdered, ok, raise_if, >>-eq-ok, >>=-eq-ok}
use wasteless.Finops.Amounts.{zero_f}
use wasteless.Finops.Risk.{RiskLevel, rank, high, critical, minimum_risk_for}
use wasteless.Finops.Cascade.{potential_within_spend}
use wasteless.Finops.Audit.{
  Violation, Advice, Dataset, get_or, append_if, check_services, check_saving, check_risk, risk_of,
  id_of, saving_of, cost_of, duplicate_resource, saving_within_resource_cost, risk_floor,
  check_recommendation, check_recommendations, first_checks, audit_dataset,
}
use wasteless.Finops.Audit.Steps.{
  append_if_clean, caught_clean, sort_clean, risk_passed, budget_clean, services_clean, first_clean,
  saving_passed,
}

module _ {F : Type 0} ⦃n : Numbers F⦄ where
  module _ (lower : String → String) where
    -- The saving, the cost and the risk can be read, the saving is within the cost, and the risk no
    -- lower than the floor.
    pub record IsSound (r : Advice F) : Type 0 where
      pub saving : F
      pub cost : F
      pub level : RiskLevel
      pub saving_read : saving_of r ≡ some saving
      pub cost_read : cost_of r ≡ some cost
      pub risk_read : risk_of r ≡ some level
      pub within_cost : n.le saving cost ≡ true
      pub above_floor :
          ltb
            (rank level)
            (rank (minimum_risk_for lower (get_or "" r.action) r.environment r.owner))
          ≡ false

    -- Each is sound, and no resource comes twice.
    abbrev pub AllSound : List String → List (Advice F) → Type 0
    AllSound seen [] = Unit {0}
    AllSound seen (r ∷ rs) =
        IsSound r × (is_in seen (id_of r) ≡ false) × AllSound (id_of r ∷ seen) rs

    saving_sound :
        (o : IsOrdered n) (saving cost : Option F) (x : F)
        → check_saving saving cost ≡ ok x
        → (s : F) × (c : F) × (saving ≡ some s) × (cost ≡ some c) × (n.le s c ≡ true)
    saving_sound o none cost x h = cc h
    saving_sound o (some s) none x h =
        let (_, later) = >>-eq-ok (raise_if (n.lt s zero_f) _) _ h in cc later
    saving_sound o (some s) (some c) x h = (s, c, refl, refl, saving_passed o s c h)

    risk_sound :
        (r : Advice F) (risk : Option RiskLevel) (x : RiskLevel)
        → check_risk lower r risk ≡ ok x
        → (level : RiskLevel) × (risk ≡ some level)
          × (ltb
                (rank level)
                (rank (minimum_risk_for lower (get_or "" r.action) r.environment r.owner))
              ≡ false)
    risk_sound r none x h = cc h
    risk_sound r (some level) x h =
        (level, refl, risk_passed lower (get_or "" r.action) r.environment r.owner level h)

    recommendation_clean :
        (o : IsOrdered n) (seen : List String) (r : Advice F) (vs : List Violation)
        → check_recommendation lower seen r vs ≡ ok []
        → (vs ≡ []) × (is_in seen (id_of r) ≡ false) × IsSound r
    recommendation_clean o seen r vs h =
        let repeats = append_if (is_in seen (id_of r)) (duplicate_resource (id_of r)) high vs in
        let (ws, saved, floored) = >>=-eq-ok _ _ h in
        let (empty, (level, risked)) = caught_clean risk_floor critical _ ws floored in
        let (start, (x, capped)) =
          caught_clean saving_within_resource_cost high (check_saving (saving_of r) (cost_of r))
            repeats (saved ∙ ap ok empty) in
        let (none_before, new) =
          append_if_clean (is_in seen (id_of r)) (duplicate_resource (id_of r)) high vs start in
        let (s, c, s_read, c_read, within) = saving_sound o (saving_of r) (cost_of r) x capped in
        let (l, l_read, above) = risk_sound r (risk_of r) level risked in
        (
          none_before,
          new,
          record {
            saving = s;
            cost = c;
            level = l;
            saving_read = s_read;
            cost_read = c_read;
            risk_read = l_read;
            within_cost = within;
            above_floor = above;
          },
        )

    recommendations-AllSound :
        (o : IsOrdered n) (seen : List String) (rs : List (Advice F)) (vs : List Violation)
        → check_recommendations lower seen rs vs ≡ ok []
        → (vs ≡ []) × AllSound seen rs
    unfolding check_recommendations
    recommendations-AllSound o seen [] vs h = (ok_inj h, tt)
    recommendations-AllSound o seen (r ∷ rs) vs h =
        let (ws, checks, rest) = >>=-eq-ok (check_recommendation lower seen r vs) _ h in
        let (empty, sound) = recommendations-AllSound o (id_of r ∷ seen) rs ws rest in
        let (start, new, one) = recommendation_clean o seen r vs (checks ∙ ap ok empty) in
        (start, (one, new, sound))

    -- Where the spend, the waste and the potential saving of a dataset are all given and its audit
    -- finds no violation, the potential saving is within the spend, each recommendation saves no more
    -- than its resource costs, with a risk that is no lower than the floor of its action, and no two
    -- recommendations name one resource. It is assumed that no float is NaN.
    pub audit_dataset_clean :
        (o : IsOrdered n) (d : Dataset F) (potential waste spend : F)
        → d.cloud_spend_monthly ≡ some spend
        → d.detected_waste_monthly ≡ some waste
        → d.potential_savings_monthly ≡ some potential
        → audit_dataset lower d ≡ ok []
        → (n.le potential spend ≡ true) × AllSound [] d.recommendations
    unfolding audit_dataset
    audit_dataset_clean o d potential waste spend s w p h =
        let (vs, budgeted, rest) = >>=-eq-ok _ _ h in
        let (ws, serviced, later) =
          >>=-eq-ok (check_services d.services d.cloud_spend_monthly vs) _ rest in
        let (us, advised, sorted) =
          >>=-eq-ok (check_recommendations lower [] d.recommendations ws) _ later in
        let last = sort_clean us (ok_inj sorted) in
        let (started, sound) =
          recommendations-AllSound o [] d.recommendations ws (advised ∙ ap ok last) in
        let middle =
          services_clean d.services d.cloud_spend_monthly vs (serviced ∙ ap ok started) in
        let first =
          budget_clean d.budget_monthly d.cloud_spend_monthly d.budget_used_percentage
            (first_checks d) (budgeted ∙ ap ok middle) in
        let (of_waste, of_potential) = first_clean d potential waste spend s w p first in
        (potential_within_spend o potential waste spend of_waste.1 of_potential.1, sound)
