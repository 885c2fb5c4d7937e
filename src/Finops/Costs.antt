-- ===== src/Finops/Costs.antt =====
-- src/core/finops_invariants/cost_validation.py: the costs and the savings that a price list supports.
--
-- A price list is its entries; the label of a cost stands in the messages only.
use wasteless.Common.{String, Bool, true, not, ◌&&◌, List, [], ◌∷◌, all, str_eq, if◌then◌else◌}
use wasteless.Common.Int.{pos}
use wasteless.Python.{
  Numbers, error, invariant_violated, zero_division, Result, ok, raised, raise_if, ◌>>◌, ◌>>=◌,
}
use wasteless.Finops.Amounts.{zero_f, is_zero}

abbrev pub refused {ℓ} : {A : Type ℓ} → Result A
refused = raised (error invariant_violated)

-- `table[key]`, where the key is missing refused
abbrev pub price_of : {F : Type 0} → String → List (String × F) → Result F
price_of key [] = refused
price_of key ((name, price) ∷ table) = if str_eq name key then ok price else price_of key table

abbrev pub required_fields : List String
required_fields = "pricing_source" ∷ "currency" ∷ "period" ∷ "region" ∷ []

-- `has f` says whether `item.get(f)` is truthy.
unfoldable pub validate_pricing_metadata_complete : (String → Bool) → Result Bool
validate_pricing_metadata_complete has = do
  raise_if (not (all has required_fields)) (error invariant_violated)
  ok true

module _ {F : Type 0} ⦃n : Numbers F⦄ where
  unfoldable pub validate_cost_within_tolerance : F → F → F → Result F
  validate_cost_within_tolerance actual expected tolerance_pct = do
    raise_if (n.le expected zero_f) (error invariant_violated)
    raise_if (n.lt tolerance_pct (n.div (n.absolute (n.sub actual expected)) expected))
        (error invariant_violated)
    ok actual

  unfoldable pub validate_ec2_cost : String → F → F → List (String × F) → F → F → Result F
  validate_ec2_cost instance_type hours_running monthly_cost pricing_table hours_per_month
        tolerance_pct =
      do
        full_month_price ← price_of instance_type pricing_table
        raise_if (is_zero hours_per_month) (error zero_division)
        validate_cost_within_tolerance monthly_cost
            (n.mul full_month_price (n.div hours_running hours_per_month)) tolerance_pct

  unfoldable pub validate_ebs_cost : F → String → F → List (String × F) → F → Result F
  validate_ebs_cost size_gb volume_type monthly_cost pricing_eur_per_gib tolerance_pct = do
    price ← price_of volume_type pricing_eur_per_gib
    validate_cost_within_tolerance monthly_cost (n.mul size_gb price) tolerance_pct

  unfoldable pub validate_elastic_ip_cost : F → F → F → Result F
  validate_elastic_ip_cost monthly_cost known_eip_cost tolerance_pct =
      validate_cost_within_tolerance monthly_cost known_eip_cost tolerance_pct

  unfoldable pub validate_nat_gateway_cost : F → F → F → F → F → Result F
  validate_nat_gateway_cost monthly_cost base_hourly_cost data_processed_gb rate tolerance_pct =
      validate_cost_within_tolerance monthly_cost
        (n.add base_hourly_cost (n.mul data_processed_gb rate)) tolerance_pct

  unfoldable pub validate_rds_cost : String → F → F → List (String × F) → F → F → Result F
  validate_rds_cost instance_class storage_gb monthly_cost instance_pricing_table rate
        tolerance_pct =
      do
        price ← price_of instance_class instance_pricing_table
        validate_cost_within_tolerance monthly_cost (n.add price (n.mul storage_gb rate))
            tolerance_pct

  unfoldable pub validate_estimated_cost_matches_unit_price : F → F → F → F → Result F
  validate_estimated_cost_matches_unit_price unit_price_hourly hours estimated_cost tolerance_pct =
      validate_cost_within_tolerance estimated_cost (n.mul unit_price_hourly hours) tolerance_pct

  unfoldable pub validate_resize_saving : F → F → F → Result F
  validate_resize_saving current_monthly_cost recommended_monthly_cost potential_saving = do
    raise_if
        (n.lt (n.decimal 1 2) (
          n.absolute
            (n.sub potential_saving (n.sub current_monthly_cost recommended_monthly_cost))))
        (error invariant_violated)
    ok potential_saving

  unfoldable pub validate_schedule_saving : F → F → F → F → Result F
  validate_schedule_saving full_monthly_cost reduced_runtime_ratio claimed_saving tolerance_pct =
      raise_if
        (not (n.le zero_f reduced_runtime_ratio && n.le reduced_runtime_ratio (n.of_int (pos 1))))
        (error invariant_violated)
      >> validate_cost_within_tolerance claimed_saving
          (n.mul full_monthly_cost (n.sub (n.of_int (pos 1)) reduced_runtime_ratio)) tolerance_pct

  unfoldable pub validate_delete_saving : Bool → F → F → Result F
  validate_delete_saving is_delete_safe saving full_monthly_cost = do
    raise_if (not is_delete_safe) (error invariant_violated)
    raise_if (n.lt (n.decimal 1 2) (n.absolute (n.sub saving full_monthly_cost)))
        (error invariant_violated)
    ok saving
