-- ===== src/Finops/Audit/Tests.antt =====
-- Datasets in hundredths for `audit_dataset`.
use wasteless.Common.{◌≡◌, refl, true, none, some, [], ◌∷◌}
use wasteless.Common.Int.{ℤ, pos, leb_ℤ}
use wasteless.Python.{ok, raised, error, type_error, value_error}
use wasteless.Python.Hundredths.{hundredths, hundredths-IsOrdered}
use wasteless.Finops.Amounts.{
  annualize, waste_percentage, budget_used_percentage, validate_forecast,
  validate_service_breakdown, validate_recommendation_saving, validate_potential_vs_detected,
}
use wasteless.Finops.Risk.{low, high, critical, minimum_risk_for, validate_risk_level}
use wasteless.Finops.Audit.{
  duplicate_resource, risk_floor, Advice, Dataset, insert, sort, check_recommendations,
  audit_dataset,
}
use wasteless.Finops.Audit.Clean.{AllSound, audit_dataset_clean}

abbrev stop : Advice ℤ
stop = record {
  resource_id = some "i-1";
  potential_saving = some (some (pos 2_000));
  monthly_cost = some (some (pos 3_000));
  action = some "stop";
  environment = some "dev";
  risk = some (some low);
  owner = some "ops";
}

abbrev sound : Dataset ℤ
sound = record {
  currency = some "EUR";
  cloud_spend_monthly = some (pos 10_000);
  detected_waste_monthly = some (pos 2_500);
  potential_savings_monthly = some (pos 2_000);
  potential_savings_yearly = some (pos 24_000);
  reduction_percentage = some (pos 2_000);
  budget_monthly = some (pos 20_000);
  budget_used_percentage = some (pos 5_000);
  forecast_end_of_month = some (pos 12_000);
  services = ("EC2", pos 7_000) ∷ ("RDS", pos 3_000) ∷ [];
  recommendations = stop ∷ [];
}

sound_clean : audit_dataset (λ s. s) sound ≡ ok []
unfolding audit_dataset check_recommendations sort annualize waste_percentage budget_used_percentage
    validate_forecast validate_service_breakdown validate_recommendation_saving
    validate_potential_vs_detected validate_risk_level minimum_risk_for
sound_clean = refl

audit_dataset_clean_example :
    (leb_ℤ (pos 2_000) (pos 10_000) ≡ true) × AllSound (λ s. s) [] (stop ∷ [])
audit_dataset_clean_example =
    audit_dataset_clean (λ s. s) hundredths-IsOrdered sound (pos 2_000) (pos 2_500) (pos 10_000)
      refl refl refl sound_clean

-- A second action on the resource, with a risk below its floor: the floor is shown first.
abbrev terminate : Advice ℤ
terminate = record stop {
  action = some "terminate";
  environment = some "prod";
  risk = some (some high);
}

repeated_told :
    audit_dataset (λ s. s) (record sound { recommendations = stop ∷ terminate ∷ [] })
    ≡ ok (
        record { rule = risk_floor; severity = critical }
        ∷ record { rule = duplicate_resource "i-1"; severity = high }
        ∷ [])
unfolding audit_dataset check_recommendations insert sort annualize waste_percentage
    budget_used_percentage validate_forecast validate_service_breakdown
    validate_recommendation_saving validate_potential_vs_detected validate_risk_level
    minimum_risk_for
repeated_told = refl

-- A risk that is no level, and a saving of null.
unknown_risk :
    audit_dataset
      (λ s. s)
      (record sound { recommendations = record stop { risk = some none } ∷ [] })
    ≡ raised (error value_error)
unfolding audit_dataset check_recommendations insert sort annualize waste_percentage
    budget_used_percentage validate_forecast validate_service_breakdown
    validate_recommendation_saving validate_potential_vs_detected validate_risk_level
    minimum_risk_for
unknown_risk = refl

null_saving :
    audit_dataset
      (λ s. s)
      (record sound { recommendations = record stop { potential_saving = some none } ∷ [] })
    ≡ raised (error type_error)
unfolding audit_dataset check_recommendations insert sort annualize waste_percentage
    budget_used_percentage validate_forecast validate_service_breakdown
    validate_recommendation_saving validate_potential_vs_detected validate_risk_level
    minimum_risk_for
null_saving = refl
