-- ===== src/Finops/Tests.antt =====
-- The checks of the figures on amounts in hundredths.
use wasteless.Common.{false, ◌≡◌, refl, true, [], ◌∷◌, some, none}
use wasteless.Common.Int.{ℤ, pos}
use wasteless.Python.{ok, error, invariant_violated, raised}
use wasteless.Python.Hundredths.{hundredths}
use wasteless.Finops.Amounts.{
  Saving, best_per_resource, keep_best, deduplicated_total_savings, waste_percentage,
  validate_potential_vs_detected,
}
use wasteless.Finops.Confidence.{Confidence, assess_confidence}
use wasteless.Finops.Approval.{validate_approval_required}
use wasteless.Finops.Risk.{RiskLevel, high, critical, validate_risk_level, minimum_risk_for}

abbrev stop : Saving ℤ
stop = record { resource_id = "i-1"; potential_saving = some (pos 3_000); saving = none }

abbrev terminate : Saving ℤ
terminate = record { resource_id = "i-1"; potential_saving = some (pos 5_000); saving = none }

total_once : deduplicated_total_savings (stop ∷ terminate ∷ []) ≡ pos 5_000
unfolding deduplicated_total_savings best_per_resource keep_best
total_once = refl

a_quarter : waste_percentage (pos 2_500) (pos 10_000) ≡ ok (pos 2_500)
unfolding waste_percentage
a_quarter = refl

accepted : validate_potential_vs_detected (pos 2_000) (pos 2_500) ≡ ok (pos 2_000)
unfolding validate_potential_vs_detected
accepted = refl

shown_critical : validate_risk_level (λ s. s) "delete" none critical none ≡ ok critical
unfolding validate_risk_level minimum_risk_for
shown_critical = refl

not_shown_high :
    validate_risk_level (λ s. s) "delete" none high none ≡ raised (error invariant_violated)
unfolding validate_risk_level minimum_risk_for
not_shown_high = refl

trusted : assess_confidence (λ _. true) (pos 85) (some 20) (some 14) true ≡ Confidence.high
unfolding assess_confidence
trusted = refl

unapproved :
    validate_approval_required (λ s. s) (some "stop_instance") (some "dev") RiskLevel.low false
    ≡ ok false
unfolding validate_approval_required
unapproved = refl
