-- ===== src/Finops/Claims.antt =====
-- src/core/finops_invariants/claims.py: what may be said of a figure.
--
-- `lower` is Python's str.lower, and `fixed` writes a float with so many digits behind the point.
pub mod Summaries
pub mod Evidence
mod Tests
use wasteless.Common.{
  ℕ, String, Bool, true, false, not, ◌&&◌, ◌||◌, Option, none, some, List, [], ◌∷◌, any, str_eq,
  ◌==◌, is_empty, if◌then◌else◌,
}
use wasteless.Common.Int.{pos}
use wasteless.Python.{
  Numbers, Failure, zero_division, occurs, joined, error, invariant_violated, Result, ok, raise_if,
  ◌>>◌, ◌>>=◌,
}
use wasteless.Finops.Amounts.{Saving, zero_f, is_zero, annualize, amount_of, waste_percentage}
use wasteless.Finops.Risk.{RiskLevel, low, medium, high, critical}

-- FORBIDDEN_WORDS_FOR_POTENTIAL_CLAIMS, as this module extends it
abbrev pub forbidden_words : List String
forbidden_words =
    "guaranteed" ∷ "instantly" ∷ "no risk" ∷ "automatic savings" ∷ "risk-free" ∷ "confirmed savings"
    ∷ "permanent savings" ∷ "save automatically" ∷ []

unfoldable pub validate_claim_wording : (String → String) → String → String → ℕ → Result String
validate_claim_wording lower text savings_type completed_actions =
    let lowered = lower text in
    raise_if (not (str_eq savings_type "realized") && any (λ w. occurs w lowered) forbidden_words)
      (error invariant_violated)
    >> raise_if
        ((occurs "realized" lowered || occurs "guaranteed" lowered) && completed_actions == 0)
        (error invariant_violated)
    >> ok text

unfoldable pub validate_dashboard_headline : (String → String) → String → ℕ → Result String
validate_dashboard_headline lower headline executed_actions_count = do
  raise_if (occurs "realized" (lower headline) && executed_actions_count == 0)
      (error invariant_violated)
  ok headline

unfoldable pub validate_annualized_claim_assumptions : String → List String → Result Bool
validate_annualized_claim_assumptions claim_type assumptions = do
  raise_if (str_eq claim_type "annualized_potential" && is_empty assumptions)
      (error invariant_violated)
  ok true

-- The keys of a dataset that the summary reads.
pub record Figures (F : Type 0) : Type 0 where
  pub cloud_spend_monthly : Option F
  pub detected_waste_monthly : Option F
  pub potential_savings_monthly : Option F
  pub realized_savings_monthly : Option F
  pub confirmed_savings_monthly : Option F

abbrev pub value_of : {A : Type 0} → A → Option A → A
value_of default none = default
value_of default (some x) = x

abbrev pub is_low : Option RiskLevel → Bool
is_low (some low) = true
is_low _ = false

abbrev pub concat : List String → String
concat [] = ""
concat (s ∷ ss) = joined s (concat ss)

module _ {F : Type 0} ⦃n : Numbers F⦄ where
  -- The message has the claim over what the data supports.
  abbrev pub unsupported : F → Failure
  unsupported actual_pct = if is_zero actual_pct then zero_division else invariant_violated

  unfoldable pub validate_claim_percentage : F → F → F → F → Result F
  validate_claim_percentage claimed_pct detected_waste_monthly spend_monthly tolerance_pts = do
    actual_pct ← waste_percentage detected_waste_monthly spend_monthly
    raise_if (n.lt (n.add actual_pct tolerance_pts) claimed_pct) (error (unsupported actual_pct))
        >> ok claimed_pct

  unfoldable pub validate_annualized_claim : F → Option F → Result F
  validate_annualized_claim annual_value none =
      raise_if true (error invariant_violated) >> ok annual_value
  validate_annualized_claim annual_value (some monthly_basis) = do
    raise_if (n.lt (n.decimal 1 2) (n.absolute (n.sub annual_value (annualize monthly_basis))))
        (error invariant_violated)
    ok annual_value

  unfoldable pub validate_up_to_claim : F → F → Result F
  validate_up_to_claim claimed_value dataset_max_value = do
    raise_if (n.lt dataset_max_value claimed_value) (error invariant_violated)
    ok claimed_value

  -- The sum over the recommendations of low risk.
  abbrev pub low_risk_total : F → List (Saving F × Option RiskLevel) → F
  low_risk_total total [] = total
  low_risk_total total ((r, risk) ∷ rs) =
      low_risk_total (if is_low risk then n.add total (amount_of r) else total) rs

  unfoldable pub validate_low_risk_claim : F → List (Saving F × Option RiskLevel) → Result F
  validate_low_risk_claim claimed_savings recommendations = do
    raise_if (n.lt (n.add (low_risk_total zero_f recommendations) (n.decimal 1 2)) claimed_savings)
        (error invariant_violated)
    ok claimed_savings

  abbrev pub waste_of : Figures F → F
  waste_of d = value_of (n.decimal 0 1) d.detected_waste_monthly

  abbrev pub spend_of : Figures F → F
  spend_of d = value_of (n.decimal 0 1) d.cloud_spend_monthly

  abbrev pub potential_of : Figures F → F
  potential_of d = value_of (waste_of d) d.potential_savings_monthly

  abbrev pub percentage_of : Figures F → Result F
  percentage_of d =
      if is_zero (spend_of d)
      then ok (n.decimal 0 1)
      else waste_percentage (waste_of d) (spend_of d)

  module _ (fixed : ℕ → F → String) where
    -- The summary up to its last sentence, and behind the words of that.
    abbrev pub first_sentences : Figures F → F → String
    first_sentences d pct = concat (
        "Detected waste: "
        ∷ fixed 0 (waste_of d)
        ∷ "/mo ("
        ∷ fixed 1 pct
        ∷ "% of "
        ∷ fixed 0 (spend_of d)
        ∷ " spend). Potential savings: up to "
        ∷ fixed 0 (potential_of d)
        ∷ "/mo. Annualized potential: up to "
        ∷ fixed 0 (annualize (potential_of d))
        ∷ "/yr. Realized savings: "
        ∷ fixed 0 (value_of (n.decimal 0 1) d.realized_savings_monthly)
        ∷ " (requires completed actions). "
        ∷ [])

    abbrev pub confirmed_part : Figures F → String
    confirmed_part d = concat (
        fixed 0 (value_of (n.decimal 0 1) d.confirmed_savings_monthly)
        ∷ " (verified via Cost Explorer)."
        ∷ [])

    unfoldable pub generate_cto_safe_summary : Figures F → Result String
    generate_cto_safe_summary d = do
      pct ← percentage_of d
      ok (joined (first_sentences d pct) (joined "Confirmed savings: " (confirmed_part d)))
