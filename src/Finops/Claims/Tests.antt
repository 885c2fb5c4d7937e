-- ===== src/Finops/Claims/Tests.antt =====
-- Claims in hundredths.
use Prim.Native.Char.{Char, code}
use wasteless.Common.{◌==◌, if◌then◌else◌, ◌≡◌, refl, ℕ, String, none, some}
use wasteless.Common.Int.{ℤ, pos}
use wasteless.Python.{ok, raised, error, invariant_violated, zero_division}
use wasteless.Python.Hundredths.{hundredths}
use wasteless.Finops.Amounts.{waste_percentage, annualize}
use wasteless.Finops.Claims.{
  Figures, validate_claim_wording, validate_claim_percentage, generate_cto_safe_summary,
}
use wasteless.Finops.Claims.Summaries.{validate_claim_wording-generate_cto_safe_summary}

abbrev figures : Figures ℤ
figures = record {
  cloud_spend_monthly = some (pos 10_000);
  detected_waste_monthly = some (pos 2_500);
  potential_savings_monthly = none;
  realized_savings_monthly = none;
  confirmed_savings_monthly = none;
}

abbrev fixed : ℕ → ℤ → String
fixed digits x = "25"

abbrev text : String
text =
    "Detected waste: 25/mo (25% of 25 spend). Potential savings: up to 25/mo. Annualized potential: up to 25/yr. Realized savings: 25 (requires completed actions). Confirmed savings: 25 (verified via Cost Explorer)."

summary : generate_cto_safe_summary fixed figures ≡ ok text
unfolding generate_cto_safe_summary waste_percentage annualize
summary = refl

nothing_supported :
    validate_claim_percentage (pos 500) (pos 0) (pos 10_000) (pos 100)
    ≡ raised (error zero_division)
unfolding validate_claim_percentage waste_percentage
nothing_supported = refl

-- The capitals that the check on the wording can meet in these texts.
abbrev small : Char → Char
small c = if code c == b'C' then "c" else if code c == b'R' then "r" else c

abbrev lower : String → String
lower String.[] = String.[]
lower (String.◌∷◌ c s) = String.◌∷◌ (small c) (lower s)

validate_claim_wording-generate_cto_safe_summary_example :
    validate_claim_wording lower text "potential" 3 ≡ raised (error invariant_violated)
validate_claim_wording-generate_cto_safe_summary_example =
    validate_claim_wording-generate_cto_safe_summary fixed lower figures text "potential" 3
      (λ pct. refl) summary refl
