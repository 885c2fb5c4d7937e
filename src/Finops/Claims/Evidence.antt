-- ===== src/Finops/Claims/Evidence.antt =====
-- src/core/finops_invariants/claims.py, `validate_claim_percentage`: a claim over no evidence.
use wasteless.Common.{◌≡◌, refl, true}
use wasteless.Python.{Numbers, zero_division, error, ok, raised}
use wasteless.Finops.Amounts.{is_zero, waste_percentage}
use wasteless.Finops.Claims.{validate_claim_percentage}

module _ {F : Type 0} ⦃n : Numbers F⦄ where
  -- Where the data supports 0 %, a claim beyond the tolerance raises a ZeroDivisionError, and no
  -- FinOpsInvariantError.
  validate_claim_percentage_zero :
      (claimed_pct waste spend tolerance_pts actual_pct : F)
      → waste_percentage waste spend ≡ ok actual_pct
      → is_zero actual_pct ≡ true
      → n.lt (n.add actual_pct tolerance_pts) claimed_pct ≡ true
      → validate_claim_percentage claimed_pct waste spend tolerance_pts
        ≡ raised (error zero_division)
  unfolding validate_claim_percentage
  validate_claim_percentage_zero claimed_pct waste spend tolerance_pts actual_pct actual zero
        beyond =
      rw (actual, beyond, zero) refl
