-- ===== src/Finops/Approval.antt =====
-- src/core/finops_invariants/remediation_safety.py, validate_approval_required.
use wasteless.Common.{is_in, String, Bool, true, false, not, ◌&&◌, ◌||◌, Option, none, some}
use wasteless.Python.{error, invariant_violated, Result, ok, ◌>>◌, raise_if}
use wasteless.Finops.Risk.{
  RiskLevel, low, medium, high, critical, destructive_actions, or_unknown, is_prod_like,
}

-- `risk in ("high", "critical")`
abbrev pub is_high : RiskLevel → Bool
is_high low = false
is_high medium = false
is_high high = true
is_high critical = true

-- `(action or "")`
abbrev pub or_empty : Option String → String
or_empty none = ""
or_empty (some a) = a

unfoldable pub validate_approval_required :
    (String → String) → Option String → Option String → RiskLevel → Bool → Result Bool
validate_approval_required lower action environment risk approval_required = do
  raise_if
      ((is_in destructive_actions (lower (or_empty action))
          || is_prod_like (lower (or_unknown environment))
          || is_high risk)
        && not approval_required)
      (error invariant_violated)
  ok approval_required
