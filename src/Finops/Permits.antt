-- ===== src/Finops/Permits.antt =====
-- What an execution without approval rests on.
use wasteless.Common.{
  is_in, ◌≡◌, ◌≤◌, refl, arith, String, Bool, true, false, ◌&&◌, ◌||◌, Option, none, some,
  or-false-left, or-false-right,
}
use wasteless.Python.{error, invariant_violated, ok, raise_if, >>-eq-ok}
use wasteless.Finops.Risk.{
  RiskLevel, low, medium, high, critical, rank, destructive_actions, service_interrupting_actions,
  or_unknown, is_prod_like, floor_of, raised_floor, minimum_risk_for,
}
use wasteless.Finops.Approval.{is_high, or_empty, validate_approval_required}

unasked :
    (b : Bool) {u : Unit {0}} → raise_if (b && true) (error invariant_violated) ≡ ok u → b ≡ false
unasked true h = cc
unasked false h = refl

low_floor :
    (interrupting : Bool) (owner : Option String)
    → rank (raised_floor owner (floor_of false interrupting false)) ≤ rank medium
low_floor true none = omega arith
low_floor false none = omega arith
low_floor true (some o) = omega arith
low_floor false (some o) = omega arith

not_high : (risk : RiskLevel) → is_high risk ≡ false → rank risk ≤ rank medium
not_high low h = omega arith
not_high medium h = omega arith
not_high high h = cc
not_high critical h = cc

-- What is accepted without approval is shown with low or medium risk, and its floor is no higher
-- than medium either, with an owner or without: it is no destructive action, and its environment is
-- known and not production.
pub validate_approval_required-unapproved :
    (lower : String → String) (action environment owner : Option String) (risk : RiskLevel)
    {out : Bool}
    → validate_approval_required lower action environment risk false ≡ ok out
    → (rank risk ≤ rank medium)
      × (rank (minimum_risk_for lower (or_empty action) environment owner) ≤ rank medium)
      × (is_in destructive_actions (lower (or_empty action)) ≡ false)
      × (is_prod_like (lower (or_unknown environment)) ≡ false)
unfolding validate_approval_required minimum_risk_for
validate_approval_required-unapproved lower action environment owner risk e =
    let (accepted, _) = >>-eq-ok (raise_if _ _) _ e in
    let d = is_in destructive_actions (lower (or_empty action)) in
    let p = is_prod_like (lower (or_unknown environment)) in
    let none_of = unasked (d || p || is_high risk) accepted in
    let dp = or-false-left (d || p) (is_high risk) none_of in
    let d_false = or-false-left d p dp in
    let p_false = or-false-right d p dp in
    (
      not_high risk (or-false-right (d || p) (is_high risk) none_of),
      rw (d_false, p_false)
          (low_floor (is_in service_interrupting_actions (lower (or_empty action))) owner),
      d_false,
      p_false,
    )
