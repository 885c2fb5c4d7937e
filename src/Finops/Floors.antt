-- ===== src/Finops/Floors.antt =====
-- Which risk a recommendation may be shown with.
use wasteless.Common.{is_in, String, ◌≡◌, refl, Bool, true, false, Option, none, some, ltb}
use wasteless.Python.{error, invariant_violated, ok, raise_if, >>-eq-ok}
use wasteless.Finops.Risk.{
  RiskLevel, low, medium, high, critical, rank, destructive_actions, is_prod_like, or_unknown,
  raised_floor, minimum_risk_for, validate_risk_level,
}

top : (d : RiskLevel) → ltb (rank d) 3 ≡ false → d ≡ critical
top low h = cc
top medium h = cc
top high h = cc
top critical h = refl

not_below : (b : Bool) {u : Unit {0}} → raise_if b (error invariant_violated) ≡ ok u → b ≡ false
not_below true h = cc
not_below false h = refl

raised_critical : (owner : Option String) → raised_floor owner critical ≡ critical
raised_critical none = refl
raised_critical (some o) = refl

-- A destructive action in production, or where the environment is unknown, is accepted with no risk
-- level but critical, with an owner or without.
pub validate_risk_level-critical :
    (lower : String → String) (action : String) (environment : Option String)
    (displayed : RiskLevel) (owner : Option String) {out : RiskLevel}
    → is_in destructive_actions (lower action) ≡ true
    → is_prod_like (lower (or_unknown environment)) ≡ true
    → validate_risk_level lower action environment displayed owner ≡ ok out
    → displayed ≡ critical
unfolding validate_risk_level minimum_risk_for
validate_risk_level-critical lower action environment displayed owner destructive prod e =
    let (accepted, _) =
      >>-eq-ok
        (raise_if (ltb (rank displayed) (rank (minimum_risk_for lower action environment owner))) _)
        _ e in
    top displayed (not_below _ (rw (destructive, prod, raised_critical owner) at accepted))
