-- ===== src/Finops/Risk.antt =====
-- src/core/finops_invariants: risk.py, observation.py and the constants of _shared.py.
use wasteless.Common.{
  is_in, ℕ, String, Bool, true, not, ◌&&◌, ◌||◌, Option, none, some, List, [], ◌∷◌, str_eq, ltb,
  if◌then◌else◌,
}
use wasteless.Common.Int.{pos}
use wasteless.Python.{Numbers, error, invariant_violated, Result, ok, ◌>>◌, raise_if}

-- RISK_LEVELS
pub data RiskLevel : Type 0 where
  low medium high critical : RiskLevel

-- RISK_LEVELS.index
abbrev pub rank : RiskLevel → ℕ
rank low = 0
rank medium = 1
rank high = 2
rank critical = 3

abbrev pub destructive_actions : List String
destructive_actions =
    "delete" ∷ "terminate" ∷ "release" ∷ "drop" ∷ "purge" ∷ "remove" ∷ "destroy"
    ∷ "terminate_instance" ∷ "delete_volume" ∷ "delete_snapshot" ∷ "delete_nat_gateway"
    ∷ "delete_load_balancer" ∷ "delete_vpc" ∷ "release_ip" ∷ []

abbrev pub service_interrupting_actions : List String
service_interrupting_actions = "stop" ∷ "stop_instance" ∷ []

-- `(environment or "unknown")`
abbrev pub or_unknown : Option String → String
or_unknown none = "unknown"
or_unknown (some e) = if str_eq e "" then "unknown" else e

abbrev pub is_prod_like : String → Bool
is_prod_like env = is_in ("production" ∷ "prod" ∷ "unknown" ∷ []) env

abbrev pub floor_of : Bool → Bool → Bool → RiskLevel
floor_of destructive interrupting prod =
    if destructive
    then (if prod then critical else medium)
    else if interrupting
    then (if prod then high else low)
    else if prod
    then medium
    else low

-- Without an owner the floor is at least medium.
abbrev pub raised_floor : Option String → RiskLevel → RiskLevel
raised_floor none floor = if ltb (rank floor) (rank medium) then medium else floor
raised_floor (some o) floor = floor

-- MIN_OBSERVATION_DAYS, and DEFAULT_MIN_OBSERVATION_DAYS
abbrev pub min_observation_days : List (String × ℕ)
min_observation_days = ("production", 14) ∷ ("prod", 14) ∷ ("unknown", 14) ∷ ("dev", 7) ∷ []

abbrev days_in : List (String × ℕ) → String → ℕ
days_in [] env = 14
days_in ((name, days) ∷ rest) env = if str_eq name env then days else days_in rest env

module _ (lower : String → String) where
  unfoldable pub minimum_risk_for : String → Option String → Option String → RiskLevel
  minimum_risk_for action environment owner = raised_floor owner (
      floor_of (is_in destructive_actions (lower action))
        (is_in service_interrupting_actions (lower action))
        (is_prod_like (lower (or_unknown environment))))

  unfoldable pub validate_risk_level :
      String → Option String → RiskLevel → Option String → Result RiskLevel
  validate_risk_level action environment displayed_risk owner = do
    raise_if (ltb (rank displayed_risk) (rank (minimum_risk_for action environment owner)))
        (error invariant_violated)
    ok displayed_risk

  unfoldable pub minimum_observation_days : Option String → ℕ
  minimum_observation_days environment =
      days_in min_observation_days (lower (or_unknown environment))

  abbrev pub is_actionable : String → Bool
  is_actionable action =
      is_in destructive_actions (lower action) || is_in service_interrupting_actions (lower action)

  unfoldable pub validate_observation_window :
      {F : Type 0} ⦃n : Numbers F⦄ → Option String → F → String → Result F
  validate_observation_window ⦃n⦄ environment observation_days action =
      if not (is_actionable action)
      then ok observation_days
      else (raise_if (n.lt observation_days (n.of_int (pos (minimum_observation_days environment))))
            (error invariant_violated)
          >> ok observation_days)

  unfoldable pub validate_batch_workload_classification : Bool → Bool → String → Result Bool
  validate_batch_workload_classification is_batch_workload has_schedule_context action = do
    raise_if (is_batch_workload && is_actionable action && not has_schedule_context)
        (error invariant_violated)
    ok true
