-- ===== src/Finops/Dangers.antt =====
-- src/core/finops_invariants: dangerous_recommendations.py, and the checks of audit.py against AWS.
--
-- `lower` is Python's str.lower. A missing text and an empty one are one to the source.
use wasteless.Common.{
  String, Bool, true, not, ◌&&◌, ◌||◌, Option, List, [], ◌∷◌, all, any, is_in, str_eq,
}
use wasteless.Python.{Numbers, occurs, error, invariant_violated, Result, ok, raise_if, ◌>>◌}
use wasteless.Finops.Amounts.{is_zero, hundred}
use wasteless.Finops.Traces.{is_given}

unfoldable pub validate_underutilization_action :
    (String → String) → String → String → String → Result String
validate_underutilization_action lower detector_type resource_type action =
    let detector_key = lower detector_type in
    raise_if
      (str_eq resource_type "rds"
        && str_eq action "delete"
        && (occurs "underutil" detector_key || occurs "idle" detector_key))
      (error invariant_violated)
    >> ok action

unfoldable pub validate_ebs_delete : Bool → Bool → Result Bool
validate_ebs_delete has_snapshot has_retention_policy = do
  raise_if (not has_snapshot && not has_retention_policy) (error invariant_violated)
  ok true

unfoldable pub validate_nat_gateway_delete : Bool → Result Bool
validate_nat_gateway_delete route_tables_validated = do
  raise_if (not route_tables_validated) (error invariant_violated)
  ok true

-- The metrics are their names, none where there are no metrics.
unfoldable pub validate_eks_resize : Option String → List String → Result Bool
validate_eks_resize nodegroup workload_metrics = do
  raise_if (not (is_given nodegroup)) (error invariant_violated)
  raise_if (not (all (is_in workload_metrics) ("cpu" ∷ "memory" ∷ []))) (error invariant_violated)
  ok true

unfoldable pub validate_resources_exist_in_aws : List String → List String → Result Bool
validate_resources_exist_in_aws recommended_resource_ids aws_resource_ids = do
  raise_if (not (all (is_in aws_resource_ids) recommended_resource_ids)) (error invariant_violated)
  ok true

unfoldable pub validate_read_only_audit : List String → List String → Result Bool
validate_read_only_audit api_calls forbidden_write_actions = do
  raise_if (any (is_in forbidden_write_actions) api_calls) (error invariant_violated)
  ok true

unfoldable pub validate_audit_trace : Option String → Option String → Option String → Result Bool
validate_audit_trace trace_id started_at completed_at = do
  raise_if (not (is_given trace_id && is_given started_at && is_given completed_at))
      (error invariant_violated)
  ok true

module _ {F : Type 0} ⦃n : Numbers F⦄ where
  unfoldable pub validate_cloudwatch_retention_saving : F → F → F → Result F
  validate_cloudwatch_retention_saving claimed_saving_monthly storage_cost_monthly
        total_log_cost_monthly =
      do
        raise_if (n.lt storage_cost_monthly claimed_saving_monthly) (error invariant_violated)
        raise_if (n.le total_log_cost_monthly claimed_saving_monthly) (error invariant_violated)
        ok claimed_saving_monthly

  unfoldable pub validate_within_tolerance_pct : F → F → F → Result F
  validate_within_tolerance_pct actual reference tolerance_pct =
      let delta_pct =
        n.mul (n.div (n.absolute (n.sub actual reference)) (n.absolute reference)) hundred in
      raise_if (is_zero reference) (error invariant_violated)
      >> raise_if (n.lt tolerance_pct delta_pct) (error invariant_violated)
      >> ok delta_pct
