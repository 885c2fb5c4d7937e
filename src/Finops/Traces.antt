-- ===== src/Finops/Traces.antt =====
-- src/core/finops_invariants/remediation_safety.py: the statuses and the traces of a remediation.
--
-- A missing text and an empty one are one to the source; a text here is there where it is not empty.
use wasteless.Common.{
  ◌≡◌, refl, String, Bool, true, false, not, ◌&&◌, ◌||◌, Option, none, some, str_eq,
}
use wasteless.Python.{Numbers, error, invariant_violated, Result, ok, ◌>>◌, >>-eq-ok, raise_if}
use wasteless.Finops.Amounts.{zero_f}
use wasteless.Finops.Cascade.{raise_if-passed}

-- The truth of an optional text.
abbrev pub is_given : Option String → Bool
is_given none = false
is_given (some s) = not (str_eq s "")

unfoldable pub validate_auto_execution : String → Option String → Option String → Result Bool
validate_auto_execution execution_mode owner rollback_plan = do
  raise_if (str_eq execution_mode "auto" && not (is_given owner)) (error invariant_violated)
  raise_if (str_eq execution_mode "auto" && not (is_given rollback_plan)) (error invariant_violated)
  ok true

unfoldable pub validate_completed_status_requires_audit_log : String → Option String → Result Bool
validate_completed_status_requires_audit_log status audit_log_id = do
  raise_if (str_eq status "executed" && not (is_given audit_log_id)) (error invariant_violated)
  ok true

unfoldable pub validate_approval_identity : Bool → Option String → Result Bool
validate_approval_identity approval_required approved_by = do
  raise_if (approval_required && not (is_given approved_by)) (error invariant_violated)
  ok true

unfoldable pub validate_execution_timestamp : String → Option String → Result Bool
validate_execution_timestamp status executed_at = do
  raise_if (str_eq status "executed" && not (is_given executed_at)) (error invariant_violated)
  ok true

unfoldable pub validate_slack_approval_trace : Option String → Option String → Result Bool
validate_slack_approval_trace none trace_id = ok true
validate_slack_approval_trace (some approval_channel) trace_id = do
  raise_if (str_eq approval_channel "slack" && not (is_given trace_id)) (error invariant_violated)
  ok true

unfoldable pub validate_terraform_pr_remediation : String → Option String → Result Bool
validate_terraform_pr_remediation execution_mode pull_request_url = do
  raise_if (str_eq execution_mode "terraform_pr" && not (is_given pull_request_url))
      (error invariant_violated)
  ok true

module _ {F : Type 0} ⦃n : Numbers F⦄ where
  -- A saving above zero is not zero, so its truth adds nothing to the test.
  unfoldable pub validate_realized_savings_status : String → F → Result F
  validate_realized_savings_status status realized_monthly_saving = do
    raise_if (n.lt zero_f realized_monthly_saving && not (str_eq status "executed"))
        (error invariant_violated)
    ok realized_monthly_saving

  unfoldable pub validate_no_saving_when_ignored_or_expired : String → F → Result Bool
  validate_no_saving_when_ignored_or_expired status saving = do
    raise_if ((str_eq status "ignored" || str_eq status "expired") && n.lt zero_f saving)
        (error invariant_violated)
    ok true

  -- A realized saving above zero that passes has the status 'executed', and where the trace checks
  -- pass, too, an audit log and a time of execution.
  realized_traced :
      (status : String) (saving : F) (audit_log_id executed_at : Option String) {x : F} {a b : Bool}
      → n.lt zero_f saving ≡ true
      → validate_realized_savings_status status saving ≡ ok x
      → validate_completed_status_requires_audit_log status audit_log_id ≡ ok a
      → validate_execution_timestamp status executed_at ≡ ok b
      → (str_eq status "executed" ≡ true)
        × (is_given audit_log_id ≡ true)
        × (is_given executed_at ≡ true)
  unfolding validate_realized_savings_status validate_completed_status_requires_audit_log
      validate_execution_timestamp
  realized_traced status saving audit_log_id executed_at above realized logged timed =
      let executed =
        is_executed (n.lt zero_f saving) (str_eq status "executed") above
          (raise_if-passed _ (>>-eq-ok (raise_if (_ && not _) _) _ realized).0) in
      (
        executed,
        is_executed (str_eq status "executed") (is_given audit_log_id) executed
            (raise_if-passed _ (>>-eq-ok (raise_if (_ && not _) _) _ logged).0),
        is_executed (str_eq status "executed") (is_given executed_at) executed
            (raise_if-passed _ (>>-eq-ok (raise_if (_ && not _) _) _ timed).0),
      )
    where
      is_executed : (b c : Bool) → b ≡ true → b && not c ≡ false → c ≡ true
      is_executed true true p q = refl
      is_executed true false p q = cc
      is_executed false c p q = cc
