-- ===== src/Remediators/Ec2.antt =====
-- src/remediators/ec2_remediator.py: EC2Remediator, which stops and starts instances.
--
-- The metadata and state_before columns, which only record, are left out, and so is the log output.
-- `describe` is what describe_instances answers after the writes sent so far: `none` where it finds
-- nothing or raises, which `get_instance_details` catches. `ordered` is the ORDER BY of the query for
-- pending recommendations, and `free` whether another session lets this one have the advisory lock.
pub mod Batch
pub mod Stops
pub mod Runs
mod Tests
use wasteless.Common.{
  ℕ, suc, ◌+◌, ◌*◌, String, Bool, true, false, not, ◌&&◌, Option, none, some, List, [], ◌∷◌, str_eq,
  keep, take, if◌then◌else◌,
}
use wasteless.Common.Int.{ℤ, pos}
use wasteless.Python.{
  Numbers, Value, dict, end, int, get, as_number, Exn, Refusal, safeguard, error, check_failed,
  unexplained, resource_not_found, recommendation_not_found, type_error, not_stopped, Result, ok,
  raised,
}
use wasteless.Safeguards.{Tags, Request, Report, validate_all}
use wasteless.Store.{
  Store, Waste, Recommendation, Status, ActionStatus, find_joined, find_waste, set_status,
  set_action, insert_action, insert_rollback,
}
use wasteless.Remediators.{
  Statement, Write, Environment, World, Action, pure, lift, gets, modify, ◌>>=◌, ◌>>◌, execute,
  request,
}

-- The dict of `get_instance_details`.
pub record Instance : Type 0 where
  pub state : String
  pub launch_time : ℕ
  pub tags : Tags

-- The dict that `stop_instance` and `start_instance` return.
pub record Outcome : Type 0 where
  pub succeeded : Bool
  pub action_log_id : Option ℕ
  pub error_of : Option Exn

abbrev pub rollback_days : ℕ
rollback_days = 7 * 86_400_000_000

abbrev pub status_of : Exn → ActionStatus
status_of (safeguard why) = ActionStatus.blocked
status_of (error f) = ActionStatus.failed

-- `results["reason"]` in the message of the SafeguardException
abbrev reason_of : Option Refusal → Refusal
reason_of none = unexplained
reason_of (some why) = check_failed why

abbrev or_zero : Option ℤ → ℤ
or_zero none = pos 0
or_zero (some d) = d

abbrev pub details_of : Option Instance → Result Instance
details_of none = raised (error resource_not_found)
details_of (some i) = ok i

abbrev pub failed : Option ℕ → Exn → Outcome
failed action_id e = record { succeeded = false; action_log_id = action_id; error_of = some e }

abbrev pub refuse_unsafe : Report → Result (Unit {0})
refuse_unsafe report =
    if report.safe_to_proceed then ok tt else raised (safeguard (reason_of report.reason))

abbrev pub counted : ℕ → Outcome → ℕ
counted stopped_count o = if o.succeeded then suc stopped_count else stopped_count

module _ {F : Type 0} where
  -- `confidence, idle_days = row`, with `float(confidence)` and `idle_days or 0`
  abbrev pub evidence_of : Option (Recommendation × Waste F) → Result (F × ℤ)
  evidence_of none = raised (error recommendation_not_found)
  evidence_of (some (r, w)) = elim (w.confidence_score) [
    | none ↦ raised (error type_error)
    | some x ↦ ok (x, or_zero w.idle_days)
  ]

  -- `create_rollback_snapshot`
  unfoldable pub create_rollback_snapshot : Environment F → ℕ → String → Action F (Unit {0})
  create_rollback_snapshot env action_id instance_id = do
    execute env Statement.insert_rollback
    modify (
        insert_rollback (λ n. record {
          id = n;
          action_log_id = action_id;
          resource_id = instance_id;
          resource_type = "ec2_instance";
          can_rollback = true;
          rollback_expiry = env.clock.now + rollback_days;
          rollback_ebs_snapshot_id = none;
        }))

  -- `log_action`
  unfoldable pub log_action : Environment F → Option ℕ → String → String → ActionStatus → Action F ℕ
  log_action env rec_id instance_id action_type status = do
    execute env Statement.insert_action
    id ← gets (λ s. s.next_action)
    modify (
        insert_action (λ n. record {
          id = n;
          recommendation_id = rec_id;
          resource_id = instance_id;
          resource_type = "ec2_instance";
          action_type = action_type;
          status = status;
          dry_run = env.dry_run;
          error_message = none;
        }))
    pure id

  -- `_update_action_status`
  unfoldable pub update_action_status : Environment F → ℕ → ActionStatus → Exn → Action F (Unit {0})
  update_action_status env action_id status e = do
    execute env Statement.update_status
    modify (set_action action_id (λ a. record a { status = status; error_message = some e }))

  -- Step 5
  unfoldable pub act : Environment F → Write → Action F (Unit {0})
  act env write = if env.dry_run then pure tt else request env write

  -- Steps 6 and 7: nothing is kept unless both updates and their commit succeed.
  unfoldable pub finish : Environment F → ℕ → ℕ → Action F (Unit {0})
  finish env rec_id action_id = do
    execute env Statement.update_action
    execute env Statement.update_recommendation
    execute env Statement.commit
    modify (set_action action_id (λ a. record a { status = ActionStatus.success }))
    modify (set_status rec_id Status.applied env.clock.now)

  -- Steps 4 to 7
  unfoldable pub perform : Environment F → String → ℕ → ℕ → Action F (Unit {0})
  perform env instance_id rec_id action_id = do
    create_rollback_snapshot env action_id instance_id
    act env (Write.stop_instances instance_id)
    finish env rec_id action_id

  -- The end of the `try`: the result, or the `except` clause.
  abbrev pub settle : Environment F → ℕ → Result (Unit {0}) × World F → Result Outcome × World F
  settle env action_id (ok _, w) =
      (ok (record { succeeded = true; action_log_id = some action_id; error_of = none }), w)
  settle env action_id (raised e, w) =
      (update_action_status env action_id (status_of e) e >> pure (failed (some action_id) e)) w

  abbrev pub after_log : Environment F → String → ℕ → Result ℕ × World F → Result Outcome × World F
  after_log env instance_id rec_id (ok action_id, w) =
      settle env action_id (perform env instance_id rec_id action_id w)
  after_log env instance_id rec_id (raised e, w) = (ok (failed none e), w)

  abbrev pub after_checks :
      Environment F → String → ℕ → Result Instance × World F → Result Outcome × World F
  after_checks env instance_id rec_id (ok i, w) =
      after_log env instance_id rec_id
        (log_action env (some rec_id) instance_id "stop" ActionStatus.pending w)
  after_checks env instance_id rec_id (raised e, w) = (ok (failed none e), w)

  abbrev pub question : String → Instance → F × ℤ → ℕ → Request F
  question instance_id i (score, idle_days) current_count = record {
    instance_id = instance_id;
    instance_tags = i.tags;
    launch_time = i.launch_time;
    score = score;
    idle_days = idle_days;
    current_count = current_count;
  }

  abbrev pub after_start : Result ℕ × World F → Outcome × World F
  after_start (ok id, w) =
      (record { succeeded = true; action_log_id = some id; error_of = none }, w)
  after_start (raised e, w) = (failed none e, w)

module _ {F : Type 0} ⦃n : Numbers F⦄ (env : Environment F)
    (describe : List Write → String → Option Instance) where
  -- Steps 1 and 2
  unfoldable pub check_stop : String → ℕ → ℕ → Action F Instance
  check_stop instance_id rec_id current_count w =
      (do
        i ← lift (details_of (describe w.writes instance_id))
        execute env Statement.select_recommendation
        row ← gets (find_joined rec_id)
        evidence ← lift (evidence_of row)
        report ←
            lift (validate_all env.config env.clock (question instance_id i evidence current_count))
        lift (refuse_unsafe report)
        pure i)
        w

  unfoldable pub stop_instance : String → ℕ → ℕ → Action F Outcome
  stop_instance instance_id rec_id current_count w =
      after_checks env instance_id rec_id (check_stop instance_id rec_id current_count w)

  -- The body of the `try` of `start_instance`.
  unfoldable pub try_start : String → Action F ℕ
  try_start instance_id w =
      (do
        i ← lift (details_of (describe w.writes instance_id))
        lift (if str_eq i.state "stopped" then ok tt else raised (error not_stopped))
        act env (Write.start_instances instance_id)
        log_action env none instance_id "start" ActionStatus.success)
        w

  unfoldable pub start_instance : String → World F → Outcome × World F
  start_instance instance_id w = after_start (try_start instance_id w)
