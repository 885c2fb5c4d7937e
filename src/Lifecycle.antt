-- ===== src/Lifecycle.antt =====
-- ui/routes/recommendations.py (`api_execute_actions`), ui/jobs.py (`_resolve_vanished`,
-- `_grace_execution_status`, `grace_executor_job`), ui/utils/action_registry.py: what becomes of a
-- recommendation's status.
--
-- The database answers every statement here, but those that record a run of the grace executor; a
-- request is one transaction. What the page calls is a
-- `Backend`: the settings, `maybe_open_pr`, the remediator proxy and boto3, each with what it makes
-- of the tables. The audit log and the notifications are left out.
pub mod Page
pub mod Jobs
pub mod Transitions
pub mod Replies
pub mod Settling
mod Tests
use wasteless.Common.{
  ℕ, ◌+◌, ◌*◌, String, Bool, true, false, not, ◌&&◌, ◌||◌, Option, none, some, List, [], ◌∷◌,
  str_eq, ◌==◌, ltb, leb, any, keep, take, is_some, update_where, if◌then◌else◌,
}
use wasteless.Python.{Exn, error, aws}
use wasteless.Store.{
  Store, Waste, Recommendation, ActionRow, Status, ActionStatus, find_joined, find_waste,
  insert_action,
}
use text.Mathlib.Text.{find?}

pub data Mode : Type 0 where
  boto3 remediator manual : Mode

-- EXECUTION_MODES
abbrev pub execution_modes : List (String × Mode)
execution_modes =
    ("stop_instance", Mode.boto3)
    ∷ ("terminate_instance", Mode.boto3)
    ∷ ("migrate_gp2_to_gp3", Mode.remediator)
    ∷ ("delete_volume", Mode.remediator)
    ∷ ("delete_nat_gateway", Mode.remediator)
    ∷ ("delete_load_balancer", Mode.remediator)
    ∷ ("release_ip", Mode.remediator)
    ∷ ("delete_snapshot", Mode.remediator)
    ∷ ("deregister_ami", Mode.remediator)
    ∷ ("downsize_instance", Mode.manual)
    ∷ ("delete_vpc", Mode.manual)
    ∷ ("delete_rds_instance", Mode.manual)
    ∷ ("downsize_rds_instance", Mode.manual)
    ∷ ("delete_rds_snapshot", Mode.manual)
    ∷ []

abbrev mode_in : List (String × Mode) → String → Mode
mode_in [] t = Mode.manual
mode_in ((name, m) ∷ modes) t = if str_eq name t then m else mode_in modes t

unfoldable pub execution_mode : String → Mode
execution_mode t = mode_in execution_modes t

abbrev pub is_manual : Mode → Bool
is_manual Mode.manual = true
is_manual _ = false

-- ActionRequest.action
pub data PageAction : Type 0 where
  approve execute reject dismiss cancel restore : PageAction

-- One entry of `results`.
pub record Reply : Type 0 where
  pub recommendation_id : ℕ
  pub succeeded : Bool
  pub scheduled : Bool
  pub dry_run : Bool
  pub by_hand : Bool

pub record Backend (F : Type 0) : Type 0 where
  -- the settings, and the present moment
  pub dry_run : Bool
  pub grace_days : ℕ
  pub action_enabled : String → Bool
  pub now : ℕ
  -- `rec_type.replace("_instance", "")…`, which names the action in the log
  pub shorten : String → String
  -- `maybe_open_pr`: `none` where the recommendation is not routed to a pull request
  pub open_pr : ℕ → Store F → Option (Bool × Store F)
  -- `RemediatorProxy(…).execute_recommendations(conn, [rec_id])[0]`
  pub proxy : ℕ → Store F → (Bool × Option String) × Store F
  -- `_execute_ec2_boto3`
  pub execute_ec2 : String → String → Bool × Option String

abbrev pub is_skippable : Status → Bool
is_skippable Status.pending = true
is_skippable Status.approved_manual = true
is_skippable _ = false

abbrev pub is_pending : Status → Bool
is_pending Status.pending = true
is_pending _ = false

abbrev pub is_scheduled : Status → Bool
is_scheduled Status.scheduled = true
is_scheduled _ = false

abbrev pub is_rejected : Status → Bool
is_rejected Status.rejected = true
is_rejected _ = false

-- SYNCABLE_STATUSES
abbrev pub is_syncable : Status → Bool
is_syncable Status.pending = true
is_syncable Status.rejected = true
is_syncable Status.scheduled = true
is_syncable Status.pr_open = true
is_syncable Status.approved_manual = true
is_syncable _ = false

abbrev is_open : ActionStatus → Bool
is_open ActionStatus.pending = true
is_open _ = false

abbrev pub same_id : Option ℕ → ℕ → Bool
same_id none id = false
same_id (some i) id = i == id

abbrev pub moved_to : Status → Option ℕ → Recommendation → Recommendation
moved_to status applied_at r = record r { status = status; applied_at = applied_at }

-- The rows that `WHERE id = %s AND status …` picks.
abbrev pub picks : (Status → Bool) → ℕ → Recommendation → Bool
picks allowed rec_id r = r.id == rec_id && allowed r.status

abbrev pub reply : ℕ → Bool → Reply
reply rec_id done = record {
  recommendation_id = rec_id;
  succeeded = done;
  scheduled = false;
  dry_run = false;
  by_hand = false;
}

abbrev pub resolution : Status → Status
resolution Status.approved_manual = Status.applied
resolution _ = Status.obsolete

-- `"not found" in error`
abbrev pub names_missing : Option String → Bool
names_missing none = false
names_missing (some e) = is_some (find? e "not found")

module _ {F : Type 0} where
  -- `w.resource_type = %s AND w.resource_id = ANY(%s)` of the row's waste
  abbrev pub is_vanished : String → List String → Option (Waste F) → Bool
  is_vanished kind ids none = false
  is_vanished kind ids (some w) = str_eq w.resource_type kind && any (str_eq w.resource_id) ids

  -- `UPDATE recommendations SET f WHERE id = %s AND status … RETURNING id`, with its `fetchone`
  unfoldable pub change :
      (Status → Bool) → (Recommendation → Recommendation) → ℕ → Store F → Bool × Store F
  change allowed f rec_id s = (
    any (picks allowed rec_id) s.recommendations,
    record s { recommendations = update_where (picks allowed rec_id) f s.recommendations },
  )

  -- The log entry that scheduling has made is closed.
  unfoldable pub close_log : ℕ → Store F → Store F
  close_log rec_id s = record s {
    actions_log =
        update_where (λ a. same_id a.recommendation_id rec_id && is_open a.status)
          (λ a. record a { status = ActionStatus.cancelled }) s.actions_log;
  }

  abbrev pub cancelled : ℕ → Bool × Store F → Bool × Store F
  cancelled rec_id (true, s) = (true, close_log rec_id s)
  cancelled rec_id (false, s) = (false, s)

  abbrev pub replied : ℕ → Bool × Store F → Reply × Store F
  replied rec_id (done, s) = (reply rec_id done, s)

  unfoldable pub log_row :
      Recommendation → Waste F → String → ActionStatus → Bool → Option String → Store F → Store F
  log_row r w action_type status dry_run e = insert_action (λ n. record {
    id = n;
    recommendation_id = some r.id;
    resource_id = w.resource_id;
    resource_type = w.resource_type;
    action_type = action_type;
    status = status;
    dry_run = dry_run;
    error_message = elim e [ none ↦ none | some text ↦ some (error (aws text)) ];
  })

  -- `UPDATE recommendations SET status = %s, applied_at = NOW() WHERE id = %s`
  unfoldable pub restatus : ℕ → ℕ → Status → Store F → Store F
  restatus now rec_id status s = record s {
    recommendations =
        update_where (λ r. r.id == rec_id) (moved_to status (some now)) s.recommendations;
  }
