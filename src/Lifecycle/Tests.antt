-- ===== src/Lifecycle/Tests.antt =====
-- The page's actions and the background jobs on a table of three recommendations.
use wasteless.Common.{Bool, Option, ℕ, String, ◌≡◌, refl, true, false, [], ◌∷◌, some, none, All}
use wasteless.Common.Int.{ℤ, pos}
use wasteless.Python.{ok}
use wasteless.Python.Hundredths.{hundredths}
use wasteless.Store.{Store, Waste, Recommendation, Status, insert_action}
use wasteless.Lifecycle.{
  Backend, PageAction, Mode, change, execution_mode, moved_to, names_missing, log_row,
}
use wasteless.Lifecycle.Page.{execute_one, api_execute_actions, mode_of}
use wasteless.Lifecycle.Jobs.{grace_step, grace_run, grace_done, grace_execution_status}
use wasteless.Lifecycle.Transitions.{Follows, api_execute_actions-Follows}
use wasteless.Lifecycle.Settling.{IsSettled, grace_step-IsGraceOutcome}

abbrev backend : Backend ℤ
backend = record {
  dry_run = false;
  grace_days = 0;
  action_enabled = λ _. true;
  now = 500;
  shorten = λ t. t;
  open_pr = λ _ _. none;
  proxy = λ _ s. ((true, none), s);
  execute_ec2 = λ _ _. (true, none);
}

abbrev recommendation : ℕ → String → Status → Recommendation
recommendation i t status = record {
  id = i;
  waste_id = i;
  recommendation_type = t;
  status = status;
  execute_after = none;
  applied_at = none;
}

abbrev waste : ℕ → String → Waste ℤ
waste i name = record {
  id = i;
  resource_id = name;
  resource_type = "vpc";
  confidence_score = some (pos 90);
  idle_days = none;
  region = none;
}

abbrev stop_one : Recommendation
stop_one = recommendation 1 "stop_instance" Status.scheduled

abbrev delete_vpc : Recommendation
delete_vpc = recommendation 2 "delete_vpc" Status.applied

abbrev gone : Recommendation
gone = recommendation 3 "delete_vpc" Status.pending

abbrev store : Store ℤ
store = record {
  wastes = waste 1 "i-1" ∷ waste 2 "vpc-2" ∷ waste 3 "vpc-3" ∷ [];
  recommendations = stop_one ∷ delete_vpc ∷ gone ∷ [];
  actions_log = [];
  rollbacks = [];
  next_action = 1;
  next_rollback = 1;
}

rejected_twice :
    (api_execute_actions backend PageAction.reject (3 ∷ 3 ∷ []) store).1.recommendations
    ≡ stop_one ∷ delete_vpc ∷ moved_to Status.rejected (some 500) gone ∷ []
unfolding api_execute_actions execute_one change
rejected_twice = refl

api_execute_actions-Follows_example :
    Follows store.recommendations
      (api_execute_actions backend PageAction.dismiss (2 ∷ 3 ∷ []) store).1.recommendations
api_execute_actions-Follows_example =
    api_execute_actions-Follows backend PageAction.dismiss (2 ∷ 3 ∷ []) store refl

not_dismissed : (execute_one backend PageAction.dismiss 2 store).0.succeeded ≡ false
unfolding execute_one change
not_dismissed = refl

-- EC2 answers that there is no such instance.
abbrev missing : Backend ℤ
missing = record backend {
  execute_ec2 = λ _ _. (false, some "Resource i-1 not found in any region");
}

abbrev run_missing : (Bool × Option String) × Store ℤ
run_missing = grace_run missing Mode.boto3 stop_one (waste 1 "i-1") store

abbrev graced : Store ℤ
graced = grace_done missing Mode.boto3 stop_one (waste 1 "i-1") run_missing

boto3_mode : mode_of missing "stop_instance" ≡ Mode.boto3
unfolding mode_of execution_mode
boto3_mode = refl

graced_recorded : grace_step missing false stop_one (waste 1 "i-1") store ≡ (ok tt, graced)
unfolding grace_step
graced_recorded = rw boto3_mode refl

grace_step-IsGraceOutcome_example :
    All
      (IsSettled missing stop_one
        (mode_of missing "stop_instance")
        (grace_run missing (mode_of missing "stop_instance") stop_one (waste 1 "i-1") store).0)
      graced.recommendations
grace_step-IsGraceOutcome_example =
    grace_step-IsGraceOutcome missing false stop_one (waste 1 "i-1") store graced graced_recorded

made_obsolete :
    graced.recommendations
    ≡ record stop_one { status = Status.obsolete; applied_at = some 500 } ∷ delete_vpc ∷ gone ∷ []
unfolding grace_execution_status names_missing log_row insert_action
made_obsolete = refl
