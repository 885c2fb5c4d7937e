-- ===== src/Sync/Tests.antt =====
-- A synchronisation of three recommendations with two regions, of which one may fail.
use wasteless.Common.{
  ℕ, String, ◌≡◌, refl, Bool, true, false, [], ◌∷◌, some, none, ◌↔◌, List, any, str_eq, map,
}
use wasteless.Common.Int.{ℤ}
use wasteless.Python.{error, aws, raised, ok}
use wasteless.Python.Hundredths.{hundredths}
use wasteless.Store.{Store, Waste, Recommendation, Status, find_waste}
use wasteless.Lifecycle.{Backend}
use wasteless.Lifecycle.Jobs.{resolve_vanished}
use wasteless.Sync.{
  Cloud, Checker, checker_in, checkers, gone, find_vanished_resources, settle_each, sync_each,
  should_obsolete, sync_ec2_instance_states, aws_states, sync_aws_job, scan, resolve_each,
  pending_of, add_pending, popped, without, existing_ids,
}
use wasteless.Sync.Absence.{IsAbsent, gone_iff}
use wasteless.Sync.Rows.{Outcomes}
use wasteless.Sync.Evidence.{sync_aws_job-Outcomes}

abbrev backend : Backend ℤ
backend = record {
  dry_run = false;
  grace_days = 0;
  action_enabled = λ _. true;
  now = 500;
  shorten = λ t. t;
  open_pr = λ _ _. none;
  proxy = λ _ s. ((true, none), s);
  execute_ec2 = λ _ _. (true, none);
}

-- `i-1` is stopped, `i-2` runs, and the volume is listed in `eu-west-1` if that region answers.
abbrev cloud : Bool → Cloud
cloud answers = record {
  regions = "eu-west-1" ∷ "us-east-1" ∷ [];
  instances = λ region ids. elim (str_eq region "us-east-1") [
    | true ↦ ok (("i-1", "stopped") ∷ ("i-2", "running") ∷ [])
    | false ↦ ok []
  ];
  describe = λ kind region ids. elim (str_eq region "us-east-1") [
    | true ↦ ok []
    | false ↦ elim answers [ true ↦ ok [] | false ↦ raised (error (aws "RequestLimitExceeded")) ]
  ];
  load_balancer_arns = λ region. ok [];
  load_balancer_names = λ region. ok [];
}

abbrev recommendation : ℕ → String → Status → Recommendation
recommendation i t status = record {
  id = i;
  waste_id = i;
  recommendation_type = t;
  status = status;
  execute_after = none;
  applied_at = none;
}

abbrev waste : ℕ → String → String → Waste ℤ
waste i name kind = record {
  id = i;
  resource_id = name;
  resource_type = kind;
  confidence_score = none;
  idle_days = none;
  region = none;
}

abbrev store : Store ℤ
store = record {
  wastes =
      waste 1 "i-1" "ec2_instance"
      ∷ waste 2 "i-2" "ec2_instance"
      ∷ waste 3 "vol-3" "ebs_volume"
      ∷ [];
  recommendations =
      recommendation 1 "stop_instance" Status.approved_manual
      ∷ recommendation 2 "stop_instance" Status.pending
      ∷ recommendation 3 "delete_volume" Status.scheduled
      ∷ [];
  actions_log = [];
  rollbacks = [];
  next_action = 1;
  next_rollback = 1;
}

statuses : Store ℤ → List Status
statuses s = map (λ r. r.status) s.recommendations

all_answer :
    statuses (sync_aws_job backend (cloud true) store)
    ≡ Status.applied ∷ Status.pending ∷ Status.obsolete ∷ []
unfolding statuses sync_aws_job sync_ec2_instance_states sync_each settle_each find_waste
    resolve_vanished find_vanished_resources gone scan aws_states pending_of add_pending popped
    without should_obsolete checkers existing_ids resolve_each
all_answer = refl

one_fails :
    statuses (sync_aws_job backend (cloud false) store)
    ≡ Status.applied ∷ Status.pending ∷ Status.scheduled ∷ []
unfolding statuses sync_aws_job sync_ec2_instance_states sync_each settle_each find_waste
    resolve_vanished find_vanished_resources gone scan aws_states pending_of add_pending popped
    without should_obsolete checkers existing_ids resolve_each
one_fails = refl

gone_iff_example : (any (str_eq "vol-3") (gone (cloud true) "ebs_volume" ("vol-3" ∷ [])) ≡ true) ↔ (
    (any (str_eq "vol-3") ("vol-3" ∷ []) ≡ true)
    × ((check : Checker) × (checker_in (checkers (cloud true)) "ebs_volume" ≡ some check)
        × IsAbsent check ("vol-3" ∷ []) "vol-3" (cloud true).regions))
gone_iff_example = gone_iff (cloud true) "ebs_volume" ("vol-3" ∷ []) "vol-3"

sync_aws_job-Outcomes_example :
    Outcomes
      (cloud true)
      store.wastes
      store.recommendations
      store.recommendations
      (sync_aws_job backend (cloud true) store).recommendations
sync_aws_job-Outcomes_example = sync_aws_job-Outcomes backend (cloud true) store
