-- ===== src/Proxy/Tests.antt =====
-- A batch of three ids, of which the cap lets one stop.
use wasteless.Common.{
  ℕ, ◌≡◌, ◌≤◌, refl, true, false, List, [], ◌∷◌, none, some, Option, String, map,
}
use wasteless.Common.Int.{ℤ, pos}
use wasteless.Python.{Value, bool, int, dict, end, field, ok}
use wasteless.Python.Hundredths.{hundredths, hundredths-ComparesInts}
use wasteless.Safeguards.{
  is_auto_remediation_enabled, is_whitelisted, check_instance_age, protection, days_between,
  check_confidence_score, check_idle_duration, check_schedule, check_max_instances_limit,
  validate_all, any_rule, items_of,
}
use wasteless.Store.{
  Waste, Recommendation, Status, find_joined, find_recommendation, find_waste, insert_action,
  insert_rollback, set_status, set_action,
}
use wasteless.Remediators.{Environment, Write, execute, request}
use wasteless.Remediators.Ec2.{
  Instance, stop_instance, check_stop, log_action, perform, act, finish, create_rollback_snapshot,
}
use wasteless.Proxy.{Desk, Surroundings, execute_one, execute_each, execute_recommendations}
use wasteless.Proxy.Caps.{stops_in, execute_recommendations_capped}
use wasteless.Proxy.Quiet.{execute_recommendations_dry_run}

abbrev config : Value ℤ
config = dict (
    field "auto_remediation" (dict (field "enabled" (bool true) end))
      (field "protection" (dict (field "max_instances_per_run" (int (pos 1)) end)) end))

abbrev env : Environment ℤ
env = record {
  config = config;
  clock = record { now = 4_320_000_000_000; day = "Monday"; hour = 9 };
  dry_run = false;
  db = λ _ _. none;
  answer = λ _ _. none;
  is_client_error = λ _. true;
  snapshot_id = "snap-1";
}

abbrev dry : Environment ℤ
dry = record env { dry_run = true }

abbrev recommendation : ℕ → Recommendation
recommendation i = record {
  id = i;
  waste_id = i;
  recommendation_type = "stop_instance";
  status = Status.pending;
  execute_after = none;
  applied_at = none;
}

abbrev waste : ℕ → String → Waste ℤ
waste i name = record {
  id = i;
  resource_id = name;
  resource_type = "ec2_instance";
  confidence_score = some (pos 95);
  idle_days = some (pos 20);
  region = none;
}

abbrev desk : Desk ℤ
desk = record {
  store = record {
    wastes = waste 1 "i-1" ∷ waste 2 "i-2" ∷ [];
    recommendations =
        recommendation 1
        ∷ record (recommendation 2) { recommendation_type = "terminate_instance" }
        ∷ [];
    actions_log = [];
    rollbacks = [];
    next_action = 1;
    next_rollback = 1;
  };
  writes = [];
  page_aborted = false;
  ec2_aborted = false;
  aborted = λ _. false;
}

abbrev describe : List Write → String → Option Instance
describe ws id = some (record { state = "running"; launch_time = 0; tags = [] })

abbrev surroundings : Environment ℤ → Surroundings ℤ
surroundings e = record {
  env = e;
  query_fails = λ _. none;
  builds_ec2 = none;
  builds = λ _. none;
  describe = describe;
  live = λ k ws id. ok none;
}

-- The first is stopped, the second meets the cap, the third is not there.
ids : List ℕ
ids = 1 ∷ 2 ∷ 3 ∷ []

batch :
    map (λ report. report.succeeded) (execute_recommendations (surroundings env) ids desk).0
    ≡ true ∷ false ∷ false ∷ []
unfolding ids execute_recommendations execute_each execute_one stop_instance check_stop log_action
    perform act finish create_rollback_snapshot execute request find_joined find_recommendation
    find_waste insert_action insert_rollback validate_all is_auto_remediation_enabled is_whitelisted
    check_instance_age protection days_between check_confidence_score check_idle_duration
    check_schedule check_max_instances_limit any_rule items_of set_status set_action
batch = refl

cap_is_one : protection config "max_instances_per_run" (int (pos 3)) ≡ ok (pos 100)
unfolding protection
cap_is_one = refl

execute_recommendations_capped_example :
    stops_in (execute_recommendations (surroundings env) (1 ∷ 2 ∷ 3 ∷ []) desk).0 ≤ 1
execute_recommendations_capped_example =
    execute_recommendations_capped (surroundings env) hundredths-ComparesInts 1 cap_is_one
      (1 ∷ 2 ∷ 3 ∷ []) desk

execute_recommendations_dry_run_example :
    (execute_recommendations (surroundings dry) (1 ∷ 2 ∷ 3 ∷ []) desk).1.writes ≡ []
execute_recommendations_dry_run_example =
    execute_recommendations_dry_run (surroundings dry) refl (1 ∷ 2 ∷ 3 ∷ []) desk
