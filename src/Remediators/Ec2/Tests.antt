-- ===== src/Remediators/Ec2/Tests.antt =====
-- A run over two pending recommendations, of which the cap lets one stop.
use wasteless.Common.{
  ℕ, ◌≡◌, ◌≢◌, ◌≤◌, refl, true, false, List, [], ◌∷◌, none, some, Option, String,
}
use wasteless.Common.Int.{ℤ, pos}
use wasteless.Python.{Value, bool, int, dict, end, field, Result, ok}
use wasteless.Python.Hundredths.{hundredths, hundredths-ComparesInts}
use wasteless.Safeguards.{
  is_auto_remediation_enabled, is_whitelisted, check_instance_age, protection, days_between,
  check_confidence_score, check_idle_duration, check_schedule, check_max_instances_limit,
  validate_all, any_rule, items_of,
}
use wasteless.Store.{
  Waste, Recommendation, Status, find_joined, find_recommendation, find_waste, insert_action,
  insert_rollback,
}
use wasteless.Remediators.{Environment, World, Write, execute, request}
use wasteless.Remediators.Ec2.{
  Instance, Outcome, stop_instance, check_stop, log_action, perform, act, finish,
  create_rollback_snapshot,
}
use wasteless.Remediators.Ec2.Batch.{
  process_pending_recommendations, process_pending, acquire_lock, stop_each,
}
use wasteless.Remediators.Ec2.Stops.{IsStoppable, stop_instance_written}
use wasteless.Remediators.Ec2.Runs.{successes, process_pending_recommendations_capped}

abbrev config : Value ℤ
config = dict (
    field "auto_remediation" (dict (field "enabled" (bool true) end))
      (field "protection" (dict (field "max_instances_per_run" (int (pos 1)) end)) end))

abbrev env : Environment ℤ
env = record {
  config = config;
  clock = record { now = 4_320_000_000_000; day = "Monday"; hour = 9 };
  dry_run = false;
  db = λ _ _. none;
  answer = λ _ _. none;
  is_client_error = λ _. true;
  snapshot_id = "snap-1";
}

abbrev dry : Environment ℤ
dry = record env { dry_run = true }

abbrev recommendation : ℕ → Recommendation
recommendation i = record {
  id = i;
  waste_id = i;
  recommendation_type = "stop_instance";
  status = Status.pending;
  execute_after = none;
  applied_at = none;
}

abbrev waste : ℕ → String → Waste ℤ
waste i name = record {
  id = i;
  resource_id = name;
  resource_type = "ec2_instance";
  confidence_score = some (pos 95);
  idle_days = some (pos 20);
  region = none;
}

abbrev world : World ℤ
world = record {
  store = record {
    wastes = waste 1 "i-1" ∷ waste 2 "i-2" ∷ [];
    recommendations = recommendation 1 ∷ recommendation 2 ∷ [];
    actions_log = [];
    rollbacks = [];
    next_action = 1;
    next_rollback = 1;
  };
  aborted = false;
  writes = [];
}

abbrev describe : List Write → String → Option Instance
describe ws id = some (record { state = "running"; launch_time = 0; tags = [] })

abbrev run : Environment ℤ → Result (List Outcome) × World ℤ
run e = process_pending_recommendations e describe true (λ rows. rows) 10 world

abbrev stopped_one : Outcome
stopped_one = record { succeeded = true; action_log_id = some 1; error_of = none }

run_stops_one : (run env).0 ≡ ok (stopped_one ∷ [])
unfolding process_pending_recommendations process_pending acquire_lock stop_each stop_instance
    check_stop log_action perform act finish create_rollback_snapshot execute request find_joined
    find_recommendation find_waste insert_action insert_rollback validate_all
    is_auto_remediation_enabled is_whitelisted check_instance_age protection days_between
    check_confidence_score check_idle_duration check_schedule check_max_instances_limit any_rule
    items_of
run_stops_one = refl

cap_is_one : protection config "max_instances_per_run" (int (pos 3)) ≡ ok (pos 100)
unfolding protection
cap_is_one = refl

process_pending_recommendations_capped_example : successes (stopped_one ∷ []) ≤ 1
process_pending_recommendations_capped_example =
    process_pending_recommendations_capped env describe (λ rows. rows) 10 hundredths-ComparesInts 1
      cap_is_one true world (stopped_one ∷ []) run_stops_one

one_sent : (stop_instance env describe "i-1" 1 0 world).1.writes ≡ Write.stop_instances "i-1" ∷ []
unfolding stop_instance check_stop log_action perform act finish create_rollback_snapshot execute
    request find_joined find_recommendation find_waste insert_action insert_rollback validate_all
    is_auto_remediation_enabled is_whitelisted check_instance_age protection days_between
    check_confidence_score check_idle_duration check_schedule check_max_instances_limit any_rule
    items_of
one_sent = refl

something_sent : (stop_instance env describe "i-1" 1 0 world).1.writes ≢ world.writes
something_sent e = absurd (cc (e, one_sent))

stop_instance_written_example :
    IsStoppable env describe world "i-1" 1 0
    × ((stop_instance env describe "i-1" 1 0 world).1.writes ≡ Write.stop_instances "i-1" ∷ [])
    × (false ≡ false)
stop_instance_written_example = stop_instance_written env describe "i-1" 1 0 world something_sent
