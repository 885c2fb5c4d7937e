-- ===== src/Remediators/Resource/Tests.antt =====
-- `remediate` on a store with one recommendation to delete a volume.
use wasteless.Common.{◌≡◌, ◌≢◌, refl, true, false, [], ◌∷◌, none, some, Option}
use wasteless.Common.Int.{ℤ, pos}
use wasteless.Python.{Value, bool, dict, end, field, Result, ok}
use wasteless.Python.Hundredths.{hundredths}
use wasteless.Safeguards.{
  is_action_enabled, is_whitelisted, check_confidence_score, protection, check_schedule,
  is_auto_remediation_enabled, items_of, any_rule,
}
use wasteless.Store.{
  Store, Waste, Recommendation, Status, find_joined, find_recommendation, find_waste, insert_action,
  insert_rollback,
}
use wasteless.Remediators.{Environment, World, Write, execute, request}
use wasteless.Remediators.Tables.{IsFresh}
use wasteless.Remediators.Kinds.{Kind, Volume, state_of, verify_still_wasteful, in_use, tags_of}
use wasteless.Remediators.Resource.{
  Outcome, remediate, check_safe, carry_out, get_recommendation_confidence, log_action, perform,
  act, execute_action, create_rollback_snapshot, finish, update_action_status, attach_snapshot,
  attach_to_newest, newest_rollback,
}
use wasteless.Remediators.Resource.Guards.{IsCleared}
use wasteless.Remediators.Resource.Flow.{IsBacked}
use wasteless.Remediators.Resource.Laws.{
  IsTold, remediate_dry_run, remediate_written, remediate-IsTold,
}

abbrev config : Value ℤ
config = dict (field "auto_remediation" (dict (field "enabled" (bool true) end)) end)

abbrev env : Environment ℤ
env = record {
  config = config;
  clock = record { now = 1_000; day = "Monday"; hour = 9 };
  dry_run = false;
  db = λ _ _. none;
  answer = λ _ _. none;
  is_client_error = λ _. true;
  snapshot_id = "snap-1";
}

abbrev dry : Environment ℤ
dry = record env { dry_run = true }

abbrev recommendation : Recommendation
recommendation = record {
  id = 7;
  waste_id = 3;
  recommendation_type = "delete_volume";
  status = Status.approved;
  execute_after = none;
  applied_at = none;
}

abbrev waste : Waste ℤ
waste = record {
  id = 3;
  resource_id = "vol-1";
  resource_type = "ebs_volume";
  confidence_score = some (pos 95);
  idle_days = none;
  region = none;
}

abbrev store : Store ℤ
store = record {
  wastes = waste ∷ [];
  recommendations = recommendation ∷ [];
  actions_log = [];
  rollbacks = [];
  next_action = 1;
  next_rollback = 1;
}

abbrev world : World ℤ
world = record { store = store; aborted = false; writes = [] }

abbrev live : Result (Option Volume)
live = ok (some (record { volume_type = "gp3"; state = "available"; attachments = []; tags = [] }))

store-IsFresh : IsFresh store
store-IsFresh = record { actions = tt; rollbacks = tt }

abbrev run : Environment ℤ → Result Outcome × World ℤ
run e = remediate e Kind.volume_delete "vol-1" 7 live world

volume_deleted :
    (run env).1.writes ≡ Write.delete_volume "vol-1" ∷ Write.create_snapshot "vol-1" ∷ []
unfolding remediate check_safe carry_out get_recommendation_confidence log_action perform act
    execute_action create_rollback_snapshot finish update_action_status attach_snapshot
    attach_to_newest newest_rollback state_of verify_still_wasteful in_use tags_of is_action_enabled
    is_whitelisted check_confidence_score protection check_schedule is_auto_remediation_enabled
    execute request find_joined find_recommendation find_waste insert_action insert_rollback
    items_of any_rule
volume_deleted = refl

writes_sent : (run env).1.writes ≢ world.writes
writes_sent e = absurd (cc (e, volume_deleted))

remediate_dry_run_example :
    ((run dry).1.writes ≡ []) × ((run dry).1.store.recommendations ≡ recommendation ∷ [])
remediate_dry_run_example =
    remediate_dry_run dry Kind.volume_delete "vol-1" 7 live world store-IsFresh refl

remediate_written_example :
    (state : Volume) × IsCleared env Kind.volume_delete "vol-1" 7 live world state
    × IsBacked env "vol-1" 7 Kind.volume_delete store (run env).1.store
    × (false ≡ false)
remediate_written_example =
    remediate_written env Kind.volume_delete "vol-1" 7 live world store-IsFresh writes_sent

remediate-IsTold_example :
    IsTold env Kind.volume_delete "vol-1" 7 world (run env).0 (run env).1.store
remediate-IsTold_example =
    remediate-IsTold env Kind.volume_delete "vol-1" 7 live world store-IsFresh
