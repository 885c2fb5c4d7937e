-- ===== src/InstanceSchedule.antt =====
-- ui/jobs.py, the instance scheduler: which instances a run stops or starts, and what it records.
--
-- `describe` is what the paginated describe_instances answers to the filters of the tag and the
-- states; it raises as a whole, since every page is read before the first action. Each entry of the
-- log has a connection of its own, whose failure is caught.
pub mod Runs
pub mod Cron
mod Tests
use wasteless.Common.{
  ℕ, String, Bool, true, false, not, ◌&&◌, ◌||◌, Option, none, some, List, [], ◌∷◌, ◌++◌, str_eq,
  any, keep, if◌then◌else◌,
}
use wasteless.Python.{Exn, error, aws, Result, ok, raised, ◌>>=◌}
use wasteless.Store.{Store, ActionStatus, insert_action}
use wasteless.Remediators.{Write}

-- The dict of `get_instance_schedule`.
pub record Schedule : Type 0 where
  pub enabled : Bool
  pub stop_time : String
  pub start_time : String
  pub days : List String
  pub timezone : String
  pub tag_key : String
  pub tag_value : String
  pub dry_run : Bool

pub data Direction : Type 0 where
  stop start : Direction

-- What describe_instances says of one instance.
pub record Tagged : Type 0 where
  pub id : String
  pub tags : List (String × String)

pub record Plant : Type 0 where
  pub schedule : Schedule
  -- the global dry run, and the ids of the whitelist
  pub dry_run : Bool
  pub whitelist : List String
  -- why no EC2 client can be made
  pub no_client : Option Exn
  -- by tag key, tag value and state
  pub describe : String → String → String → Result (List Tagged)
  -- the text with which a write fails, and whether an entry of the log is kept
  pub answer : Write → Option String
  pub logs : String → Bool

-- The tables, and the requests sent to AWS, newest first.
pub record Night (F : Type 0) : Type 0 where
  pub store : Store F
  pub writes : List Write

-- What `_run_instance_schedule` returns.
pub data Ran : Type 0 where
  skipped : Ran
  no_client : Exn → Ran
  done : Bool → List String → List String → Ran

abbrev pub wanted : Direction → String
wanted stop = "running"
wanted start = "stopped"

abbrev pub action_type : Direction → String
action_type stop = "schedule_stop"
action_type start = "schedule_start"

abbrev pub write : Direction → String → Write
write stop id = Write.stop_instances id
write start id = Write.start_instances id

-- `iid in whitelist or "aws:autoscaling:groupName" in tags`
abbrev pub is_protected : List String → Tagged → Bool
is_protected whitelist i =
    any (str_eq i.id) whitelist || any (λ t. str_eq t.0 "aws:autoscaling:groupName") i.tags

abbrev pub ids_of : List Tagged → List String
ids_of [] = []
ids_of (i ∷ is) = i.id ∷ ids_of is

-- `_instance_schedule_targets`
unfoldable pub targets : List String → List Tagged → List String
targets whitelist is = ids_of (keep (λ i. not (is_protected whitelist i)) is)

-- `dry_run` of the schedule or of the whole product
abbrev pub is_dry : Plant → Bool
is_dry p = p.schedule.dry_run || p.dry_run

module _ {F : Type 0} (p : Plant) where
  -- `_log_schedule_action`
  unfoldable pub log_schedule_action :
      String → String → ActionStatus → Bool → Option String → Night F → Night F
  log_schedule_action resource_id action_type status dry_run e w =
      if p.logs resource_id
      then record w {
        store =
            insert_action
              (λ n. record {
                id = n;
                recommendation_id = none;
                resource_id = resource_id;
                resource_type = "ec2_instance";
                action_type = action_type;
                status = status;
                dry_run = dry_run;
                error_message = elim e [ none ↦ none | some text ↦ some (error (aws text)) ];
              })
              w.store;
      }
      else w

  -- Whether the instance ends in `acted`, with the world behind its round.
  abbrev pub answered : Direction → String → Option String → Night F → Bool × Night F
  answered a id none w =
      (true, log_schedule_action id (action_type a) ActionStatus.success false none w)
  answered a id (some text) w =
      (false, log_schedule_action id (action_type a) ActionStatus.failed false (some text) w)

  -- The body of the loop of `_run_instance_schedule`.
  unfoldable pub act_on : Direction → String → Night F → Bool × Night F
  act_on a id w =
      if is_dry p
      then (true, log_schedule_action id (action_type a) ActionStatus.dry_run true none w)
      else answered a id (p.answer (write a id)) (record w { writes = write a id ∷ w.writes })

  -- `acted` and `failed` after the instances, each in order.
  unfoldable pub act_on_each :
      Direction → List String → Night F → (List String × List String) × Night F
  act_on_each a [] w = (([], []), w)
  act_on_each a (id ∷ ids) w =
      let (acted, w') = act_on a id w in
      let ((all_acted, all_failed), w'') = act_on_each a ids w' in
      (if acted then (id ∷ all_acted, all_failed) else (all_acted, id ∷ all_failed), w'')

  abbrev pub run_on : Direction → Result (List Tagged) → Night F → Result Ran × Night F
  run_on a (raised e) w = (raised e, w)
  run_on a (ok is) w =
      let ((acted, failed), w') = act_on_each a (targets p.whitelist is) w in
      (ok (done (is_dry p) acted failed), w')

  abbrev pub with_client : Direction → Option Exn → Night F → Result Ran × Night F
  with_client a (some e) w = (ok (no_client e), w)
  with_client a none w = run_on a (p.describe p.schedule.tag_key p.schedule.tag_value (wanted a)) w

  unfoldable pub run_instance_schedule : Direction → Night F → Result Ran × Night F
  run_instance_schedule a w =
      if p.schedule.enabled then with_client a p.no_client w else (ok skipped, w)
