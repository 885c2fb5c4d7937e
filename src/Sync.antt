-- ===== src/Sync.antt =====
-- ui/utils/aws_sync.py and ui/jobs.py (`_sync_ec2_instance_states`, `sync_aws_job`): how the
-- recommendations follow what AWS still has.
--
-- AWS is a `Cloud`: each describe call, in each region, answers or raises. As in Lifecycle the
-- database answers every statement. The counts, which are only printed, and `instance_state` of
-- `waste_detected.metadata`, which no modelled code reads, are left out.
pub mod Absence
pub mod Rows
pub mod States
pub mod Evidence
mod Tests
use wasteless.Common.{
  ℕ, suc, String, Bool, true, false, not, ◌&&◌, ◌||◌, Option, none, some, List, [], ◌∷◌, ◌++◌,
  str_eq, ◌==◌, ltb, any, keep, length, is_empty, update_where, first, if◌then◌else◌,
}
use wasteless.Python.{Result, raised, ok, ◌>>=◌}
use wasteless.Store.{Store, Waste, Recommendation, find_waste}
use wasteless.Lifecycle.{Backend, is_syncable, moved_to, resolution}
use wasteless.Lifecycle.Jobs.{resolve_vanished}

-- What a describe call says of one resource. An address may lack an identifier, and only a NAT
-- gateway has a state that is read.
pub record Described : Type 0 where
  pub id : Option String
  pub state : Option String

pub record Cloud : Type 0 where
  -- CLOUD_REGIONS
  pub regions : List String
  -- `ec2.describe_instances` in a region: each instance with the name of its state
  pub instances : String → List String → Result (List (String × String))
  -- the other `ec2.describe_…` calls, by resource type and region
  pub describe : String → String → List String → Result (List Described)
  -- the ARNs that elbv2 lists in a region, and the names that elb lists
  pub load_balancer_arns : String → Result (List String)
  pub load_balancer_names : String → Result (List String)

-- `d["…Id"]`, and for an address the test that it has one
abbrev pub ids_of : List Described → List String
ids_of [] = []
ids_of (d ∷ ds) = elim d.id [ none ↦ ids_of ds | some i ↦ i ∷ ids_of ds ]

-- `state in ("deleted", "deleting")`
abbrev pub is_deleted : Option String → Bool
is_deleted none = false
is_deleted (some state) = str_eq state "deleted" || str_eq state "deleting"

abbrev pub alive : List (String × String) → List String
alive [] = []
alive ((i, state) ∷ instances) =
    if str_eq state "terminated" then alive instances else i ∷ alive instances

abbrev pub state_in : List (String × String) → String → Option String
state_in [] i = none
state_in ((j, state) ∷ states) i = if str_eq j i then some state else state_in states i

abbrev Checker : Type 0
Checker = String → List String → Result (List String)

abbrev pub checker_in : List (String × Checker) → String → Option Checker
checker_in [] kind = none
checker_in ((name, f) ∷ rest) kind = if str_eq name kind then some f else checker_in rest kind

-- `should_obsolete`
unfoldable pub should_obsolete : String → String → Bool
should_obsolete rec_type state =
    (str_eq rec_type "stop_instance" && (str_eq state "stopped" || str_eq state "terminated"))
    || (str_eq rec_type "terminate_instance" && str_eq state "terminated")

-- `aws_states[instance["InstanceId"]] = …` for each instance; the newest entry stands first
abbrev pub pushed : List (String × String) → List (String × String) → List (String × String)
pushed [] states = states
pushed (i ∷ instances) states = pushed instances (i ∷ states)

module _ (c : Cloud) where
  unfoldable pub existing_instances : String → List String → Result (List String)
  existing_instances region ids = c.instances region ids >>= λ instances. ok (alive instances)

  -- `_existing_volumes`, `_existing_eips`, `_existing_snapshots` and `_existing_vpcs`
  unfoldable pub existing_ids : String → String → List String → Result (List String)
  existing_ids kind region ids = c.describe kind region ids >>= λ ds. ok (ids_of ds)

  unfoldable pub existing_nat_gateways : String → List String → Result (List String)
  existing_nat_gateways region ids = c.describe "nat_gateway" region ids >>= λ ds.
      ok (ids_of (keep (λ d. not (is_deleted d.state)) ds))

  unfoldable pub existing_load_balancers : String → Result (List String)
  existing_load_balancers region = c.load_balancer_arns region >>= λ arns.
      c.load_balancer_names region >>= λ names. ok (arns ++ names)

  -- CHECKERS, and the load balancers beside it: SYNCABLE_RESOURCE_TYPES
  unfoldable pub checkers : List (String × Checker)
  checkers =
      ("ec2_instance", existing_instances)
      ∷ ("ebs_volume", existing_ids "ebs_volume")
      ∷ ("elastic_ip", existing_ids "elastic_ip")
      ∷ ("ebs_snapshot", existing_ids "ebs_snapshot")
      ∷ ("nat_gateway", existing_nat_gateways)
      ∷ ("vpc", existing_ids "vpc")
      ∷ ("load_balancer", λ region ids. existing_load_balancers region)
      ∷ []

  abbrev scanned : Result (List String) → List String × ℕ → List String × ℕ
  scanned (raised e) found = found
  scanned (ok ids) (existing, regions_checked) = (ids ++ existing, suc regions_checked)

  -- `existing` and `regions_checked` after the regions
  unfoldable pub scan : Checker → List String → List String → List String × ℕ
  scan check ids [] = ([], 0)
  scan check ids (region ∷ regions) = scanned (check region ids) (scan check ids regions)

  abbrev concluded : List String → List String × ℕ → List String
  concluded ids (existing, regions_checked) =
      if ltb regions_checked (length c.regions)
      then []
      else keep (λ rid. not (any (str_eq rid) existing)) ids

  -- One round of the loop of `find_vanished_resources`.
  unfoldable pub gone : String → List String → List String
  gone kind [] = []
  gone kind (i ∷ ids) = elim (checker_in checkers kind) [
    | none ↦ []
    | some check ↦ concluded (i ∷ ids) (scan check (i ∷ ids) c.regions)
  ]

  abbrev noted : String → List String → List (String × List String) → List (String × List String)
  noted kind [] vanished = vanished
  noted kind (i ∷ ids) vanished = (kind, i ∷ ids) ∷ vanished

  unfoldable pub find_vanished_resources : List (String × List String) → List (String × List String)
  find_vanished_resources [] = []
  find_vanished_resources ((kind, ids) ∷ pending) =
      noted kind (gone kind ids) (find_vanished_resources pending)

  abbrev seen :
      Result (List (String × String))
      → List (String × String) × Bool
      → List (String × String) × Bool
  seen (raised e) (states, region_failed) = (states, true)
  seen (ok instances) (states, region_failed) = (pushed instances states, region_failed)

  -- `aws_states`, newest first, and `region_failed`
  unfoldable pub aws_states :
      List String → List String → List (String × String) × Bool → List (String × String) × Bool
  aws_states ids [] found = found
  aws_states ids (region ∷ regions) found =
      aws_states ids regions (seen (c.instances region ids) found)

abbrev add_id : String → List String → List String
add_id rid ids = if any (str_eq rid) ids then ids else rid ∷ ids

-- `array_agg(DISTINCT w.resource_id) … GROUP BY w.resource_type`
unfoldable pub add_pending :
    String → String → List (String × List String) → List (String × List String)
add_pending kind rid [] = (kind, rid ∷ []) ∷ []
add_pending kind rid ((k, ids) ∷ pending) =
    if str_eq k kind then (k, add_id rid ids) ∷ pending else (k, ids) ∷ add_pending kind rid pending

-- `pending.pop(kind, [])`
unfoldable pub popped : String → List (String × List String) → List String
popped kind [] = []
popped kind ((k, ids) ∷ pending) = if str_eq k kind then ids else popped kind pending

unfoldable pub without : String → List (String × List String) → List (String × List String)
without kind pending = keep (λ entry. not (str_eq entry.0 kind)) pending

module _ {F : Type 0} where
  abbrev pub of_resource : String → Option (Waste F) → Bool
  of_resource rid none = false
  of_resource rid (some w) = str_eq w.resource_id rid

  -- `WHERE w.resource_id = %s AND r.status = ANY(%s)`
  abbrev pub open_on : List (Waste F) → String → Recommendation → Bool
  open_on wastes rid r =
      is_syncable r.status && of_resource rid (first (λ w. w.id == r.waste_id) wastes)

  -- `SET status = CASE …, applied_at = NOW() WHERE p`
  abbrev pub resolve_where : ℕ → (Recommendation → Bool) → Store F → Store F
  resolve_where now p s = record s {
    recommendations =
        update_where p (λ r. moved_to (resolution r.status) (some now) r) s.recommendations;
  }

  -- The loop over the rows that were fetched for an instance.
  unfoldable pub settle_each : ℕ → String → List Recommendation → Store F → Store F
  settle_each now state [] s = s
  settle_each now state (r ∷ rs) s = settle_each now state rs (
      if should_obsolete r.recommendation_type state
      then resolve_where now (λ x. x.id == r.id) s
      else s)

  abbrev pub sync_found : ℕ → Bool → Option String → String → Store F → Store F
  sync_found now region_failed none instance_id s =
      if region_failed then s else resolve_where now (open_on s.wastes instance_id) s
  sync_found now region_failed (some state) instance_id s =
      settle_each now state (keep (open_on s.wastes instance_id) s.recommendations) s

  unfoldable pub sync_each : ℕ → List (String × String) × Bool → List String → Store F → Store F
  sync_each now found [] s = s
  sync_each now found (i ∷ ids) s =
      sync_each now found ids (sync_found now found.1 (state_in found.0 i) i s)

  -- `_sync_ec2_instance_states`
  unfoldable pub sync_ec2_instance_states : Cloud → ℕ → List String → Store F → Store F
  sync_ec2_instance_states c now ids s =
      sync_each now (aws_states c ids c.regions ([], false)) ids s

  abbrev add_waste : Option (Waste F) → List (String × List String) → List (String × List String)
  add_waste none pending = pending
  add_waste (some w) pending = add_pending w.resource_type w.resource_id pending

  unfoldable pub pending_of : List (Waste F) → List Recommendation → List (String × List String)
  pending_of wastes [] = []
  pending_of wastes (r ∷ rs) =
      let pending = pending_of wastes rs in
      if is_syncable r.status
      then add_waste (first (λ w. w.id == r.waste_id) wastes) pending
      else pending

  unfoldable pub resolve_each : Backend F → List (String × List String) → Store F → Store F
  resolve_each b [] s = s
  resolve_each b ((kind, ids) ∷ vanished) s =
      resolve_each b vanished (resolve_vanished b kind ids s)

  -- `sync_aws_job`, up to the commit; with nothing pending the loops are empty
  unfoldable pub sync_aws_job : Backend F → Cloud → Store F → Store F
  sync_aws_job b c s =
      let pending = pending_of s.wastes s.recommendations in
      let instance_ids = popped "ec2_instance" pending in
      let vanished = find_vanished_resources c (without "ec2_instance" pending) in
      sync_ec2_instance_states c b.now instance_ids (resolve_each b vanished s)
