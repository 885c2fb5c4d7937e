-- ===== src/Remediators/Kinds.antt =====
-- src/remediators/resource_remediator.py, the subclasses of ResourceRemediator: what each reads of
-- the live resource, when it still counts as waste, and the writes that it sends.
use wasteless.Common.{
  ℕ, ◌+◌, String, Bool, true, false, not, ◌||◌, Option, none, some, List, [], ◌∷◌, ◌++◌, map, keep,
  length, is_empty, str_eq, ltb, if◌then◌else◌,
}
use wasteless.Common.Int.{ℤ, pos, ltb_ℤ}
use wasteless.Python.{safeguard, no_longer_wasteful, Result, raise_if}
use wasteless.Safeguards.{Clock, Tags, days_between}
use text.Mathlib.Text.{starts_with}

-- The classes, in the order of the file.
pub data Kind : Type 0 where
  gp2_migration volume_delete nat_gateway load_balancer eip_release snapshot_delete ami_deregister :
      Kind

abbrev pub resource_type : Kind → String
resource_type gp2_migration = "ebs_volume"
resource_type volume_delete = "ebs_volume"
resource_type nat_gateway = "nat_gateway"
resource_type load_balancer = "load_balancer"
resource_type eip_release = "elastic_ip"
resource_type snapshot_delete = "ebs_snapshot"
resource_type ami_deregister = "ami"

abbrev pub action_type : Kind → String
action_type gp2_migration = "migrate_gp2_to_gp3"
action_type volume_delete = "delete_volume"
action_type nat_gateway = "delete_nat_gateway"
action_type load_balancer = "delete_load_balancer"
action_type eip_release = "release_ip"
action_type snapshot_delete = "delete_snapshot"
action_type ami_deregister = "deregister_ami"

abbrev pub can_rollback : Kind → Bool
can_rollback gp2_migration = true
can_rollback volume_delete = true
can_rollback nat_gateway = false
can_rollback load_balancer = false
can_rollback eip_release = true
can_rollback snapshot_delete = false
can_rollback ami_deregister = false

-- What boto3's describe calls return of one resource.
pub record Volume : Type 0 where
  pub volume_type : String
  pub state : String
  pub attachments : List String
  pub tags : Tags

pub record NatGateway : Type 0 where
  pub state : String
  pub tags : Tags

-- A Classic Load Balancer has instances, any other kind has target groups with their targets.
pub data Balancer : Type 0 where
  classic : List String → Balancer
  v2 : List (List String) → Balancer

pub record Address : Type 0 where
  pub association_id : Option String
  pub instance_id : Option String
  pub network_interface_id : Option String
  pub tags : Tags

pub record EbsSnapshot : Type 0 where
  pub start_time : ℕ
  -- the images whose block devices name it
  pub images : List String
  pub tags : Tags

pub record Image : Type 0 where
  pub creation_date : ℕ
  -- per reservation, each instance with its state
  pub reservations : List (List (String × String))
  -- the SnapshotId of each block device that is an EBS volume
  pub mappings : List (Option String)
  pub tags : Tags

-- The state dicts of `get_resource_state`.
pub record BalancerState : Type 0 where
  pub is_classic : Bool
  pub instances : List String
  pub registered_targets : ℕ

pub record SnapshotState : Type 0 where
  pub age_days : ℤ
  pub ami_ids : List String
  pub tags : Tags

pub record ImageState : Type 0 where
  pub age_days : ℤ
  pub instance_ids : List String
  pub snapshot_ids : List String
  pub tags : Tags

abbrev pub Description : Kind → Type 0
Description gp2_migration = Volume
Description volume_delete = Volume
Description nat_gateway = NatGateway
Description load_balancer = Balancer
Description eip_release = Address
Description snapshot_delete = EbsSnapshot
Description ami_deregister = Image

abbrev pub State : Kind → Type 0
State gp2_migration = Volume
State volume_delete = Volume
State nat_gateway = NatGateway
State load_balancer = BalancerState
State eip_release = Address
State snapshot_delete = SnapshotState
State ami_deregister = ImageState

abbrev count_targets : ℕ → List (List String) → ℕ
count_targets registered [] = registered
count_targets registered (targets ∷ groups) = count_targets (registered + length targets) groups

abbrev balancer_state : Balancer → BalancerState
balancer_state (classic instances) = record {
  is_classic = true;
  instances = instances;
  registered_targets = 0;
}
balancer_state (v2 groups) = record {
  is_classic = false;
  instances = [];
  registered_targets = count_targets 0 groups;
}

abbrev live_instances : List (List (String × String)) → List String
live_instances [] = []
live_instances (instances ∷ rest) =
    map (λ i. i.0) (keep (λ i. not (str_eq i.1 "terminated")) instances) ++ live_instances rest

-- `if m["Ebs"].get("SnapshotId")`: present and not empty
abbrev backing_snapshots : List (Option String) → List String
backing_snapshots [] = []
backing_snapshots (none ∷ ms) = backing_snapshots ms
backing_snapshots (some s ∷ ms) =
    if str_eq s "" then backing_snapshots ms else s ∷ backing_snapshots ms

-- `get_resource_state` on what the describe call found; `none` is a resource that is gone.
unfoldable pub state_of : (k : Kind) → Clock → Description k → Option (State k)
state_of gp2_migration clock v = some v
state_of volume_delete clock v = some v
state_of nat_gateway clock nat =
    if str_eq nat.state "deleted" || str_eq nat.state "deleting" then none else some nat
state_of load_balancer clock lb = some (balancer_state lb)
state_of eip_release clock addr = some addr
state_of snapshot_delete clock snap = some (record {
  age_days = days_between snap.start_time clock.now;
  ami_ids = snap.images;
  tags = snap.tags;
})
state_of ami_deregister clock image = some (record {
  age_days = days_between image.creation_date clock.now;
  instance_ids = live_instances image.reservations;
  snapshot_ids = backing_snapshots image.mappings;
  tags = image.tags;
})

-- `state.get("tags", {})`
unfoldable pub tags_of : (k : Kind) → State k → Tags
tags_of gp2_migration v = v.tags
tags_of volume_delete v = v.tags
tags_of nat_gateway nat = nat.tags
tags_of load_balancer lb = []
tags_of eip_release addr = addr.tags
tags_of snapshot_delete snap = snap.tags
tags_of ami_deregister image = image.tags

abbrev pub deletion_min_age_days : ℤ
deletion_min_age_days = pos 90

-- `state.get(k)` is truthy: there and not empty
abbrev pub is_given : Option String → Bool
is_given none = false
is_given (some s) = not (str_eq s "")

-- When `verify_still_wasteful` finds that the resource is in use again.
unfoldable pub in_use : (k : Kind) → State k → Bool
in_use gp2_migration v = not (str_eq v.volume_type "gp2")
in_use volume_delete v = not (str_eq v.state "available") || not (is_empty v.attachments)
in_use nat_gateway nat = false
in_use load_balancer lb =
    if lb.is_classic then not (is_empty lb.instances) else ltb 0 lb.registered_targets
in_use eip_release addr =
    is_given addr.instance_id || is_given addr.network_interface_id || is_given addr.association_id
in_use snapshot_delete snap =
    not (is_empty snap.ami_ids) || ltb_ℤ snap.age_days deletion_min_age_days
in_use ami_deregister image =
    not (is_empty image.instance_ids) || ltb_ℤ image.age_days deletion_min_age_days

unfoldable pub verify_still_wasteful : (k : Kind) → State k → Result (Unit {0})
unfolding in_use
verify_still_wasteful k state = raise_if (in_use k state) (safeguard no_longer_wasteful)

-- LoadBalancerRemediator, `_is_classic`
unfoldable pub is_classic : String → Bool
is_classic resource_id = not (starts_with resource_id "arn:")

-- REMEDIATORS_BY_RECOMMENDATION
unfoldable pub remediator_for : String → Option Kind
remediator_for t =
    if str_eq t "migrate_gp2_to_gp3"
    then some gp2_migration
    else if str_eq t "delete_volume"
    then some volume_delete
    else if str_eq t "delete_nat_gateway"
    then some nat_gateway
    else if str_eq t "delete_load_balancer"
    then some load_balancer
    else if str_eq t "release_ip"
    then some eip_release
    else if str_eq t "delete_snapshot"
    then some snapshot_delete
    else if str_eq t "deregister_ami"
    then some ami_deregister
    else none
