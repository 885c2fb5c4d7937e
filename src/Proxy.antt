-- ===== src/Proxy.antt =====
-- ui/utils/remediator.py: RemediatorProxy, by which the page runs the backend's remediators on a list
-- of recommendations.
--
-- The page has its own connection, and each remediator that the proxy has built has one as well:
-- a failed statement spoils only the connection that it ran on. Building a remediator either works or
-- raises throughout a batch. `sanitize_for_json` and the texts of the errors are left out.
pub mod Answers
pub mod Caps
pub mod Quiet
mod Tests
use wasteless.Common.{
  ℕ, String, Bool, true, false, ◌||◌, Option, none, some, List, [], ◌∷◌, str_eq, is_some,
  if◌then◌else◌,
}
use wasteless.Python.{
  Numbers, Exn, error, type_error, in_failed_transaction, recommendation_not_found, database,
  Result, ok, raised, ◌>>=◌,
}
use wasteless.Store.{Store, Waste, Recommendation, find_joined}
use wasteless.Remediators.{Write, Environment, World}
use wasteless.Remediators.Ec2
use wasteless.Remediators.Ec2.{Instance, stop_instance, counted}
use wasteless.Remediators.Kinds.{Kind, Description}
use wasteless.Remediators.Resource
use wasteless.Remediators.Resource.{remediate}

-- REMEDIATORS_BY_RECOMMENDATION
abbrev remediators_by_recommendation : List (String × Kind)
remediators_by_recommendation =
    ("migrate_gp2_to_gp3", Kind.gp2_migration)
    ∷ ("delete_volume", Kind.volume_delete)
    ∷ ("delete_nat_gateway", Kind.nat_gateway)
    ∷ ("delete_load_balancer", Kind.load_balancer)
    ∷ ("release_ip", Kind.eip_release)
    ∷ ("delete_snapshot", Kind.snapshot_delete)
    ∷ ("deregister_ami", Kind.ami_deregister)
    ∷ []

abbrev kind_in : List (String × Kind) → String → Option Kind
kind_in [] t = none
kind_in ((name, k) ∷ kinds) t = if str_eq name t then some k else kind_in kinds t

unfoldable pub kind_of : String → Option Kind
kind_of t = kind_in remediators_by_recommendation t

-- `rec_type in ["stop_instance", "terminate_instance"]`
abbrev pub is_ec2 : String → Bool
is_ec2 t = str_eq t "stop_instance" || str_eq t "terminate_instance"

-- One entry of `results`.
pub record Report : Type 0 where
  pub recommendation_id : ℕ
  pub succeeded : Bool
  pub instance_id : Option String
  -- the entry is a result of `stop_instance`
  pub by_stop : Bool

-- The tables and AWS as a batch finds them, with the connections that have failed: the page's, that
-- of the EC2 remediator, and those of the others.
pub record Desk (F : Type 0) : Type 0 where
  pub store : Store F
  pub writes : List Write
  pub page_aborted : Bool
  pub ec2_aborted : Bool
  pub aborted : Kind → Bool

-- What the proxy meets outside the tables: the page's query may fail, a remediator may not be built,
-- and AWS describes the resources after the writes sent so far.
pub record Surroundings (F : Type 0) : Type 0 where
  pub env : Environment F
  pub query_fails : ℕ → Option String
  pub builds_ec2 : Option Exn
  pub builds : Kind → Option Exn
  pub describe : List Write → String → Option Instance
  pub live : (k : Kind) → List Write → String → Result (Option (Description k))

abbrev pub raised_report : ℕ → Report
raised_report rec_id = record {
  recommendation_id = rec_id;
  succeeded = false;
  instance_id = none;
  by_stop = false;
}

-- `result["confidence"] = float(confidence)`, with the `except` behind it
abbrev pub concluded : {F : Type 0} → Option F → Report → Report
concluded none report = raised_report report.recommendation_id
concluded (some score) report = report

-- The connection of one class.
abbrev pub with_aborted : (Kind → Bool) → Kind → Bool → Kind → Bool
with_aborted aborted Kind.gp2_migration b Kind.gp2_migration = b
with_aborted aborted Kind.volume_delete b Kind.volume_delete = b
with_aborted aborted Kind.nat_gateway b Kind.nat_gateway = b
with_aborted aborted Kind.load_balancer b Kind.load_balancer = b
with_aborted aborted Kind.eip_release b Kind.eip_release = b
with_aborted aborted Kind.snapshot_delete b Kind.snapshot_delete = b
with_aborted aborted Kind.ami_deregister b Kind.ami_deregister = b
with_aborted aborted k b j = aborted j

module _ {F : Type 0} where
  abbrev pub after_stop :
      Desk F → ℕ → ℕ → Waste F → Result Ec2.Outcome × World F → (Report × ℕ) × Desk F
  after_stop d rec_id stopped_count w (ok o, v) = (
    (
      concluded w.confidence_score (record {
        recommendation_id = rec_id;
        succeeded = o.succeeded;
        instance_id = some w.resource_id;
        by_stop = true;
      }),
      counted stopped_count o,
    ),
    record d { store = v.store; writes = v.writes; ec2_aborted = v.aborted },
  )
  after_stop d rec_id stopped_count w (raised e, v) = (
    (raised_report rec_id, stopped_count),
    record d { store = v.store; writes = v.writes; ec2_aborted = v.aborted },
  )

  abbrev pub after_remediate :
      Desk F → ℕ → ℕ → Kind → Waste F → Result Resource.Outcome × World F → (Report × ℕ) × Desk F
  after_remediate d rec_id stopped_count k w (ok o, v) = (
    (
      concluded w.confidence_score (record {
        recommendation_id = rec_id;
        succeeded = o.succeeded;
        instance_id = some o.resource_id;
        by_stop = false;
      }),
      stopped_count,
    ),
    record d { store = v.store; writes = v.writes; aborted = with_aborted d.aborted k v.aborted },
  )
  after_remediate d rec_id stopped_count k w (raised e, v) = (
    (raised_report rec_id, stopped_count),
    record d { store = v.store; writes = v.writes; aborted = with_aborted d.aborted k v.aborted },
  )

module _ {F : Type 0} ⦃n : Numbers F⦄ (s : Surroundings F) where
  abbrev pub stop_one : ℕ → ℕ → Waste F → Option Exn → Desk F → (Report × ℕ) × Desk F
  stop_one rec_id stopped_count w (some e) d = ((raised_report rec_id, stopped_count), d)
  stop_one rec_id stopped_count w none d = after_stop d rec_id stopped_count w (
      stop_instance s.env s.describe w.resource_id rec_id stopped_count
        (record { store = d.store; aborted = d.ec2_aborted; writes = d.writes }))

  abbrev pub remediate_one : ℕ → ℕ → Kind → Waste F → Option Exn → Desk F → (Report × ℕ) × Desk F
  remediate_one rec_id stopped_count k w (some e) d = ((raised_report rec_id, stopped_count), d)
  remediate_one rec_id stopped_count k w none d = after_remediate d rec_id stopped_count k w (
      remediate s.env k w.resource_id rec_id (s.live k d.writes w.resource_id)
        (record { store = d.store; aborted = d.aborted k; writes = d.writes }))

  -- `_get_resource_remediator`, and the run of what it returns
  abbrev pub by_kind : ℕ → ℕ → Waste F → Option Kind → Desk F → (Report × ℕ) × Desk F
  by_kind rec_id stopped_count w none d =
      ((record (raised_report rec_id) { instance_id = some w.resource_id }, stopped_count), d)
  by_kind rec_id stopped_count w (some k) d = remediate_one rec_id stopped_count k w (s.builds k) d

  abbrev pub dispatched : ℕ → ℕ → Option (Recommendation × Waste F) → Desk F → (Report × ℕ) × Desk F
  dispatched rec_id stopped_count none d = ((raised_report rec_id, stopped_count), d)
  dispatched rec_id stopped_count (some (r, w)) d =
      if is_ec2 r.recommendation_type
      then stop_one rec_id stopped_count w s.builds_ec2 d
      else by_kind rec_id stopped_count w (kind_of r.recommendation_type) d

  -- The query of the page's connection, which a failure leaves in a failed transaction.
  abbrev pub queried : ℕ → ℕ → Option String → Desk F → (Report × ℕ) × Desk F
  queried rec_id stopped_count (some text) d =
      ((raised_report rec_id, stopped_count), record d { page_aborted = true })
  queried rec_id stopped_count none d =
      dispatched rec_id stopped_count (find_joined rec_id d.store) d

  -- The body of the loop of `execute_recommendations`.
  unfoldable pub execute_one : ℕ → ℕ → Desk F → (Report × ℕ) × Desk F
  execute_one rec_id stopped_count d =
      if d.page_aborted
      then ((raised_report rec_id, stopped_count), d)
      else queried rec_id stopped_count (s.query_fails rec_id) d

  unfoldable pub execute_each : ℕ → List ℕ → Desk F → List Report × Desk F
  execute_each stopped_count [] d = ([], d)
  execute_each stopped_count (rec_id ∷ ids) d =
      let ((report, stopped_count'), d') = execute_one rec_id stopped_count d in
      let (reports, d'') = execute_each stopped_count' ids d' in (report ∷ reports, d'')

  unfoldable pub execute_recommendations : List ℕ → Desk F → List Report × Desk F
  execute_recommendations ids d = execute_each 0 ids d
