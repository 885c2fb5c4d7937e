-- ===== src/Remediators/Resource.antt =====
-- src/remediators/resource_remediator.py: `ResourceRemediator.remediate`, the guarded flow that every
-- class shares, and the `execute_action` of each class.
--
-- The metadata and state_before columns, which only record, are left out, except the EBS snapshot id
-- that a volume's deletion merges into its rollback row. So is the log output.
pub mod Guards
pub mod Flow
pub mod Sends
pub mod Ends
pub mod Laws
mod Tests
use Prim.Native.Nat.{max}
use wasteless.Common.{
  ℕ, ◌+◌, ◌*◌, String, Bool, true, false, not, ◌&&◌, Option, none, some, List, [], ◌∷◌, str_eq,
  ◌==◌, is_empty, update_where, if◌then◌else◌,
}
use wasteless.Python.{
  Numbers, Exn, safeguard, error, whitelisted, auto_disabled, action_disabled, resource_not_found,
  recommendation_not_found, type_error, snapshots_left, Result, ok, raised, raise_if,
}
use wasteless.Safeguards.{
  Clock, is_action_enabled, is_whitelisted, is_auto_remediation_enabled, check_confidence_score,
  check_schedule,
}
use wasteless.Store.{
  Waste, Recommendation, Rollback, Status, ActionStatus, find_joined, set_status, set_action,
  insert_action, insert_rollback,
}
use wasteless.Remediators.{
  Statement, Write, Environment, World, Action, pure, lift, gets, modify, ◌>>=◌, ◌>>◌, execute,
  request,
}
use wasteless.Remediators.Kinds.{
  Kind, resource_type, action_type, can_rollback, Description, State, state_of, tags_of,
  verify_still_wasteful, is_classic,
}

abbrev pub rollback_days : ℕ
rollback_days = 7 * 86_400_000_000

abbrev pub flag : Bool → Exn → Result (Unit {0})
flag b e = raise_if b e

-- the greatest id among the rollback rows of this resource
unfoldable pub newest_rollback : String → String → List Rollback → ℕ
newest_rollback resource_id kind [] = 0
newest_rollback resource_id kind (r ∷ rs) =
    let rest = newest_rollback resource_id kind rs in
    if str_eq r.resource_id resource_id && str_eq r.resource_type kind then max r.id rest else rest

-- `UPDATE rollback_snapshots … WHERE id = (SELECT max(id) …)`
unfoldable pub attach_to_newest : String → String → String → List Rollback → List Rollback
attach_to_newest resource_id kind snapshot_id rows =
    update_where (λ r. r.id == newest_rollback resource_id kind rows)
      (λ r. record r { rollback_ebs_snapshot_id = some snapshot_id }) rows

abbrev pub found : (k : Kind) → Clock → Option (Description k) → Result (State k)
found k clock none = raised (error resource_not_found)
found k clock (some d) = elim (state_of k clock d) [
  | none ↦ raised (error resource_not_found)
  | some state ↦ ok state
]

module _ {F : Type 0} where
  -- `_log_action(…, "pending", …)`
  unfoldable pub log_action : Environment F → Kind → ℕ → String → Action F ℕ
  log_action env k rec_id resource_id = do
    execute env Statement.insert_action
    id ← gets (λ s. s.next_action)
    modify (
        insert_action (λ n. record {
          id = n;
          recommendation_id = some rec_id;
          resource_id = resource_id;
          resource_type = resource_type k;
          action_type = action_type k;
          status = ActionStatus.pending;
          dry_run = env.dry_run;
          error_message = none;
        }))
    pure id

  -- `_update_action_status`
  unfoldable pub update_action_status : Environment F → ℕ → ActionStatus → Exn → Action F (Unit {0})
  update_action_status env action_id status e = do
    execute env Statement.update_status
    modify (set_action action_id (λ a. record a { status = status; error_message = some e }))

  -- `_create_rollback_snapshot`
  unfoldable pub create_rollback_snapshot : Environment F → Kind → ℕ → String → Action F (Unit {0})
  create_rollback_snapshot env k action_id resource_id = do
    execute env Statement.insert_rollback
    modify (
        insert_rollback (λ n. record {
          id = n;
          action_log_id = action_id;
          resource_id = resource_id;
          resource_type = resource_type k;
          can_rollback = can_rollback k;
          rollback_expiry = env.clock.now + rollback_days;
          rollback_ebs_snapshot_id = none;
        }))

  abbrev pub confidence_of : Option (Recommendation × Waste F) → Result F
  confidence_of none = raised (error recommendation_not_found)
  confidence_of (some (r, w)) = elim (w.confidence_score) [
    | none ↦ raised (error type_error)
    | some x ↦ ok x
  ]

  -- `_get_recommendation_confidence`; `float(None)` is a TypeError
  unfoldable pub get_recommendation_confidence : Environment F → ℕ → Action F F
  get_recommendation_confidence env rec_id = do
    execute env Statement.select_recommendation
    row ← gets (find_joined rec_id)
    lift (confidence_of row)

  -- `_attach_ebs_snapshot_to_rollback`
  unfoldable pub attach_snapshot : Environment F → String → Action F (Unit {0})
  attach_snapshot env resource_id = do
    execute env Statement.attach_snapshot
    modify (λ s. record s {
      rollbacks = attach_to_newest resource_id "ebs_volume" env.snapshot_id s.rollbacks;
    })

  -- The try of the loop: a ClientError is collected, another exception ends the loop.
  abbrev pub after_delete :
      Environment F
      → String
      → List String
      → (List String → Action F (List String))
      → Result (Unit {0}) × World F
      → Result (List String) × World F
  after_delete env s left next (ok u, w) = next left w
  after_delete env s left next (raised e, w) =
      let rest = next (s ∷ left) w in
      if env.is_client_error (Write.delete_snapshot s) then rest else (raised e, w)

  -- The loop over the backing snapshots of an AMI.
  unfoldable pub delete_snapshots :
      Environment F → List String → List String → Action F (List String)
  delete_snapshots env [] left w = (ok left, w)
  delete_snapshots env (s ∷ ss) left w =
      after_delete env s left (delete_snapshots env ss) (request env (Write.delete_snapshot s) w)

  -- `execute_action` of each class
  unfoldable pub execute_action :
      Environment F → (k : Kind) → String → State k → Action F (Unit {0})
  execute_action env Kind.gp2_migration id v = request env (Write.modify_volume id)
  execute_action env Kind.volume_delete id v = do
    request env (Write.create_snapshot id)
    attach_snapshot env id
    request env (Write.delete_volume id)
  execute_action env Kind.nat_gateway id nat = request env (Write.delete_nat_gateway id)
  execute_action env Kind.load_balancer id lb = request env (
      if is_classic id
      then Write.delete_classic_load_balancer id
      else Write.delete_load_balancer id)
  execute_action env Kind.eip_release id addr = request env (Write.release_address id)
  execute_action env Kind.snapshot_delete id snap = request env (Write.delete_snapshot id)
  execute_action env Kind.ami_deregister id image = do
    request env (Write.deregister_image id)
    left ← delete_snapshots env image.snapshot_ids []
    lift (flag (not (is_empty left)) (error snapshots_left))

-- The dict that `remediate` returns.
pub record Outcome : Type 0 where
  pub succeeded : Bool
  pub resource_id : String
  pub action : String
  pub dry_run : Bool
  pub action_log_id : Option ℕ
  pub error_of : Option Exn

module _ {F : Type 0} (env : Environment F) (k : Kind) (resource_id : String) (rec_id : ℕ) where
  -- `if self.dry_run: … else: self.execute_action(…)`
  unfoldable pub act : State k → Action F (Unit {0})
  act state = if env.dry_run then pure tt else execute_action env k resource_id state

  -- The two updates and their commit; nothing is kept unless all three succeed.
  unfoldable pub finish : ℕ → Action F (Unit {0})
  finish action_id = do
    execute env Statement.update_action
    if env.dry_run then pure tt else execute env Statement.update_recommendation
    execute env Statement.commit
    modify (set_action action_id (λ a. record a { status = ActionStatus.success }))
    modify (λ s. if env.dry_run then s else set_status rec_id Status.applied env.clock.now s)

  -- What follows once the action has its row in actions_log.
  unfoldable pub perform : ℕ → State k → Action F (Unit {0})
  perform action_id state = do
    create_rollback_snapshot env k action_id resource_id
    act state
    finish action_id

  abbrev pub outcome : Bool → Option ℕ → Option Exn → Outcome
  outcome succeeded action_id e = record {
    succeeded = succeeded;
    resource_id = resource_id;
    action = action_type k;
    dry_run = env.dry_run;
    action_log_id = action_id;
    error_of = e;
  }

  -- The status that the `except` clause writes.
  abbrev pub status_of : Exn → ActionStatus
  status_of (safeguard why) = ActionStatus.blocked
  status_of (error f) = ActionStatus.failed

  -- The end of the `try`: the result, or the `except` clause.
  abbrev pub settle : ℕ → Result (Unit {0}) × World F → Result Outcome × World F
  settle action_id (ok _, w) = (ok (outcome true (some action_id) none), w)
  settle action_id (raised e, w) =
      (update_action_status env action_id (status_of e) e
          >> pure (outcome false (some action_id) (some e)))
        w

  abbrev pub after_log : State k → Result ℕ × World F → Result Outcome × World F
  after_log state (ok action_id, w) = settle action_id (perform action_id state w)
  after_log state (raised e, w) = (ok (outcome false none (some e)), w)

  -- The flow behind a state that has passed every check.
  unfoldable pub carry_out : State k → World F → Result Outcome × World F
  carry_out state w = after_log state (log_action env k rec_id resource_id w)

  abbrev pub after_checks : Result (State k) × World F → Result Outcome × World F
  after_checks (ok state, w) = carry_out state w
  after_checks (raised e, w) = (ok (outcome false none (some e)), w)

module _ {F : Type 0} ⦃n : Numbers F⦄ (env : Environment F) (k : Kind) (resource_id : String)
    (rec_id : ℕ) (live : Result (Option (Description k))) where
  -- From the live state to the last safeguard; nothing is written. `live` is what the describe call
  -- answered: `none` where it raised the ClientError that `get_resource_state` catches.
  unfoldable pub check_safe : Action F (State k)
  check_safe = do
    answer ← lift live
    state ← lift (found k env.clock answer)
    lift (verify_still_wasteful k state)
    enabled ← lift (is_action_enabled env.config (action_type k))
    lift (flag (not enabled) (safeguard action_disabled))
    confidence ← get_recommendation_confidence env rec_id
    listed ← lift (is_whitelisted env.config resource_id (tags_of k state))
    lift (flag listed (safeguard whitelisted))
    lift (check_confidence_score env.config confidence)
    lift (check_schedule env.config env.clock)
    auto ← lift (if env.dry_run then ok true else is_auto_remediation_enabled env.config)
    lift (flag (not auto) (safeguard auto_disabled))
    pure state

  unfoldable pub remediate : World F → Result Outcome × World F
  remediate w = after_checks env k resource_id rec_id (check_safe w)
