-- ===== src/Remediators/Ec2/Stops.antt =====
-- What one `stop_instance` may leave behind, for every answer of the database and of AWS.
use wasteless.Common.{
  ℕ, String, ◌≡◌, ◌≢◌, refl, ap, ◌⊎◌, inl, inr, Bool, true, false, Option, none, some, List, ◌∷◌,
  if◌then◌else◌,
}
use wasteless.Common.Int.{ℤ}
use mathlib.Core.Path.{subst}
use wasteless.Python.{Numbers, Exn, Result, ok, raised}
use wasteless.Safeguards.{validate_all}
use wasteless.Safeguards.Checks.{IsPermitted, validate_all_iff}
use wasteless.Store.{find_joined, ActionStatus}
use wasteless.Remediators.{Environment, World, Write}
use wasteless.Remediators.Rules.{
  Post, returns, raises, weaken, bind_rule, lift_rule, if_rule, execute_rule, request_rule,
}
use wasteless.Remediators.Ec2.{
  Instance, Outcome, details_of, evidence_of, question, refuse_unsafe, check_stop, stop_instance,
  act, perform, finish, create_rollback_snapshot, log_action, update_action_status, settle,
  status_of, after_log, after_checks,
}

details_of-eq-ok : (o : Option Instance) {i : Instance} → details_of o ≡ ok i → o ≡ some i
details_of-eq-ok none e = cc
details_of-eq-ok (some i) e = cc

module _ {F : Type 0} ⦃n : Numbers F⦄ (env : Environment F)
    (describe : List Write → String → Option Instance) where
  refuse_unsafe-eq-ok :
      (b : Bool) (e : Exn) {u : Unit {0}} → (if b then ok tt else raised e) ≡ ok u → b ≡ true
  refuse_unsafe-eq-ok true e h = refl
  refuse_unsafe-eq-ok false e h = cc

  -- The instance exists, and the safeguards permit to stop it as number `count` of its run.
  pub record IsStoppable (w : World F) (instance_id : String) (rec_id count : ℕ) : Type 0 where
    pub details : Instance
    pub exists : describe w.writes instance_id ≡ some details
    pub evidence : F × ℤ
    pub known : evidence_of (find_joined rec_id w.store) ≡ ok evidence
    pub permitted : IsPermitted env.config env.clock (question instance_id details evidence count)

  pub check_stop-Post :
      (w : World F) (instance_id : String) (rec_id count : ℕ)
      → Post
          (λ _ v. (v.writes ≡ w.writes) × IsStoppable w instance_id rec_id count)
          (λ v. v.writes ≡ w.writes)
          (check_stop env describe instance_id rec_id count w)
  unfolding check_stop
  check_stop-Post w instance_id rec_id count =
      lift_rule (details_of (describe w.writes instance_id)) _ w refl λ i found.
        execute_rule env _ _ w refl refl (
          lift_rule (evidence_of (find_joined rec_id w.store)) _ w refl λ evidence known.
            lift_rule (validate_all env.config env.clock (question instance_id i evidence count)) _
              w refl
              λ report reported. lift_rule (refuse_unsafe report) _ w refl λ _ safe. returns (
                refl,
                record {
                  details = i;
                  exists = details_of-eq-ok _ found;
                  evidence = evidence;
                  known = known;
                  permitted =
                      (validate_all_iff env.config env.clock _ reported).0
                        (refuse_unsafe-eq-ok report.safe_to_proceed _ safe);
                },
              ))

-- A property of the requests sent so far is kept by every step that sends none.
module _ {F : Type 0} (env : Environment F) (P : List Write → Type 0) where
  finish-Post :
      (rec_id action_id : ℕ) (v : World F)
      → P v.writes
      → Post (λ _ u. P u.writes) (λ u. P u.writes) (finish env rec_id action_id v)
  unfolding finish
  finish-Post rec_id action_id v h =
      execute_rule env _ _ v h h
        (execute_rule env _ _ v h h (execute_rule env _ _ v h h (returns h)))

  create_rollback_snapshot-Post :
      (action_id : ℕ) (instance_id : String) (v : World F)
      → P v.writes
      → Post
          (λ _ u. P u.writes)
          (λ u. P u.writes)
          (create_rollback_snapshot env action_id instance_id v)
  unfolding create_rollback_snapshot
  create_rollback_snapshot-Post action_id instance_id v h = execute_rule env _ _ v h h (returns h)

  pub log_action-Post :
      (rec_id : Option ℕ) (instance_id action : String) (status : ActionStatus) (v : World F)
      → P v.writes
      → Post
          (λ _ u. P u.writes)
          (λ u. P u.writes)
          (log_action env rec_id instance_id action status v)
  unfolding log_action
  log_action-Post rec_id instance_id action status v h = execute_rule env _ _ v h h (returns h)

  -- The rest of a run, once it has been decided what is sent.
  handler-Post :
      (action_id : ℕ) (e : Exn) (v : World F)
      → P v.writes
      → Post (λ _ u. P u.writes) (λ u. P u.writes) (settle env action_id (raised e, v))
  unfolding update_action_status
  handler-Post action_id e v h =
      bind_rule {Q = λ _ u. P u.writes} (update_action_status env action_id (status_of e) e) _ v
        (execute_rule env _ _ v h h (returns h)) (λ _ u h'. returns h')

  settle-Post :
      (action_id : ℕ) (r : Result (Unit {0}) × World F)
      → Post (λ _ u. P u.writes) (λ u. P u.writes) r
      → Post (λ _ u. P u.writes) (λ u. P u.writes) (settle env action_id r)
  settle-Post action_id (ok _, v) (returns h) = returns h
  settle-Post action_id (raised e, v) (raises h) = handler-Post action_id e v h

module _ {F : Type 0} (env : Environment F) (instance_id : String) where
  -- Nothing was sent, or the one request that stops this instance, and not in a dry run.
  abbrev pub HasSent : List Write → List Write → Type 0
  HasSent before after =
      (after ≡ before)
      ⊎ ((after ≡ Write.stop_instances instance_id ∷ before) × (env.dry_run ≡ false))

  perform-Post :
      (rec_id action_id : ℕ) (v : World F)
      → Post
          (λ _ u. HasSent v.writes u.writes)
          (λ u. HasSent v.writes u.writes)
          (perform env instance_id rec_id action_id v)
  unfolding perform act
  perform-Post rec_id action_id v =
      bind_rule {Q = λ _ u. u.writes ≡ v.writes}
        (create_rollback_snapshot env action_id instance_id) _ v
        (weaken _
          (create_rollback_snapshot-Post env (λ ws. ws ≡ v.writes) action_id instance_id v refl)
          (λ _ _ h. h) (λ _ h. inl h))
        (λ _ u same.
          if_rule env.dry_run _ _ _ u
            (λ dry. finish-Post env (HasSent v.writes) rec_id action_id u (inl same))
            (λ real.
              request_rule env _ _ u
                (inr (ap (λ ws. Write.stop_instances instance_id ∷ ws) same, real))
                (finish-Post env (HasSent v.writes) rec_id action_id _
                  (inr (ap (λ ws. Write.stop_instances instance_id ∷ ws) same, real)))))

module _ {F : Type 0} ⦃n : Numbers F⦄ (env : Environment F)
    (describe : List Write → String → Option Instance) (instance_id : String)
    (rec_id count : ℕ) where
  -- A run stops at a check, with nothing sent, or it was permitted.
  abbrev pub IsStopped : World F → Outcome → World F → Type 0
  IsStopped w o v =
      ((o.succeeded ≡ false) × (v.writes ≡ w.writes))
      ⊎ (IsStoppable env describe w instance_id rec_id count
          × HasSent env instance_id w.writes v.writes)

  after_log-Post :
      (w : World F) (r : Result ℕ × World F)
      → IsStoppable env describe w instance_id rec_id count
      → Post (λ _ u. u.writes ≡ w.writes) (λ u. u.writes ≡ w.writes) r
      → Post
          (IsStopped w)
          (λ v.
            IsStoppable env describe w instance_id rec_id count
            × HasSent env instance_id w.writes v.writes)
          (after_log env instance_id rec_id r)
  after_log-Post w (ok action_id, u) s (returns same) =
      weaken _
        (settle-Post env (HasSent env instance_id u.writes) action_id _
          (perform-Post env instance_id rec_id action_id u))
        (λ _ v h. inr (s, subst (λ ws. HasSent env instance_id ws v.writes) same h))
        (λ v h. (s, subst (λ ws. HasSent env instance_id ws v.writes) same h))
  after_log-Post w (raised e, u) s (raises same) = returns (inl (refl, same))

  after_checks-Post :
      (w : World F) (r : Result Instance × World F)
      → Post
          (λ _ v. (v.writes ≡ w.writes) × IsStoppable env describe w instance_id rec_id count)
          (λ v. v.writes ≡ w.writes)
          r
      → Post
          (IsStopped w)
          (λ v.
            IsStoppable env describe w instance_id rec_id count
            × HasSent env instance_id w.writes v.writes)
          (after_checks env instance_id rec_id r)
  after_checks-Post w (ok i, v) (returns (same, s)) = after_log-Post w _ s (
      log_action-Post env (λ ws. ws ≡ w.writes) (some rec_id) instance_id "stop"
        ActionStatus.pending v same)
  after_checks-Post w (raised e, v) (raises same) = returns (inl (refl, same))

  -- One `stop_instance`: either it fails and AWS is sent nothing, or the instance exists and every
  -- safeguard permits to stop it, and AWS is sent nothing or the one request to stop this instance,
  -- the latter not in a dry run. When it raises instead, the second holds.
  pub stop_instance-Post :
      (w : World F)
      → Post
          (IsStopped w)
          (λ v.
            IsStoppable env describe w instance_id rec_id count
            × HasSent env instance_id w.writes v.writes)
          (stop_instance env describe instance_id rec_id count w)
  unfolding stop_instance
  stop_instance-Post w =
      after_checks-Post w _ (check_stop-Post env describe w instance_id rec_id count)

  -- When `stop_instance` has sent AWS anything, then it is the one request to stop this instance, the
  -- run is no dry run, the instance was found, and every safeguard permits to stop it as the next one
  -- of its run, on the evidence in the tables.
  pub stop_instance_written :
      (w : World F)
      → (stop_instance env describe instance_id rec_id count w).1.writes ≢ w.writes
      → IsStoppable env describe w instance_id rec_id count
        × ((stop_instance env describe instance_id rec_id count w).1.writes
            ≡ Write.stop_instances instance_id ∷ w.writes)
        × (env.dry_run ≡ false)
  stop_instance_written w changed = go _ (stop_instance-Post w) changed
    where
      sent_one :
          (v : World F)
          → IsStoppable env describe w instance_id rec_id count
          → HasSent env instance_id w.writes v.writes
          → v.writes ≢ w.writes
          → IsStoppable env describe w instance_id rec_id count
            × (v.writes ≡ Write.stop_instances instance_id ∷ w.writes)
            × (env.dry_run ≡ false)
      sent_one v s (inl same) other = absurd (other same)
      sent_one v s (inr (one, real)) other = (s, one, real)

      go :
          (r : Result Outcome × World F)
          → Post
              (IsStopped w)
              (λ v.
                IsStoppable env describe w instance_id rec_id count
                × HasSent env instance_id w.writes v.writes)
              r
          → r.1.writes ≢ w.writes
          → IsStoppable env describe w instance_id rec_id count
            × (r.1.writes ≡ Write.stop_instances instance_id ∷ w.writes)
            × (env.dry_run ≡ false)
      go (ok o, v) (returns (inl (_, same))) other = absurd (other same)
      go (ok o, v) (returns (inr (s, h))) other = sent_one v s h other
      go (raised e, v) (raises (s, h)) other = sent_one v s h other
