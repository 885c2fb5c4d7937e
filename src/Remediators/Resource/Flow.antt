-- ===== src/Remediators/Resource/Flow.antt =====
-- What a run of `remediate` leaves in the tables and sends to AWS, on every path.
use wasteless.Common.{
  inl, inr, Bool-cases, ℕ, ◌+◌, ◌<◌, String, ◌≡◌, refl, ◌∙◌, Bool, true, false, Option, none, some,
  List, [], ◌∷◌, All, if◌then◌else◌,
}
use wasteless.Python.{Exn, Result, ok, raised}
use wasteless.Store.{
  Store, ActionRow, Rollback, Recommendation, Status, ActionStatus, set_status, set_action,
  insert_action, insert_rollback,
}
use wasteless.Remediators.{Environment, World, Write, Action, sent, replied, request}
use wasteless.Remediators.Rules.{Post, returns, raises, if_rule, execute_rule}
use wasteless.Remediators.Tables.{IsFresh, update_newest, attach-inserted}
use wasteless.Remediators.Kinds.{Kind, resource_type, action_type, can_rollback}
use wasteless.Remediators.Resource.{
  rollback_days, log_action, create_rollback_snapshot, attach_snapshot, after_delete,
  delete_snapshots, finish,
}

module _ {F : Type 0} where
  if_both : (b : Bool) (P : Store F → Type 0) (t u : Store F) → P t → P u → P (if b then t else u)
  if_both true P t u h k = h
  if_both false P t u h k = k

  if_recommendations :
      (b : Bool) (t u : Store F) {xs ys : List Recommendation}
      → t.recommendations ≡ xs
      → u.recommendations ≡ ys
      → (if b then t else u).recommendations ≡ (if b then xs else ys)
  if_recommendations true t u h k = h
  if_recommendations false t u h k = k

module _ {F : Type 0} (env : Environment F) (resource_id : String) (rec_id : ℕ) (k : Kind) where
  -- The row that `_log_action` writes, with the status that it has later.
  abbrev pub action_row : ActionStatus → Option Exn → ℕ → ActionRow
  action_row status e id = record {
    id = id;
    recommendation_id = some rec_id;
    resource_id = resource_id;
    resource_type = resource_type k;
    action_type = action_type k;
    status = status;
    dry_run = env.dry_run;
    error_message = e;
  }

  -- Since the store `s` the action has got its row, and no recommendation has changed.
  pub record IsLogged (status : ActionStatus) (e : Option Exn) (s t : Store F) : Type 0 where
    pub log : t.actions_log ≡ action_row status e s.next_action ∷ s.actions_log
    pub recommendations : t.recommendations ≡ s.recommendations

  -- A rollback row of this action stands before the rows of `s`.
  pub record IsBacked (s t : Store F) : Type 0 where
    pub row : Rollback
    pub rollbacks : t.rollbacks ≡ row ∷ s.rollbacks
    pub id : row.id ≡ s.next_rollback
    pub of_action : row.action_log_id ≡ s.next_action
    pub of_resource : row.resource_id ≡ resource_id
    pub of_type : row.resource_type ≡ resource_type k

  -- While the action runs: its row is pending, its rollback row is there.
  pub record IsRunning (s t : Store F) : Type 0 where
    pub logged : IsLogged ActionStatus.pending none s t
    pub backed : IsBacked s t

  pub log_action-Post :
      (w : World F)
      → Post
          (λ id v.
            (id ≡ w.store.next_action)
            × IsLogged ActionStatus.pending none w.store v.store
            × (v.store.rollbacks ≡ w.store.rollbacks)
            × (v.store.next_rollback ≡ w.store.next_rollback)
            × (v.writes ≡ w.writes))
          (λ v. (v.store ≡ w.store) × (v.writes ≡ w.writes))
          (log_action env k rec_id resource_id w)
  unfolding log_action insert_action
  log_action-Post w =
      execute_rule env _ _ w (refl, refl) (refl, refl)
        (returns (refl, record { log = refl; recommendations = refl }, refl, refl, refl))

  pub rollback-Post :
      (s : Store F) (v : World F)
      → IsLogged ActionStatus.pending none s v.store
      → v.store.rollbacks ≡ s.rollbacks
      → v.store.next_rollback ≡ s.next_rollback
      → Post
          (λ _ u. IsRunning s u.store × (u.writes ≡ v.writes))
          (λ u. IsLogged ActionStatus.pending none s u.store × (u.writes ≡ v.writes))
          (create_rollback_snapshot env k s.next_action resource_id v)
  unfolding create_rollback_snapshot insert_rollback
  rollback-Post s v logged same next =
      execute_rule env _ _ v (logged, refl) (logged, refl)
        (returns (
          record {
            logged = record { log = logged.log; recommendations = logged.recommendations };
            backed = record {
              row = record {
                id = v.store.next_rollback;
                action_log_id = s.next_action;
                resource_id = resource_id;
                resource_type = resource_type k;
                can_rollback = can_rollback k;
                rollback_expiry = env.clock.now + rollback_days;
                rollback_ebs_snapshot_id = none;
              };
              rollbacks = rw same;
              id = next;
              of_action = refl;
              of_resource = refl;
              of_type = refl;
            };
          },
          refl,
        ))

  module _ (s : Store F) (fresh : IsFresh s) where
    pub attach-Post :
        (v : World F)
        → resource_type k ≡ "ebs_volume"
        → IsRunning s v.store
        → Post
            (λ _ u. IsRunning s u.store)
            (λ u. IsRunning s u.store)
            (attach_snapshot env resource_id v)
    unfolding attach_snapshot
    attach-Post v volume r =
        let b = r.backed in
        let below : All (λ (x : Rollback). x.id < b.row.id) s.rollbacks = rw b.id fresh.rollbacks in
        execute_rule env _ _ v r r (
          returns (record {
            logged = record { log = r.logged.log; recommendations = r.logged.recommendations };
            backed = record {
              row = record b.row { rollback_ebs_snapshot_id = some env.snapshot_id };
              rollbacks = rw b.rollbacks (
                  attach-inserted resource_id "ebs_volume" env.snapshot_id b.row s.rollbacks
                    b.of_resource (b.of_type ∙ volume) below);
              id = b.id;
              of_action = b.of_action;
              of_resource = b.of_resource;
              of_type = b.of_type;
            };
          }))

    replied-store :
        (o : Option String) (v : World F) → IsRunning s v.store → IsRunning s (replied o v).1.store
    replied-store none v r = r
    replied-store (some text) v r = r

    request-store :
        (x : Write) (v : World F) → IsRunning s v.store → IsRunning s (request env x v).1.store
    unfolding request
    request-store x v r = replied-store (env.answer v x) (sent x v) r

    after_delete-Post :
        (i : String) (left : List String) (next : List String → Action F (List String))
        (x : Result (Unit {0}) × World F)
        → IsRunning s x.1.store
        → ((l : List String) (v : World F)
            → IsRunning s v.store
            → Post (λ _ u. IsRunning s u.store) (λ u. IsRunning s u.store) (next l v))
        → Post
            (λ _ u. IsRunning s u.store)
            (λ u. IsRunning s u.store)
            (after_delete env i left next x)
    after_delete-Post i left next (ok u, v) r h = h left v r
    after_delete-Post i left next (raised e, v) r h =
        elim (Bool-cases (env.is_client_error (Write.delete_snapshot i))) [
          | inl collected ↦ rw collected (h (i ∷ left) v r)
          | inr other ↦ rw other (raises r)
        ]

    pub delete_snapshots-Post :
        (ids left : List String) (v : World F)
        → IsRunning s v.store
        → Post
            (λ _ u. IsRunning s u.store)
            (λ u. IsRunning s u.store)
            (delete_snapshots env ids left v)
    unfolding delete_snapshots
    delete_snapshots-Post [] left v r = returns r
    delete_snapshots-Post (i ∷ ids) left v r =
        after_delete-Post i left (delete_snapshots env ids)
          (request env (Write.delete_snapshot i) v) (request-store (Write.delete_snapshot i) v r)
          (delete_snapshots-Post ids)

    -- The two updates of `finish`, once they are committed.
    pub record IsDone (t : Store F) : Type 0 where
      pub log : t.actions_log ≡ action_row ActionStatus.success none s.next_action ∷ s.actions_log
      pub recommendations : t.recommendations ≡ (
          if env.dry_run
          then s.recommendations
          else (set_status rec_id Status.applied env.clock.now s).recommendations)
      pub backed : IsBacked s t

    done_log :
        (t : Store F)
        → IsRunning s t
        → (set_action s.next_action (λ a. record a { status = ActionStatus.success }) t).actions_log
          ≡ action_row ActionStatus.success none s.next_action ∷ s.actions_log
    unfolding set_action
    done_log t r = rw r.logged.log (
        update_newest (λ (a : ActionRow). a.id) (λ a. record a { status = ActionStatus.success })
          s.next_action (action_row ActionStatus.pending none s.next_action) s.actions_log refl
          fresh.actions)

    still-IsBacked : (t u : Store F) → u.rollbacks ≡ t.rollbacks → IsBacked s t → IsBacked s u
    still-IsBacked t u same b = record {
      row = b.row;
      rollbacks = same ∙ b.rollbacks;
      id = b.id;
      of_action = b.of_action;
      of_resource = b.of_resource;
      of_type = b.of_type;
    }

    committed :
        (t : Store F)
        → IsRunning s t
        → let t' = set_action s.next_action (λ a. record a { status = ActionStatus.success }) t in
          IsDone (if env.dry_run then t' else set_status rec_id Status.applied env.clock.now t')
    unfolding set_action set_status
    committed t r =
        let t' = set_action s.next_action (λ a. record a { status = ActionStatus.success }) t in
        let t'' = set_status rec_id Status.applied env.clock.now t' in
        record {
          log =
              if_both env.dry_run
                (λ u.
                  u.actions_log
                  ≡ action_row ActionStatus.success none s.next_action ∷ s.actions_log)
                t' t'' (done_log t r) (done_log t r);
          recommendations =
              if_recommendations env.dry_run t' t'' r.logged.recommendations
                (rw r.logged.recommendations);
          backed =
              if_both env.dry_run (IsBacked s) t' t'' (still-IsBacked t t' refl r.backed)
                (still-IsBacked t t'' refl r.backed);
        }

    pub finish-Post :
        (v : World F)
        → IsRunning s v.store
        → Post
            (λ _ u. IsDone u.store × (u.writes ≡ v.writes))
            (λ u. IsRunning s u.store × (u.writes ≡ v.writes))
            (finish env k resource_id rec_id s.next_action v)
    unfolding finish
    finish-Post v r =
        execute_rule env _ _ v (r, refl) (r, refl)
          (if_rule env.dry_run _ _ _ v
            (λ dry.
              execute_rule env _ _ v (r, refl) (r, refl) (returns (committed v.store r, refl)))
            (λ real.
              execute_rule env _ _ v (r, refl) (r, refl)
                (execute_rule env _ _ v (r, refl) (r, refl) (returns (committed v.store r, refl)))))
