-- ===== src/Remediators/Resource/Sends.antt =====
-- What `perform` sends to AWS, and what stands in the tables before it does.
use wasteless.Common.{ℕ, String, ◌≡◌, refl, ◌∙◌, ◌⊎◌, inl, inr, false, none, []}
use wasteless.Store.{Store, ActionStatus}
use wasteless.Remediators.{Environment, World}
use wasteless.Remediators.Rules.{
  Post, weaken, bind_rule, lift_last, if_rule, request_rule, request_last,
}
use wasteless.Remediators.Tables.{IsFresh}
use wasteless.Remediators.Kinds.{Kind, State}
use wasteless.Remediators.Resource.{
  create_rollback_snapshot, attach_snapshot, delete_snapshots, execute_action, act, perform,
}
use wasteless.Remediators.Resource.Flow.{
  IsLogged, IsBacked, IsRunning, rollback-Post, attach-Post, delete_snapshots-Post, IsDone,
  finish-Post,
}

-- Requests go out only behind a rollback row, and never in a dry run.
abbrev pub IsGuarded :
    {F : Type 0} (env : Environment F) (resource_id : String) (rec_id : ℕ) (k : Kind)
    → World F
    → World F
    → Type 0
IsGuarded env resource_id rec_id k w v =
    (v.writes ≡ w.writes)
    ⊎ (IsBacked env resource_id rec_id k w.store v.store × (env.dry_run ≡ false))

module _ {F : Type 0} (env : Environment F) (resource_id : String) (rec_id : ℕ) where
  execute-Post :
      (k : Kind) (s : Store F) (fresh : IsFresh s) (state : State k) (v : World F)
      → IsRunning env resource_id rec_id k s v.store
      → Post
          (λ _ u. IsRunning env resource_id rec_id k s u.store)
          (λ u. IsRunning env resource_id rec_id k s u.store)
          (execute_action env k resource_id state v)
  unfolding execute_action
  execute-Post Kind.gp2_migration s fresh state v r = request_last env _ v r r
  execute-Post Kind.volume_delete s fresh state v r = request_rule env _ _ v r (
      bind_rule (attach_snapshot env resource_id) _ _
        (attach-Post env resource_id rec_id Kind.volume_delete s fresh _ refl r)
        (λ _ u r'. request_last env _ u r' r'))
  execute-Post Kind.nat_gateway s fresh state v r = request_last env _ v r r
  execute-Post Kind.load_balancer s fresh state v r = request_last env _ v r r
  execute-Post Kind.eip_release s fresh state v r = request_last env _ v r r
  execute-Post Kind.snapshot_delete s fresh state v r = request_last env _ v r r
  execute-Post Kind.ami_deregister s fresh state v r = request_rule env _ _ v r (
      bind_rule (delete_snapshots env state.snapshot_ids []) _ _
        (delete_snapshots-Post env resource_id rec_id Kind.ami_deregister s fresh state.snapshot_ids
          [] _ r)
        (λ left u r'. lift_last _ u r' (λ _ _. r')))

module _ {F : Type 0} (env : Environment F) (resource_id : String) (rec_id : ℕ) (k : Kind)
    (w : World F) (fresh : IsFresh w.store) where
  pub perform-Post :
      (state : State k) (v : World F)
      → IsLogged env resource_id rec_id k ActionStatus.pending none w.store v.store
      → v.store.rollbacks ≡ w.store.rollbacks
      → v.store.next_rollback ≡ w.store.next_rollback
      → v.writes ≡ w.writes
      → Post
          (λ _ u.
            IsDone env resource_id rec_id k w.store fresh u.store
            × IsGuarded env resource_id rec_id k w u)
          (λ u.
            IsLogged env resource_id rec_id k ActionStatus.pending none w.store u.store
            × IsGuarded env resource_id rec_id k w u)
          (perform env k resource_id rec_id w.store.next_action state v)
  unfolding perform act
  perform-Post state v logged rollbacks next writes =
      let id = w.store.next_action in
      let Running = IsRunning env resource_id rec_id k w.store in
      bind_rule {Q = λ _ u. Running u.store × (u.writes ≡ v.writes)}
        (create_rollback_snapshot env k id resource_id) _ v
        (weaken _ (rollback-Post env resource_id rec_id k w.store v logged rollbacks next)
          (λ _ _ h. h) (λ u (l, same). (l, inl (same ∙ writes))))
        (λ _ u (r, same).
          if_rule env.dry_run _ _ _ u
            (λ dry.
              weaken _ (finish-Post env resource_id rec_id k w.store fresh u r)
                (λ _ _ (d, kept). (d, inl (kept ∙ same ∙ writes)))
                (λ _ (r', kept). (r'.logged, inl (kept ∙ same ∙ writes))))
            (λ real.
              bind_rule {Q = λ _ u'. Running u'.store} (execute_action env k resource_id state) _ u
                (weaken _ (execute-Post env resource_id rec_id k w.store fresh state u r)
                  (λ _ _ h. h) (λ _ r'. (r'.logged, inr (r'.backed, real))))
                (λ _ u' r'.
                  weaken _ (finish-Post env resource_id rec_id k w.store fresh u' r')
                    (λ _ _ (d, _). (d, inr (d.backed, real)))
                    (λ _ (r'', _). (r''.logged, inr (r''.backed, real))))))
