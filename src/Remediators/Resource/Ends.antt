-- ===== src/Remediators/Resource/Ends.antt =====
-- The ways in which a run of `remediate` can end, and what each leaves behind.
use wasteless.Common.{ℕ, String, ◌≡◌, refl, ap, inl, inr, true, false, none, some}
use wasteless.Python.{Exn, Result, ok, raised}
use wasteless.Store.{Store, ActionRow, ActionStatus, set_action}
use wasteless.Remediators.{Environment, World}
use wasteless.Remediators.Rules.{Post, returns, raises, bind_rule, execute_rule}
use wasteless.Remediators.Tables.{IsFresh, update_newest}
use wasteless.Remediators.Kinds.{Kind, State}
use wasteless.Remediators.Resource.{
  update_action_status, Outcome, outcome, status_of, settle, after_log, carry_out,
}
use wasteless.Remediators.Resource.Flow.{IsLogged, IsDone, action_row, log_action-Post}
use wasteless.Remediators.Resource.Sends.{IsGuarded, perform-Post}

-- How the part behind the checks ends, from the world `w` on.
pub data IsActed {F : Type 0} (env : Environment F) (k : Kind) (resource_id : String) (rec_id : ℕ)
    (w : World F) (fresh : IsFresh w.store) : Result Outcome × World F → Type 0 where
  -- The row could not be written: nothing is changed.
  unlogged :
      {o : Outcome} {v : World F}
      → o.succeeded ≡ false
      → o.action_log_id ≡ none
      → v.store ≡ w.store
      → v.writes ≡ w.writes
      → IsActed env k resource_id rec_id w fresh (ok o, v)
  -- The row says success; the recommendation is applied, unless it was a dry run.
  completed :
      {o : Outcome} {v : World F}
      → o.succeeded ≡ true
      → o.action_log_id ≡ some w.store.next_action
      → IsDone env resource_id rec_id k w.store fresh v.store
      → IsGuarded env resource_id rec_id k w v
      → IsActed env k resource_id rec_id w fresh (ok o, v)
  -- The row says what went wrong, and the recommendation is as before.
  failed :
      {o : Outcome} {v : World F} (e : Exn)
      → o.succeeded ≡ false
      → o.action_log_id ≡ some w.store.next_action
      → o.error_of ≡ some e
      → IsLogged env resource_id rec_id k
          (status_of env k resource_id rec_id e)
          (some e)
          w.store
          v.store
      → IsGuarded env resource_id rec_id k w v
      → IsActed env k resource_id rec_id w fresh (ok o, v)
  -- The handler's own update failed: the row stays pending, and the exception leaves `remediate`.
  lost :
      {e : Exn} {v : World F}
      → IsLogged env resource_id rec_id k ActionStatus.pending none w.store v.store
      → IsGuarded env resource_id rec_id k w v
      → IsActed env k resource_id rec_id w fresh (raised e, v)

module _ {F : Type 0} (env : Environment F) (k : Kind) (resource_id : String) (rec_id : ℕ)
    (w : World F) (fresh : IsFresh w.store) where
  marked :
      (t : Store F) (status : ActionStatus) (e : Exn)
      → IsLogged env resource_id rec_id k ActionStatus.pending none w.store t
      → IsLogged env resource_id rec_id k status (some e) w.store (
          set_action w.store.next_action
            (λ a. record a { status = status; error_message = some e })
            t)
  unfolding set_action
  marked t status e l = record {
    log = rw l.log (
        update_newest (λ (a : ActionRow). a.id)
          (λ a. record a { status = status; error_message = some e }) w.store.next_action
          (action_row env resource_id rec_id k ActionStatus.pending none w.store.next_action)
          w.store.actions_log refl fresh.actions);
    recommendations = l.recommendations;
  }

  -- Between the end of the `try` and the handler: nothing has been written for good.
  abbrev IsOpenRun : World F → Type 0
  IsOpenRun u =
      IsLogged env resource_id rec_id k ActionStatus.pending none w.store u.store
      × IsGuarded env resource_id rec_id k w u

  marked-IsGuarded :
      (u : World F) (f : ActionRow → ActionRow)
      → IsGuarded env resource_id rec_id k w u
      → IsGuarded env resource_id rec_id k w
          (record u { store = set_action w.store.next_action f u.store })
  unfolding set_action
  marked-IsGuarded u f (inl same) = inl same
  marked-IsGuarded u f (inr (b, real)) = inr (
    record {
      row = b.row;
      rollbacks = b.rollbacks;
      id = b.id;
      of_action = b.of_action;
      of_resource = b.of_resource;
      of_type = b.of_type;
    },
    real,
  )

  handler-Post :
      (e : Exn) (v : World F)
      → IsOpenRun v
      → Post
          (λ o u.
            (o ≡ outcome env k resource_id rec_id false (some w.store.next_action) (some e))
            × IsLogged env resource_id rec_id k
                (status_of env k resource_id rec_id e)
                (some e)
                w.store
                u.store
            × IsGuarded env resource_id rec_id k w u)
          IsOpenRun
          (settle env k resource_id rec_id w.store.next_action (raised e, v))
  unfolding update_action_status
  handler-Post e v (l, g) =
      bind_rule
        {Q = λ _ u.
          IsLogged env resource_id rec_id k (status_of env k resource_id rec_id e) (some e) w.store
            u.store
          × IsGuarded env resource_id rec_id k w u}
        (update_action_status env w.store.next_action (status_of env k resource_id rec_id e) e) _ v
        (execute_rule env _ _ v (l, g) (l, still g)
          (returns (marked v.store _ e l, marked-IsGuarded v _ g)))
        (λ _ u (l', g'). returns (refl, l', g'))
    where
      still :
          IsGuarded env resource_id rec_id k w v
          → IsGuarded env resource_id rec_id k w (record v { aborted = true })
      still (inl same) = inl same
      still (inr b) = inr b

  handled-IsActed :
      (e : Exn) (r : Result Outcome × World F)
      → Post
          (λ o u.
            (o ≡ outcome env k resource_id rec_id false (some w.store.next_action) (some e))
            × IsLogged env resource_id rec_id k
                (status_of env k resource_id rec_id e)
                (some e)
                w.store
                u.store
            × IsGuarded env resource_id rec_id k w u)
          IsOpenRun
          r
      → IsActed env k resource_id rec_id w fresh r
  handled-IsActed e (ok o, u) (returns (same, l, g)) =
      failed e (ap (λ (x : Outcome). x.succeeded) same) (ap (λ (x : Outcome). x.action_log_id) same)
        (ap (λ (x : Outcome). x.error_of) same) l g
  handled-IsActed e (raised e', u) (raises (l, g)) = lost l g

  settle-IsActed :
      (r : Result (Unit {0}) × World F)
      → Post
          (λ _ u.
            IsDone env resource_id rec_id k w.store fresh u.store
            × IsGuarded env resource_id rec_id k w u)
          IsOpenRun
          r
      → IsActed env k resource_id rec_id w fresh
          (settle env k resource_id rec_id w.store.next_action r)
  settle-IsActed (ok _, v) (returns (d, g)) = completed refl refl d g
  settle-IsActed (raised e, v) (raises h) = handled-IsActed e _ (handler-Post e v h)

  after_log-IsActed :
      (state : State k) (r : Result ℕ × World F)
      → Post
          (λ id v.
            (id ≡ w.store.next_action)
            × IsLogged env resource_id rec_id k ActionStatus.pending none w.store v.store
            × (v.store.rollbacks ≡ w.store.rollbacks)
            × (v.store.next_rollback ≡ w.store.next_rollback)
            × (v.writes ≡ w.writes))
          (λ v. (v.store ≡ w.store) × (v.writes ≡ w.writes))
          r
      → IsActed env k resource_id rec_id w fresh (after_log env k resource_id rec_id state r)
  after_log-IsActed state (ok id, v) (returns (same, l, rollbacks, next, writes)) = rw same (
      settle-IsActed _
        (perform-Post env resource_id rec_id k w fresh state v l rollbacks next writes))
  after_log-IsActed state (raised e, v) (raises (store, writes)) = unlogged refl refl store writes

  pub carry_out-IsActed :
      (state : State k)
      → IsActed env k resource_id rec_id w fresh (carry_out env k resource_id rec_id state w)
  unfolding carry_out
  carry_out-IsActed state = after_log-IsActed state _ (log_action-Post env resource_id rec_id k w)
