-- ===== src/Proxy/Quiet.antt =====
-- ui/utils/remediator.py: a dry batch.
use wasteless.Common.{
  ℕ, String, ◌≡◌, refl, ◌∙◌, Bool, true, false, Option, none, some, List, [], ◌∷◌, if◌then◌else◌,
  inl, inr, Bool-cases,
}
use wasteless.Python.{Numbers, Exn, Result, ok, raised}
use wasteless.Store.{Waste, Recommendation, find_joined}
use wasteless.Remediators.{Environment, World, Write}
use wasteless.Remediators.Rules.{Post, returns, raises, weaken, bind_rule, if_rule, execute_rule}
use wasteless.Remediators.Ec2
use wasteless.Remediators.Ec2.{stop_instance}
use wasteless.Remediators.Ec2.Stops.{stop_instance-Post}
use wasteless.Remediators.Ec2.Runs.{quiet, stop_quiet}
use wasteless.Remediators.Kinds.{Kind, State}
use wasteless.Remediators.Resource
use wasteless.Remediators.Resource.{
  log_action, update_action_status, create_rollback_snapshot, act, finish, perform, settle,
  after_log, carry_out, after_checks, check_safe, remediate,
}
use wasteless.Remediators.Resource.Guards.{check_safe-Post}
use wasteless.Proxy.{
  Desk, Surroundings, kind_of, is_ec2, raised_report, after_stop, after_remediate, stop_one,
  remediate_one, by_kind, dispatched, queried, execute_one, execute_each, execute_recommendations,
}

module _ {F : Type 0} (env : Environment F) (dry : env.dry_run ≡ true) (ws : List Write) where
  abbrev IsQuiet : {A : Type 0} → Result A × World F → Type 0
  IsQuiet r = Post (λ _ v. v.writes ≡ ws) (λ v. v.writes ≡ ws) r

  perform-IsQuiet :
      (k : Kind) (id : String) (rec_id action_id : ℕ) (state : State k) (w : World F)
      → w.writes ≡ ws
      → IsQuiet (perform env k id rec_id action_id state w)
  unfolding perform create_rollback_snapshot act finish
  perform-IsQuiet k id rec_id action_id state w h =
      bind_rule {Q = λ _ v. v.writes ≡ ws} (create_rollback_snapshot env k action_id id) _ w
        (execute_rule env _ _ w h h (returns h))
        (λ _ v h.
          if_rule env.dry_run _ _ _ v
            (λ _. execute_rule env _ _ v h h (
              if_rule env.dry_run _ _ _ v (λ _. execute_rule env _ _ v h h (returns h))
                (λ real. cc)))
            (λ real. cc))

  carry_out-IsQuiet :
      (k : Kind) (id : String) (rec_id : ℕ) (state : State k) (w : World F)
      → w.writes ≡ ws
      → IsQuiet (carry_out env k id rec_id state w)
  unfolding carry_out log_action update_action_status
  carry_out-IsQuiet k id rec_id state w h = logged _ (execute_rule env _ _ w h h (returns h))
    where
      settled :
          (action_id : ℕ) (r : Result (Unit {0}) × World F)
          → IsQuiet r
          → IsQuiet (settle env k id rec_id action_id r)
      settled action_id (ok _, v) (returns h) = returns h
      settled action_id (raised e, v) (raises h) =
          bind_rule {Q = λ _ v. v.writes ≡ ws} (update_action_status env action_id _ e) _ v
            (execute_rule env _ _ v h h (returns h)) (λ _ v h. returns h)

      logged : (r : Result ℕ × World F) → IsQuiet r → IsQuiet (after_log env k id rec_id state r)
      logged (ok action_id, v) (returns h) =
          settled action_id _ (perform-IsQuiet k id rec_id action_id state v h)
      logged (raised e, v) (raises h) = returns h

module _ {F : Type 0} ⦃n : Numbers F⦄ (s : Surroundings F) (dry : s.env.dry_run ≡ true) where
  stop_one_quiet :
      (rec_id count : ℕ) (w : Waste F) (e : Option Exn) (d : Desk F)
      → (stop_one s rec_id count w e d).1.writes ≡ d.writes
  stop_one_quiet rec_id count w (some e) d = refl
  stop_one_quiet rec_id count w none d =
      let v : World F = record { store = d.store; aborted = d.ec2_aborted; writes = d.writes } in
      done _ (
        weaken _ (stop_instance-Post s.env s.describe w.resource_id rec_id count v)
          (λ o u h. stop_quiet s.env s.describe v u o w.resource_id rec_id count dry h)
          (λ u h. quiet s.env s.describe w.resource_id _ _ dry h.1))
    where
      done :
          (r : Result Ec2.Outcome × World F)
          → Post (λ _ u. u.writes ≡ d.writes) (λ u. u.writes ≡ d.writes) r
          → (after_stop d rec_id count w r).1.writes ≡ d.writes
      done (ok o, u) (returns h) = h
      done (raised e, u) (raises h) = h

  by_kind_quiet :
      (rec_id count : ℕ) (w : Waste F) (k : Option Kind) (d : Desk F)
      → (by_kind s rec_id count w k d).1.writes ≡ d.writes
  unfolding remediate
  by_kind_quiet rec_id count w none d = refl
  by_kind_quiet rec_id count w (some k) d = built (s.builds k)
    where
      done :
          (r : Result Resource.Outcome × World F)
          → Post (λ _ u. u.writes ≡ d.writes) (λ u. u.writes ≡ d.writes) r
          → (after_remediate d rec_id count k w r).1.writes ≡ d.writes
      done (ok o, u) (returns h) = h
      done (raised e, u) (raises h) = h

      checked :
          (r : Result (State k) × World F)
          → Post (λ _ u. u.writes ≡ d.writes) (λ u. u.writes ≡ d.writes) r
          → Post
              (λ _ u. u.writes ≡ d.writes)
              (λ u. u.writes ≡ d.writes)
              (after_checks s.env k w.resource_id rec_id r)
      checked (ok state, u) (returns h) =
          carry_out-IsQuiet s.env dry d.writes k w.resource_id rec_id state u h
      checked (raised e, u) (raises h) = returns h

      built : (e : Option Exn) → (remediate_one s rec_id count k w e d).1.writes ≡ d.writes
      built (some e) = refl
      built none =
          let v : World F = record { store = d.store; aborted = d.aborted k; writes = d.writes } in
          done _ (
            checked _ (
              weaken _
                (check_safe-Post s.env k w.resource_id rec_id (s.live k d.writes w.resource_id) v)
                (λ state u h. h.0.writes) (λ u h. h.writes)))

  dispatched_quiet :
      (rec_id count : ℕ) (row : Option (Recommendation × Waste F)) (d : Desk F)
      → (dispatched s rec_id count row d).1.writes ≡ d.writes
  dispatched_quiet rec_id count none d = refl
  dispatched_quiet rec_id count (some (r, w)) d = elim (Bool-cases (is_ec2 r.recommendation_type)) [
    | inl ec2 ↦ rw ec2 (stop_one_quiet rec_id count w s.builds_ec2 d)
    | inr other ↦ rw other (by_kind_quiet rec_id count w (kind_of r.recommendation_type) d)
  ]

  execute_one_quiet :
      (rec_id count : ℕ) (d : Desk F) → (execute_one s rec_id count d).1.writes ≡ d.writes
  unfolding execute_one
  execute_one_quiet rec_id count d = go d.page_aborted (s.query_fails rec_id)
    where
      go :
          (b : Bool) (failure : Option String)
          → (if b
              then ((raised_report rec_id, count), d)
              else queried s rec_id count failure d).1.writes
            ≡ d.writes
      go true failure = refl
      go false (some text) = refl
      go false none = dispatched_quiet rec_id count (find_joined rec_id d.store) d

  execute_each_quiet :
      (ids : List ℕ) (count : ℕ) (d : Desk F) → (execute_each s count ids d).1.writes ≡ d.writes
  unfolding execute_each
  execute_each_quiet [] count d = refl
  execute_each_quiet (rec_id ∷ ids) count d =
      execute_each_quiet ids _ _ ∙ execute_one_quiet rec_id count d

  -- With `dry_run` set a batch sends AWS no request that changes something, whatever its ids lead to
  -- and whatever the database and AWS answer.
  pub execute_recommendations_dry_run :
      (ids : List ℕ) (d : Desk F) → (execute_recommendations s ids d).1.writes ≡ d.writes
  unfolding execute_recommendations
  execute_recommendations_dry_run ids d = execute_each_quiet ids 0 d
