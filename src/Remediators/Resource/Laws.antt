-- ===== src/Remediators/Resource/Laws.antt =====
-- What `remediate` promises, whatever the database and AWS answer.
use wasteless.Common.{
  ℕ, String, ◌≡◌, ◌≢◌, refl, sym, ap, ◌∙◌, ◌⊎◌, inl, inr, Bool, true, false, Option, none, List,
  ◌∷◌, if◌then◌else◌,
}
use mathlib.Core.Path.{subst}
use wasteless.Python.{Numbers, Result, ok, raised}
use wasteless.Store.{Store, ActionStatus, Status, Recommendation, set_status}
use wasteless.Remediators.{Environment, World}
use wasteless.Remediators.Rules.{Post, returns, raises}
use wasteless.Remediators.Tables.{IsFresh}
use wasteless.Remediators.Kinds.{Kind, Description, State}
use wasteless.Remediators.Resource.{Outcome, after_checks, remediate}
use wasteless.Remediators.Resource.Guards.{IsSame, IsCleared, check_safe-Post}
use wasteless.Remediators.Resource.Flow.{IsBacked, action_row}
use wasteless.Remediators.Resource.Sends.{IsGuarded}
use wasteless.Remediators.Resource.Ends.{
  IsActed, unlogged, completed, failed, lost, carry_out-IsActed,
}

chosen : (b : Bool) (xs ys : List Recommendation) → b ≡ true → (if b then xs else ys) ≡ xs
chosen true xs ys h = refl
chosen false xs ys h = cc

module _ {F : Type 0} (env : Environment F) (k : Kind) (resource_id : String) (rec_id : ℕ)
    (w : World F) where
  -- What the result says of the tables.
  abbrev pub IsTold : Result Outcome → Store F → Type 0
  IsTold (raised e) t = t.recommendations ≡ w.store.recommendations
  IsTold (ok o) t =
      ((o.succeeded ≡ false) × (t.recommendations ≡ w.store.recommendations))
      ⊎ ((o.succeeded ≡ true)
          × (t.actions_log
              ≡ action_row env resource_id rec_id k ActionStatus.success none w.store.next_action
                ∷ w.store.actions_log)
          × (t.recommendations ≡ (
              if env.dry_run
              then w.store.recommendations
              else (set_status rec_id Status.applied env.clock.now w.store).recommendations)))

module _ {F : Type 0} (env : Environment F) (k : Kind) (resource_id : String) (rec_id : ℕ)
    (w : World F) (fresh : IsFresh w.store) where
  guarded :
      (v : World F)
      → IsGuarded env resource_id rec_id k w v
      → env.dry_run ≡ true
      → v.writes ≡ w.writes
  guarded v (inl same) dry = same
  guarded v (inr (_, real)) dry = cc

  acted_dry :
      (r : Result Outcome × World F)
      → IsActed env k resource_id rec_id w fresh r
      → env.dry_run ≡ true
      → (r.1.writes ≡ w.writes) × (r.1.store.recommendations ≡ w.store.recommendations)
  acted_dry _ (unlogged _ _ store writes) dry =
      (writes, ap (λ (s : Store F). s.recommendations) store)
  acted_dry (_, v) (completed _ _ d g) dry =
      (guarded v g dry, d.recommendations ∙ chosen env.dry_run _ _ dry)
  acted_dry (_, v) (failed e _ _ _ l g) dry = (guarded v g dry, l.recommendations)
  acted_dry (_, v) (lost l g) dry = (guarded v g dry, l.recommendations)

  acted_written :
      (r : Result Outcome × World F)
      → IsActed env k resource_id rec_id w fresh r
      → r.1.writes ≢ w.writes
      → IsBacked env resource_id rec_id k w.store r.1.store × (env.dry_run ≡ false)
  acted_written _ (unlogged _ _ store writes) sent = absurd (sent writes)
  acted_written _ (completed _ _ d (inl same)) sent = absurd (sent same)
  acted_written _ (completed _ _ d (inr b)) sent = b
  acted_written _ (failed _ _ _ _ l (inl same)) sent = absurd (sent same)
  acted_written _ (failed _ _ _ _ l (inr b)) sent = b
  acted_written _ (lost l (inl same)) sent = absurd (sent same)
  acted_written _ (lost l (inr b)) sent = b

  acted-IsTold :
      (r : Result Outcome × World F)
      → IsActed env k resource_id rec_id w fresh r
      → IsTold env k resource_id rec_id w r.0 r.1.store
  acted-IsTold _ (unlogged no_success _ store writes) =
      inl (no_success, ap (λ (s : Store F). s.recommendations) store)
  acted-IsTold _ (completed success _ d g) = inr (success, d.log, d.recommendations)
  acted-IsTold _ (failed e no_success _ _ l g) = inl (no_success, l.recommendations)
  acted-IsTold _ (lost l g) = l.recommendations

module _ {F : Type 0} (env : Environment F) (k : Kind) (resource_id : String) (rec_id : ℕ) where
  moved :
      (v w : World F)
      → v.store ≡ w.store
      → (r : Result Outcome) (t : Store F) → IsTold env k resource_id rec_id v r t
      → IsTold env k resource_id rec_id w r t
  moved v w same (raised e) t h = h ∙ ap (λ (s : Store F). s.recommendations) same
  moved v w same (ok o) t h =
      subst (λ (s : Store F). IsTold env k resource_id rec_id (record v { store = s }) (ok o) t)
        same h

module _ {F : Type 0} ⦃n : Numbers F⦄ (env : Environment F) (k : Kind) (resource_id : String)
    (rec_id : ℕ) (live : Result (Option (Description k))) where
  -- A run ends at a check, or acts on a state that has passed them all.
  data IsEnded (w : World F) : Result Outcome × World F → Type 0 where
    refused :
        {o : Outcome} {v : World F}
        → o.succeeded ≡ false
        → v.store ≡ w.store
        → v.writes ≡ w.writes
        → IsEnded w (ok o, v)
    acted :
        {r : Result Outcome × World F} (state : State k) (v : World F) (fresh : IsFresh v.store)
        → IsSame w v
        → IsCleared env k resource_id rec_id live w state
        → IsActed env k resource_id rec_id v fresh r
        → IsEnded w r

  after_checks-IsEnded :
      (w : World F) (fresh : IsFresh w.store) (r : Result (State k) × World F)
      → Post (λ state v. IsSame w v × IsCleared env k resource_id rec_id live w state) (IsSame w) r
      → IsEnded w (after_checks env k resource_id rec_id r)
  after_checks-IsEnded w fresh (ok state, v) (returns (same, cleared)) =
      let fresh' = subst IsFresh (sym same.store) fresh in
      acted state v fresh' same cleared (carry_out-IsActed env k resource_id rec_id v fresh' state)
  after_checks-IsEnded w fresh (raised e, v) (raises same) = refused refl same.store same.writes

  remediate-IsEnded :
      (w : World F) → IsFresh w.store → IsEnded w (remediate env k resource_id rec_id live w)
  unfolding remediate
  remediate-IsEnded w fresh =
      after_checks-IsEnded w fresh _ (check_safe-Post env k resource_id rec_id live w)

  ended_dry :
      (w : World F) (r : Result Outcome × World F)
      → IsEnded w r
      → env.dry_run ≡ true
      → (r.1.writes ≡ w.writes) × (r.1.store.recommendations ≡ w.store.recommendations)
  ended_dry w _ (refused _ store writes) dry =
      (writes, ap (λ (s : Store F). s.recommendations) store)
  ended_dry w r (acted state v fresh same cleared a) dry =
      let (writes, recommendations) = acted_dry env k resource_id rec_id v fresh r a dry in
      (writes ∙ same.writes, recommendations ∙ ap (λ (s : Store F). s.recommendations) same.store)

  ended_written :
      (w : World F) (r : Result Outcome × World F)
      → IsEnded w r
      → r.1.writes ≢ w.writes
      → (state : State k) × IsCleared env k resource_id rec_id live w state
        × IsBacked env resource_id rec_id k w.store r.1.store
        × (env.dry_run ≡ false)
  ended_written w _ (refused _ store writes) sent = absurd (sent writes)
  ended_written w r (acted state v fresh same cleared a) sent =
      let (backed, real) =
        acted_written env k resource_id rec_id v fresh r a (λ e. sent (e ∙ same.writes)) in
      (
        state,
        cleared,
        subst (λ s. IsBacked env resource_id rec_id k s r.1.store) same.store backed,
        real,
      )

  ended-IsTold :
      (w : World F) (r : Result Outcome × World F)
      → IsEnded w r
      → IsTold env k resource_id rec_id w r.0 r.1.store
  ended-IsTold w _ (refused no_success store writes) =
      inl (no_success, ap (λ (s : Store F). s.recommendations) store)
  ended-IsTold w r (acted state v fresh same cleared a) =
      moved env k resource_id rec_id v w same.store r.0 r.1.store
        (acted-IsTold env k resource_id rec_id v fresh r a)

  -- In a dry run `remediate` sends AWS no request that changes something, and every
  -- recommendation is as before, whether the run returns or raises, for every database behaviour
  -- and every answer of AWS. It is assumed that `dry_run` is set and that the identifiers in the
  -- tables are below the next ones.
  pub remediate_dry_run :
      (w : World F)
      → IsFresh w.store
      → env.dry_run ≡ true
      → let r = remediate env k resource_id rec_id live w in
        (r.1.writes ≡ w.writes) × (r.1.store.recommendations ≡ w.store.recommendations)
  remediate_dry_run w fresh dry = ended_dry w _ (remediate-IsEnded w fresh) dry

  -- When a run of `remediate` has sent AWS a request that changes something, then the checks were
  -- all passed for the state that was read, a rollback row of this resource stands before the rows
  -- there were, and the run is no dry run. It is assumed that the identifiers in the tables are
  -- below the next ones.
  pub remediate_written :
      (w : World F)
      → IsFresh w.store
      → (remediate env k resource_id rec_id live w).1.writes ≢ w.writes
      → (state : State k) × IsCleared env k resource_id rec_id live w state
        × IsBacked env resource_id rec_id k w.store
            (remediate env k resource_id rec_id live w).1.store
        × (env.dry_run ≡ false)
  remediate_written w fresh sent = ended_written w _ (remediate-IsEnded w fresh) sent

  -- What `remediate` returns is what the tables say: a success comes with the action's row, marked
  -- success, before the rows there were, and with the recommendation set to applied unless the run
  -- is dry; a failure, or an exception, leaves every recommendation as it was. It is assumed that
  -- the identifiers in the tables are below the next ones.
  pub remediate-IsTold :
      (w : World F)
      → IsFresh w.store
      → IsTold env k resource_id rec_id w
          (remediate env k resource_id rec_id live w).0
          (remediate env k resource_id rec_id live w).1.store
  remediate-IsTold w fresh = ended-IsTold w _ (remediate-IsEnded w fresh)
