-- ===== src/Remediators/Ec2/Batch.antt =====
-- src/remediators/ec2_remediator.py, `process_pending_recommendations`: the run over the pending
-- recommendations, under the advisory lock.
use wasteless.Common.{
  ℕ, String, Bool, true, false, ◌&&◌, Option, none, some, List, [], ◌∷◌, str_eq, keep, take,
  if◌then◌else◌,
}
use wasteless.Common.Int.{pos}
use wasteless.Python.{Numbers, Value, dict, end, int, get, as_number, Result, ok, raised}
use wasteless.Store.{Store, Recommendation, Status, find_waste}
use wasteless.Remediators.{
  Statement, Write, Environment, World, Action, pure, lift, gets, ◌>>=◌, ◌>>◌, execute,
}
use wasteless.Remediators.Ec2.{Instance, Outcome, stop_instance, counted}

-- `WHERE r.status = 'pending' AND r.recommendation_type = 'stop_instance'`, joined to its waste
abbrev is_pending : Status → Bool
is_pending Status.pending = true
is_pending _ = false

module _ {F : Type 0} where
  abbrev joined : Store F → List Recommendation → List (ℕ × String)
  joined s [] = []
  joined s (r ∷ rs) = elim (find_waste r.waste_id s) [
    | none ↦ joined s rs
    | some w ↦ (r.id, w.resource_id) ∷ joined s rs
  ]

  abbrev pub pending_stops : Store F → List (ℕ × String)
  pending_stops s = joined s (
      keep (λ r. is_pending r.status && str_eq r.recommendation_type "stop_instance")
        s.recommendations)

  -- `self.safeguards.config.get("protection", {}).get("max_instances_per_run", 3)`
  abbrev pub cap_of : Result (Value F) → Result (Value F)
  cap_of (ok section) = get section "max_instances_per_run" (int (pos 3))
  cap_of (raised e) = raised e

  -- The end of `acquire_lock`: every exception counts as a lock that another run holds.
  abbrev pub locked : Bool → Result (Unit {0}) × World F → Bool × World F
  locked free (ok _, w) = (free, w)
  locked free (raised e, w) = (false, w)

module _ {F : Type 0} ⦃n : Numbers F⦄ where
  -- `stopped_count >= max_per_run`
  abbrev pub at_least : ℕ → Result F → Result Bool
  at_least stopped_count (ok cap) = ok (n.le cap (n.of_int (pos stopped_count)))
  at_least stopped_count (raised e) = raised e

module _ {F : Type 0} ⦃n : Numbers F⦄ (env : Environment F)
    (describe : List Write → String → Option Instance) where
  -- The loop over the pending recommendations, with the cap behind each of them.
  unfoldable pub stop_each : Value F → ℕ → List (ℕ × String) → Action F (List Outcome)
  stop_each max_per_run stopped_count [] = pure []
  stop_each max_per_run stopped_count ((rec_id, instance_id) ∷ rows) =
      stop_instance env describe instance_id rec_id stopped_count >>= λ o.
      let later = stop_each max_per_run (counted stopped_count o) rows in
      lift (at_least (counted stopped_count o) (as_number max_per_run)) >>= λ full.
      if full then pure (o ∷ []) else (later >>= λ rest. pure (o ∷ rest))

  -- The `try` of `process_pending_recommendations`; `take limit` is the LIMIT of its query.
  unfoldable pub process_pending :
      (List (ℕ × String) → List (ℕ × String)) → ℕ → Action F (List Outcome)
  process_pending ordered limit = do
    execute env Statement.select_pending
    rows ← gets pending_stops
    max_per_run ← lift (cap_of (get env.config "protection" (dict end)))
    stop_each max_per_run 0 (take limit (ordered rows))

  -- `acquire_lock`
  unfoldable pub acquire_lock : Bool → World F → Bool × World F
  acquire_lock free w = locked free (execute env Statement.try_lock w)

  -- `finally: self.release_lock()`, which catches what it raises.
  abbrev pub released : Result (List Outcome) × World F → Result (List Outcome) × World F
  released (r, w) = (r, (execute env Statement.unlock w).1)

  abbrev pub if_locked :
      (List (ℕ × String) → List (ℕ × String)) → ℕ → Bool × World F → Result (List Outcome) × World F
  if_locked ordered limit (true, w) = released (process_pending ordered limit w)
  if_locked ordered limit (false, w) = (ok [], w)

  unfoldable pub process_pending_recommendations :
      Bool → (List (ℕ × String) → List (ℕ × String)) → ℕ → Action F (List Outcome)
  process_pending_recommendations free ordered limit w =
      if_locked ordered limit (acquire_lock free w)
