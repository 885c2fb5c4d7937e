-- ===== src/Remediators/Ec2/Runs.antt =====
-- What a run of `process_pending_recommendations` may do as a whole.
use wasteless.Common.{
  ℕ, suc, ◌+◌, ◌≤◌, ◌<◌, String, ◌≡◌, refl, sym, take, ◌∙◌, inl, inr, Bool, true, false, Option,
  none, some, List, [], ◌∷◌, arith, if◌then◌else◌,
}
use wasteless.Common.Int.{pos, leb_ℤ}
use mathlib.Core.Path.{subst}
use wasteless.Python.{
  Numbers, ComparesInts, Result, ok, raised, error, in_failed_transaction, int, as_number, get,
  dict, end, Value,
}
use wasteless.Safeguards.{protection}
use wasteless.Remediators.{Environment, World, Write, Statement, execute, answered}
use wasteless.Remediators.Rules.{
  Post, returns, raises, weaken, bind_rule, lift_rule, execute_rule, if_last,
}
use wasteless.Remediators.Ec2.{Instance, Outcome, stop_instance, counted}
use wasteless.Remediators.Ec2.Batch.{
  stop_each, at_least, cap_of, process_pending, acquire_lock, process_pending_recommendations,
  pending_stops, if_locked, locked,
}
use wasteless.Remediators.Ec2.Stops.{IsStoppable, HasSent, IsStopped, stop_instance-Post}

-- How many of the outcomes are successes.
abbrev pub successes : List Outcome → ℕ
successes [] = 0
successes (o ∷ os) = if o.succeeded then suc (successes os) else successes os

module _ {F : Type 0} ⦃n : Numbers F⦄ (env : Environment F)
    (describe : List Write → String → Option Instance) where
  pub quiet :
      (instance_id : String) (before after : List Write)
      → env.dry_run ≡ true
      → HasSent env instance_id before after
      → after ≡ before
  quiet instance_id before after dry (inl same) = same
  quiet instance_id before after dry (inr (_, real)) = cc

  pub stop_quiet :
      (w v : World F) (o : Outcome) (instance_id : String) (rec_id count : ℕ)
      → env.dry_run ≡ true
      → IsStopped env describe instance_id rec_id count w o v
      → v.writes ≡ w.writes
  stop_quiet w v o instance_id rec_id count dry (inl (_, same)) = same
  stop_quiet w v o instance_id rec_id count dry (inr (_, h)) = quiet instance_id _ _ dry h

  stop_each_quiet :
      (max_per_run : Value F) (count : ℕ) (rows : List (ℕ × String)) (ws : List Write) (w : World F)
      → env.dry_run ≡ true
      → w.writes ≡ ws
      → Post
          (λ _ v. v.writes ≡ ws)
          (λ v. v.writes ≡ ws)
          (stop_each env describe max_per_run count rows w)
  unfolding stop_each
  stop_each_quiet max_per_run count [] ws w dry same = returns same
  stop_each_quiet max_per_run count ((rec_id, id) ∷ rows) ws w dry same =
      bind_rule {Q = λ _ v. v.writes ≡ ws} (stop_instance env describe id rec_id count) _ w
        (weaken _ (stop_instance-Post env describe id rec_id count w)
          (λ o v h. stop_quiet w v o id rec_id count dry h ∙ same)
          (λ v (_, h). quiet id _ _ dry h ∙ same))
        (λ o v still.
          lift_rule (at_least (counted count o) (as_number max_per_run)) _ v still λ full _.
            if_last full _ _ v (returns still) (
              bind_rule {Q = λ _ u. u.writes ≡ ws}
                (stop_each env describe max_per_run (counted count o) rows) _ v
                (stop_each_quiet max_per_run (counted count o) rows ws v dry still)
                (λ rest u h. returns h)))

  module _ (cmp : ComparesInts n) (m : ℕ)
      (limit : protection env.config "max_instances_per_run" (int (pos 3))
        ≡ ok (n.of_int (pos m))) where
    below :
        (w : World F) (instance_id : String) (rec_id count : ℕ)
        → IsStoppable env describe w instance_id rec_id count
        → count < m
    below w instance_id rec_id count s =
        let (bound, known, free) = s.permitted.below_limit in
        let same : bound ≡ n.of_int (pos m) = cc (known, limit) in
        below_leb (
          sym (cmp.le_int (pos m) (pos count))
          ∙ subst (λ x. n.le x (n.of_int (pos count)) ≡ false) same free)
      where
        below_leb : leb_ℤ (pos m) (pos count) ≡ false → count < m
        below_leb h = ground arith

    pub counted_below :
        (w v : World F) (o : Outcome) (instance_id : String) (rec_id count : ℕ)
        → count ≤ m
        → IsStopped env describe instance_id rec_id count w o v
        → counted count o ≤ m
    counted_below w v o instance_id rec_id count h (inl (unsafe, _)) = rw unsafe h
    counted_below w v o instance_id rec_id count h (inr (s, _)) =
        let room = below w instance_id rec_id count s in go o.succeeded
      where
        go : (b : Bool) → (if b then suc count else count) ≤ m
        go true = omega (arith, below w instance_id rec_id count s)
        go false = h

    counted_more :
        (count : ℕ) (o : Outcome) (os : List Outcome)
        → counted count o + successes os ≤ m
        → count + successes (o ∷ os) ≤ m
    counted_more count o os = go o.succeeded
      where
        go :
            (b : Bool)
            → (if b then suc count else count) + successes os ≤ m
            → count + (if b then suc (successes os) else successes os) ≤ m
        go true h = omega (arith, h)
        go false h = h

    stop_each_capped :
        (max_per_run : Value F) (count : ℕ) (rows : List (ℕ × String)) (w : World F)
        → count ≤ m
        → Post
            (λ os _. count + successes os ≤ m)
            (λ _. Unit {0})
            (stop_each env describe max_per_run count rows w)
    unfolding stop_each
    stop_each_capped max_per_run count [] w h = returns (omega (arith, h))
    stop_each_capped max_per_run count ((rec_id, id) ∷ rows) w h =
        bind_rule {Q = λ o _. counted count o ≤ m} (stop_instance env describe id rec_id count) _ w
          (weaken _ (stop_instance-Post env describe id rec_id count w)
            (λ o v s. counted_below w v o id rec_id count h s) (λ _ _. tt))
          (λ o v room.
            lift_rule (at_least (counted count o) (as_number max_per_run)) _ v tt λ full _.
              if_last full _ _ v (returns (counted_more count o [] (omega (arith, room)))) (
                bind_rule {Q = λ os _. counted count o + successes os ≤ m}
                  (stop_each env describe max_per_run (counted count o) rows) _ v
                  (stop_each_capped max_per_run (counted count o) rows v room)
                  (λ rest u h'. returns (counted_more count o rest h'))))

    process_capped :
        (ordered : List (ℕ × String) → List (ℕ × String)) (limited : ℕ) (w : World F)
        → Post
            (λ os _. successes os ≤ m)
            (λ _. Unit {0})
            (process_pending env describe ordered limited w)
    unfolding process_pending
    process_capped ordered limited w = execute_rule env _ _ w tt tt (
        lift_rule (cap_of (get env.config "protection" (dict end))) _ w tt λ cap _.
          weaken _
            (stop_each_capped cap 0 (take limited (ordered (pending_stops w.store))) w
              (omega arith))
            (λ os _ h. omega (arith, h)) (λ _ _. tt))

  process_quiet :
      (ordered : List (ℕ × String) → List (ℕ × String)) (limited : ℕ) (w : World F)
      → env.dry_run ≡ true
      → Post
          (λ _ v. v.writes ≡ w.writes)
          (λ v. v.writes ≡ w.writes)
          (process_pending env describe ordered limited w)
  unfolding process_pending
  process_quiet ordered limited w dry = execute_rule env _ _ w refl refl (
      lift_rule (cap_of (get env.config "protection" (dict end))) _ w refl λ cap _.
        stop_each_quiet cap 0 (take limited (ordered (pending_stops w.store))) w.writes w dry refl)

-- A statement sends no request.
execute-writes :
    {F : Type 0} (env : Environment F) (s : Statement) (w : World F)
    → (execute env s w).1.writes ≡ w.writes
unfolding execute
execute-writes env s w = go w.aborted (env.db w s)
  where
    go :
        (b : Bool) (o : Option String)
        → (if b then (raised (error in_failed_transaction), w) else answered o w).1.writes
          ≡ w.writes
    go true o = refl
    go false none = refl
    go false (some text) = refl

module _ {F A : Type 0} where
  Post-writes :
      (ws : List Write) (r : Result A × World F)
      → Post (λ _ v. v.writes ≡ ws) (λ v. v.writes ≡ ws) r
      → r.1.writes ≡ ws
  Post-writes ws (ok a, v) (returns same) = same
  Post-writes ws (raised e, v) (raises same) = same

  Post-returned :
      {Q : A → World F → Type 0} {E : World F → Type 0} (r : Result A × World F) (a : A)
      → Post Q E r
      → r.0 ≡ ok a
      → Q a r.1
  Post-returned {Q} (ok b, v) a (returns h) e = subst (λ x. Q x v) (cc e) h
  Post-returned (raised x, v) a (raises h) e = cc e

locked_writes :
    {F : Type 0} (free : Bool) (r : Result (Unit {0}) × World F)
    → (locked free r).1.writes ≡ r.1.writes
locked_writes free (ok _, v) = refl
locked_writes free (raised e, v) = refl

module _ {F : Type 0} ⦃n : Numbers F⦄ (env : Environment F)
    (describe : List Write → String → Option Instance)
    (ordered : List (ℕ × String) → List (ℕ × String)) (limited : ℕ) where
  if_locked_writes :
      (b : Bool) (w : World F)
      → env.dry_run ≡ true
      → (if_locked env describe ordered limited (b, w)).1.writes ≡ w.writes
  if_locked_writes true w dry =
      execute-writes env Statement.unlock _
      ∙ Post-writes w.writes _ (process_quiet env describe ordered limited w dry)
  if_locked_writes false w dry = refl

  if_locked_capped :
      (cmp : ComparesInts n) (m : ℕ)
      → protection env.config "max_instances_per_run" (int (pos 3)) ≡ ok (n.of_int (pos m))
      → (b : Bool) (w : World F) (os : List Outcome)
      → (if_locked env describe ordered limited (b, w)).0 ≡ ok os
      → successes os ≤ m
  if_locked_capped cmp m limit true w os e =
      Post-returned _ os (process_capped env describe cmp m limit ordered limited w) e
  if_locked_capped cmp m limit false w os e = go os (cc e)
    where
      go : (xs : List Outcome) → xs ≡ [] → successes xs ≤ m
      go xs none_done = rw none_done (omega arith)

  -- A run that returns has stopped at most as many instances as `max_instances_per_run` says,
  -- whatever the number of pending recommendations and the limit of the query. It is assumed that
  -- the configured value is a whole number that is not negative, and that ints compare as ints.
  pub process_pending_recommendations_capped :
      (cmp : ComparesInts n) (m : ℕ)
      → protection env.config "max_instances_per_run" (int (pos 3)) ≡ ok (n.of_int (pos m))
      → (free : Bool) (w : World F) (os : List Outcome)
      → (process_pending_recommendations env describe free ordered limited w).0 ≡ ok os
      → successes os ≤ m
  unfolding process_pending_recommendations acquire_lock
  process_pending_recommendations_capped cmp m limit free w os e =
      let (b, w') = locked free (execute env Statement.try_lock w) in
      if_locked_capped cmp m limit b w' os e

  -- A run with `dry_run` set sends AWS no request that changes something, whatever the database and
  -- AWS answer, whether it gets the lock or not, and also where it raises.
  pub process_pending_recommendations_dry_run :
      (free : Bool) (w : World F)
      → env.dry_run ≡ true
      → (process_pending_recommendations env describe free ordered limited w).1.writes ≡ w.writes
  unfolding process_pending_recommendations acquire_lock
  process_pending_recommendations_dry_run free w dry =
      let r = execute env Statement.try_lock w in
      let (b, w') = locked free r in
      if_locked_writes b w' dry ∙ locked_writes free r ∙ execute-writes env Statement.try_lock w
