-- ===== src/Proxy/Caps.antt =====
-- ui/utils/remediator.py: the cap on the stops of a batch.
use wasteless.Common.{
  ℕ, suc, ◌+◌, ◌≤◌, String, ◌≡◌, Bool, true, false, ◌&&◌, Option, none, some, List, [], ◌∷◌, inl,
  inr, Bool-cases, arith, if◌then◌else◌,
}
use wasteless.Common.Int.{pos}
use wasteless.Python.{Numbers, ComparesInts, int, Exn, Result, ok, raised}
use wasteless.Safeguards.{protection}
use wasteless.Store.{Waste, Recommendation, find_joined}
use wasteless.Remediators.{World}
use wasteless.Remediators.Rules.{Post, returns, weaken}
use wasteless.Remediators.Ec2
use wasteless.Remediators.Ec2.{stop_instance, counted}
use wasteless.Remediators.Ec2.Stops.{IsStopped, stop_instance-Post}
use wasteless.Remediators.Ec2.Runs.{counted_below}
use wasteless.Remediators.Kinds.{Kind}
use wasteless.Remediators.Resource
use wasteless.Remediators.Resource.{remediate}
use wasteless.Proxy.{
  Report, Desk, Surroundings, kind_of, is_ec2, raised_report, concluded, after_stop,
  after_remediate, stop_one, remediate_one, by_kind, dispatched, queried, execute_one, execute_each,
  execute_recommendations,
}

abbrev stop_of : Report → ℕ
stop_of report = if report.by_stop && report.succeeded then 1 else 0

-- The reports of a stop that succeeded.
abbrev pub stops_in : List Report → ℕ
stops_in [] = 0
stops_in (report ∷ reports) = stop_of report + stops_in reports

-- What a round does to the number of stopped instances, where the cap is `m`.
abbrev Counts : ℕ → ℕ → Report × ℕ → Type 0
Counts m count (report, count') = (count + stop_of report ≤ count') × (count' ≤ m)

module _ {F : Type 0} where
  stop_concluded :
      (score : Option F) (report : Report) → stop_of (concluded score report) ≤ stop_of report
  stop_concluded (some x) report = omega arith
  stop_concluded none report = go (report.by_stop && report.succeeded)
    where
      go : (b : Bool) → 0 ≤ (if b then 1 else 0)
      go true = omega arith
      go false = omega arith

counted_room :
    (b : Bool) (count stops : ℕ)
    → stops ≤ (if true && b then 1 else 0)
    → count + stops ≤ (if b then suc count else count)
counted_room true count stops h = omega arith
counted_room false count stops h = omega arith

module _ {F : Type 0} ⦃n : Numbers F⦄ (s : Surroundings F) (cmp : ComparesInts n) (m : ℕ)
    (limit : protection s.env.config "max_instances_per_run" (int (pos 3))
      ≡ ok (n.of_int (pos m))) where
  after_stop-Counts :
      (d : Desk F) (rec_id count : ℕ) (w : Waste F) (v : World F)
      → count ≤ m
      → (r : Result Ec2.Outcome × World F)
      → Post (IsStopped s.env s.describe w.resource_id rec_id count v) (λ _. Unit {0}) r
      → Counts m count (after_stop d rec_id count w r).0
  after_stop-Counts d rec_id count w v room (ok o, u) (returns h) = (
    counted_room o.succeeded count _ (stop_concluded w.confidence_score _),
    counted_below s.env s.describe cmp m limit v u o w.resource_id rec_id count room h,
  )
  after_stop-Counts d rec_id count w v room (raised e, u) h = omega arith

  stop_one-Counts :
      (d : Desk F) (rec_id count : ℕ) (w : Waste F) (e : Option Exn)
      → count ≤ m
      → Counts m count (stop_one s rec_id count w e d).0
  stop_one-Counts d rec_id count w (some e) room = omega arith
  stop_one-Counts d rec_id count w none room =
      let v : World F = record { store = d.store; aborted = d.ec2_aborted; writes = d.writes } in
      after_stop-Counts d rec_id count w v room _ (
        weaken _ (stop_instance-Post s.env s.describe w.resource_id rec_id count v) (λ _ _ h. h)
          (λ _ _. tt))

  remediate_one-Counts :
      (d : Desk F) (rec_id count : ℕ) (k : Kind) (w : Waste F) (e : Option Exn)
      → count ≤ m
      → Counts m count (remediate_one s rec_id count k w e d).0
  remediate_one-Counts d rec_id count k w (some e) room = omega arith
  remediate_one-Counts d rec_id count k w none room = go (
      remediate s.env k w.resource_id rec_id (s.live k d.writes w.resource_id)
        (record { store = d.store; aborted = d.aborted k; writes = d.writes }))
    where
      go :
          (r : Result Resource.Outcome × World F)
          → Counts m count (after_remediate d rec_id count k w r).0
      go (raised e, u) = omega arith
      go (ok o, u) = (
        omega (
          arith,
          stop_concluded w.confidence_score (record {
            recommendation_id = rec_id;
            succeeded = o.succeeded;
            instance_id = some o.resource_id;
            by_stop = false;
          }),
        ),
        room,
      )

  by_kind-Counts :
      (d : Desk F) (rec_id count : ℕ) (w : Waste F) (k : Option Kind)
      → count ≤ m
      → Counts m count (by_kind s rec_id count w k d).0
  by_kind-Counts d rec_id count w none room = omega arith
  by_kind-Counts d rec_id count w (some k) room =
      remediate_one-Counts d rec_id count k w (s.builds k) room

  dispatched-Counts :
      (d : Desk F) (rec_id count : ℕ) (row : Option (Recommendation × Waste F))
      → count ≤ m
      → Counts m count (dispatched s rec_id count row d).0
  dispatched-Counts d rec_id count none room = omega arith
  dispatched-Counts d rec_id count (some (r, w)) room =
      elim (Bool-cases (is_ec2 r.recommendation_type)) [
        | inl ec2 ↦ rw ec2 (stop_one-Counts d rec_id count w s.builds_ec2 room)
        | inr other ↦
            rw other (by_kind-Counts d rec_id count w (kind_of r.recommendation_type) room)
      ]

  execute_one-Counts :
      (rec_id count : ℕ) (d : Desk F) → count ≤ m → Counts m count (execute_one s rec_id count d).0
  unfolding execute_one
  execute_one-Counts rec_id count d room = go d.page_aborted (s.query_fails rec_id)
    where
      go :
          (b : Bool) (failure : Option String)
          → Counts m count
              (if b then ((raised_report rec_id, count), d) else queried s rec_id count failure d).0
      go true failure = omega arith
      go false (some text) = omega arith
      go false none = dispatched-Counts d rec_id count (find_joined rec_id d.store) room

  execute_each_capped :
      (ids : List ℕ) (count : ℕ) (d : Desk F)
      → count ≤ m
      → count + stops_in (execute_each s count ids d).0 ≤ m
  unfolding execute_each
  execute_each_capped [] count d room = omega arith
  execute_each_capped (rec_id ∷ ids) count d room =
      let ((report, count'), d') = execute_one s rec_id count d in
      let (more, below) = execute_one-Counts rec_id count d room in
      let ih = execute_each_capped ids count' d' below in omega arith

  -- A batch reports at most `max_instances_per_run` successful stops, however many ids it is given
  -- and whatever else it does between them. It is assumed that the configured value is a whole number
  -- that is not negative, and that ints compare as ints.
  pub execute_recommendations_capped :
      (ids : List ℕ) (d : Desk F) → stops_in (execute_recommendations s ids d).0 ≤ m
  unfolding execute_recommendations
  execute_recommendations_capped ids d = omega (arith, execute_each_capped ids 0 d (omega arith))
