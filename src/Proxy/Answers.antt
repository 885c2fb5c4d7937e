-- ===== src/Proxy/Answers.antt =====
-- ui/utils/remediator.py: one report for each id.
use wasteless.Common.{
  ℕ, String, ◌≡◌, refl, ap, ◌∙◌, Bool, true, false, Option, none, some, List, [], ◌∷◌, map, inl,
  inr, Bool-cases, if◌then◌else◌,
}
use wasteless.Python.{Numbers, Exn, Result, ok, raised}
use wasteless.Store.{Waste, Recommendation, find_joined}
use wasteless.Remediators.{World}
use wasteless.Remediators.Ec2
use wasteless.Remediators.Ec2.{stop_instance, counted}
use wasteless.Remediators.Kinds.{Kind}
use wasteless.Remediators.Resource
use wasteless.Remediators.Resource.{remediate}
use wasteless.Proxy.{
  Report, Desk, Surroundings, kind_of, is_ec2, raised_report, concluded, after_stop,
  after_remediate, stop_one, remediate_one, by_kind, dispatched, queried, execute_one, execute_each,
  execute_recommendations,
}

module _ {F : Type 0} where
  concluded_id :
      (score : Option F) (report : Report)
      → (concluded score report).recommendation_id ≡ report.recommendation_id
  concluded_id (some x) report = refl
  concluded_id none report = refl

module _ {F : Type 0} ⦃n : Numbers F⦄ (s : Surroundings F) where
  abbrev Answers : ℕ → (Report × ℕ) × Desk F → Type 0
  Answers rec_id ((report, count), d) = report.recommendation_id ≡ rec_id

  stop_one-Answers :
      (rec_id count : ℕ) (w : Waste F) (e : Option Exn) (d : Desk F)
      → Answers rec_id (stop_one s rec_id count w e d)
  stop_one-Answers rec_id count w (some e) d = refl
  stop_one-Answers rec_id count w none d = go _
    where
      go : (r : Result Ec2.Outcome × World F) → Answers rec_id (after_stop d rec_id count w r)
      go (raised e, u) = refl
      go (ok o, u) = concluded_id w.confidence_score _

  by_kind-Answers :
      (rec_id count : ℕ) (w : Waste F) (k : Option Kind) (d : Desk F)
      → Answers rec_id (by_kind s rec_id count w k d)
  by_kind-Answers rec_id count w none d = refl
  by_kind-Answers rec_id count w (some k) d = go (s.builds k)
    where
      done :
          (r : Result Resource.Outcome × World F)
          → Answers rec_id (after_remediate d rec_id count k w r)
      done (raised e, u) = refl
      done (ok o, u) = concluded_id w.confidence_score _

      go : (e : Option Exn) → Answers rec_id (remediate_one s rec_id count k w e d)
      go (some e) = refl
      go none = done _

  dispatched-Answers :
      (rec_id count : ℕ) (row : Option (Recommendation × Waste F)) (d : Desk F)
      → Answers rec_id (dispatched s rec_id count row d)
  dispatched-Answers rec_id count none d = refl
  dispatched-Answers rec_id count (some (r, w)) d =
      elim (Bool-cases (is_ec2 r.recommendation_type)) [
        | inl ec2 ↦ rw ec2 (stop_one-Answers rec_id count w s.builds_ec2 d)
        | inr other ↦ rw other (by_kind-Answers rec_id count w (kind_of r.recommendation_type) d)
      ]

  execute_one-Answers :
      (rec_id count : ℕ) (d : Desk F) → Answers rec_id (execute_one s rec_id count d)
  unfolding execute_one
  execute_one-Answers rec_id count d = go d.page_aborted (s.query_fails rec_id)
    where
      go :
          (b : Bool) (failure : Option String)
          → Answers rec_id
              (if b then ((raised_report rec_id, count), d) else queried s rec_id count failure d)
      go true failure = refl
      go false (some text) = refl
      go false none = dispatched-Answers rec_id count (find_joined rec_id d.store) d

  execute_each_ids :
      (ids : List ℕ) (count : ℕ) (d : Desk F)
      → map (λ report. report.recommendation_id) (execute_each s count ids d).0 ≡ ids
  unfolding execute_each
  execute_each_ids [] count d = refl
  execute_each_ids (rec_id ∷ ids) count d =
      let ((report, count'), d') = execute_one s rec_id count d in
      let rest = map (λ r. r.recommendation_id) (execute_each s count' ids d').0 in
      ap (λ i. i ∷ rest) (execute_one-Answers rec_id count d)
      ∙ ap (λ later. rec_id ∷ later) (execute_each_ids ids count' d')

  -- A batch answers with one report for each id, in the order of the ids, whatever is missing, refused
  -- or raised on the way.
  pub execute_recommendations_ids :
      (ids : List ℕ) (d : Desk F)
      → map (λ report. report.recommendation_id) (execute_recommendations s ids d).0 ≡ ids
  unfolding execute_recommendations
  execute_recommendations_ids ids d = execute_each_ids ids 0 d
