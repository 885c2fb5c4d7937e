-- ===== src/Detection/Revivals.antt =====
-- src/detectors/ec2_idle.py: what a run leaves of the recommendations, and which it brings back.
use wasteless.Common.{
  ◌≡◌, refl, inl, inr, ℕ, ◌==◌, ==_iff, Bool, true, false, ◌&&◌, Option, none, some, List, [], ◌∷◌,
  first, first_passes, updated, first-update_where, Bool-cases, if◌then◌else◌, or-false-right,
}
use wasteless.Python.{Numbers, Result, ok, raised}
use wasteless.Detection.{Detected, Advice, Tables, Item}
use wasteless.Detection.Saving.{
  Faults, is_open, is_pending, is_obsolete, is_for, resynced, proposed, on_known,
  upsert_recommendation, save,
}
use wasteless.Detection.Idle.{
  Metric, ec2_idle, item_at, recommend_one, generate_each, generate_recommendations, generated,
  saved_and_generated, run_idle,
}
use wasteless.Detection.Statuses.{
  Grows, Grows-refl, Grows-trans, upsert_recommendation-Grows, LoopGrows, counted-LoopGrows,
  if-LoopGrows, from-LoopGrows, committed-Grows, save-Grows,
}

module _ {F : Type 0} ⦃n : Numbers F⦄ where
  module _ (faults : Faults) where
    one-LoopGrows :
        (found : Option (Detected F)) (id : ℕ) (next : Tables F → Result (ℕ × Tables F))
        (t : Tables F)
        → ((u : Tables F) → LoopGrows ec2_idle u.recommendations (next u))
        → LoopGrows ec2_idle t.recommendations (recommend_one faults found id next t)
    one-LoopGrows none id next t h = h t
    one-LoopGrows (some w) id next t h =
        let rs = upsert_recommendation ec2_idle id (item_at w) t.recommendations in
        let u = record t { recommendations = rs } in
        if-LoopGrows ec2_idle (faults.insert_fails w.resource_id) _ t.recommendations _ (
          counted-LoopGrows ec2_idle t.recommendations faults (next u) (
            from-LoopGrows ec2_idle t.recommendations rs (next u)
              (upsert_recommendation-Grows ec2_idle id (item_at w) t.recommendations) (h u)))

    generate_each-LoopGrows :
        (ids : List ℕ) (t : Tables F)
        → LoopGrows ec2_idle t.recommendations (generate_each faults ids t)
    unfolding generate_each
    generate_each-LoopGrows [] t = Grows-refl ec2_idle t.recommendations
    generate_each-LoopGrows (id ∷ ids) t =
        one-LoopGrows _ id (generate_each faults ids) t (generate_each-LoopGrows ids)

    pub generate-Grows :
        (ids : List ℕ) (t : Tables F)
        → Grows ec2_idle t.recommendations (generate_recommendations faults ids t).1.recommendations
    unfolding generate_recommendations
    generate-Grows [] t = Grows-refl ec2_idle t.recommendations
    generate-Grows (id ∷ ids) t =
        committed-Grows ec2_idle faults t _ (generate_each-LoopGrows (id ∷ ids) t)

    generated-Grows :
        (rs : List (Advice F)) (x : Result (List ℕ) × Tables F)
        → Grows ec2_idle rs x.1.recommendations
        → Grows ec2_idle rs (generated faults x).1.recommendations
    generated-Grows rs (raised e, t) g = g
    generated-Grows rs (ok ids, t) g = Grows-trans ec2_idle g (generate-Grows ids t)

  module _ (saving recommending : Faults) where
    saved-Grows :
        (today : ℕ) (t : Tables F) (items : Result (List (Item F)))
        → Grows ec2_idle t.recommendations
            (saved_and_generated saving recommending today t items).1.recommendations
    saved-Grows today t (raised e) = Grows-refl ec2_idle t.recommendations
    saved-Grows today t (ok []) = Grows-refl ec2_idle t.recommendations
    saved-Grows today t (ok (item ∷ items)) =
        generated-Grows recommending t.recommendations (save ec2_idle saving today (item ∷ items) t)
          (save-Grows ec2_idle saving today (item ∷ items) t)

    -- A run over the idle instances keeps every recommendation and its place, whatever the metrics
    -- and whatever fails: one that is neither pending nor obsolete stays as it is, one that is
    -- becomes or stays pending or stays as it was, and what is new is pending.
    run_idle-Grows :
        (round : F → F) (threshold : F) (days : ℕ) (answered : Result (List (Metric F))) (today : ℕ)
        (t : Tables F)
        → Grows ec2_idle t.recommendations
            (run_idle saving recommending round threshold days answered today t).1.recommendations
    unfolding run_idle
    run_idle-Grows round threshold days answered today t = saved-Grows today t _

-- The recommendation for a waste is there, and not obsolete.
abbrev pub IsLive : {F : Type 0} → ℕ → List (Advice F) → Type 0
IsLive {F} id rs = (r : Advice F) × (first (is_for id) rs ≡ some r) × (is_obsolete r.status ≡ false)

module _ {F : Type 0} ⦃n : Numbers F⦄ where
  live_next :
      (b : Bool) (item : Item F) (r : Advice F)
      → (b ≡ false → is_obsolete r.status ≡ false)
      → is_obsolete (if b then resynced ec2_idle item r else r).status ≡ false
  live_next true item r h = refl
  live_next false item r h = h refl

  abbrev touches : ℕ → Advice F → Bool
  touches id r = is_for id r && is_open {F = F} ec2_idle r.status

  left_alone :
      (b : Bool) (r : Advice F)
      → b ≡ true
      → (b && is_open {F = F} ec2_idle r.status) ≡ false
      → is_obsolete r.status ≡ false
  left_alone true r here h = or-false-right (is_pending r.status) (is_obsolete r.status) h
  left_alone false r here h = cc

  others-IsLive :
      (id j : ℕ) (item : Item F) (found : Option (Advice F)) (rs : List (Advice F))
      → IsLive id rs
      → IsLive id (on_known ec2_idle j item found rs)
  others-IsLive id j item none rs (r, there, live) = elim (Bool-cases (j == id)) [
    | inl same ↦ (proposed ec2_idle j item, rw same refl, refl)
    | inr other ↦ (r, rw other there, live)
  ]
  others-IsLive id j item (some q) rs (r, there, live) = (
    updated (is_for id) (touches j) (resynced ec2_idle item) (λ x. refl) r,
    first-update_where (is_for id) (touches j) (resynced ec2_idle item) (λ x. refl) rs r there,
    live_next (touches j r) item r (λ h. live),
  )

  own-IsLive :
      (id : ℕ) (item : Item F) (found : Option (Advice F)) (rs : List (Advice F))
      → first (is_for id) rs ≡ found
      → IsLive id (on_known ec2_idle id item found rs)
  own-IsLive id item none rs is =
      let same : (id == id) ≡ true = (==_iff id id).1 refl in
      (proposed ec2_idle id item, rw same refl, refl)
  own-IsLive id item (some r) rs is =
      let here = first_passes (is_for id) rs r is in
      (
        updated (is_for id) (touches id) (resynced ec2_idle item) (λ x. refl) r,
        first-update_where (is_for id) (touches id) (resynced ec2_idle item) (λ x. refl) rs r is,
        live_next (touches id r) item r (λ h. left_alone (is_for id r) r here h),
      )

  pub upserted-IsLive :
      (id j : ℕ) (item : Item F) (rs : List (Advice F))
      → IsLive id rs
      → IsLive id (upsert_recommendation ec2_idle j item rs)
  unfolding upsert_recommendation
  upserted-IsLive id j item rs h = others-IsLive id j item _ rs h

  pub upserted_own-IsLive :
      (id : ℕ) (item : Item F) (rs : List (Advice F))
      → IsLive id (upsert_recommendation ec2_idle id item rs)
  unfolding upsert_recommendation
  upserted_own-IsLive id item rs = own-IsLive id item _ rs refl
