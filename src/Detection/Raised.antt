-- ===== src/Detection/Raised.antt =====
-- src/detectors/ec2_idle.py, `generate_recommendations`: what is recommended when it goes through.
use wasteless.Common.{
  ◌≡◌, refl, sym, subst, inl, inr, ◌⊎◌, ℕ, ◌==◌, Bool, true, false, Option, none, some, List, [],
  ◌∷◌, first, All, if◌then◌else◌,
}
use wasteless.Python.{Numbers, Exn, Result, ok, raised}
use wasteless.Detection.{Detected, Advice, Tables}
use wasteless.Detection.Saving.{Faults, upsert_recommendation, committed, count_one}
use wasteless.Detection.Idle.{
  ec2_idle, item_at, recommend_one, generate_each, generate_recommendations,
}
use wasteless.Detection.Statuses.{Grows}
use wasteless.Detection.Revivals.{IsLive, generate-Grows, upserted-IsLive, upserted_own-IsLive}

module _ {F : Type 0} ⦃n : Numbers F⦄ (faults : Faults) where
  -- The waste of the id is gone, or its recommendation is there, and not obsolete.
  abbrev pub IsRaised : List (Detected F) → List (Advice F) → ℕ → Type 0
  IsRaised ws rs id = (first (λ w. w.id == id) ws ≡ none) ⊎ IsLive id rs

  -- What a loop, when it goes through, leaves of what was live, and of the wastes.
  abbrev KeepsLive : ℕ → Result (ℕ × Tables F) → Type 0
  KeepsLive id (raised e) = Unit
  KeepsLive id (ok (count, u)) = IsLive id u.recommendations

  counted-KeepsLive :
      (id : ℕ) (r : Result (ℕ × Tables F))
      → KeepsLive id r
      → KeepsLive id (count_one ec2_idle faults r)
  counted-KeepsLive id (raised e) h = tt
  counted-KeepsLive id (ok (count, u)) h = h

  if-KeepsLive :
      (b : Bool) (e : Exn) (id : ℕ) (r : Result (ℕ × Tables F))
      → KeepsLive id r
      → KeepsLive id (if b then raised e else r)
  if-KeepsLive true e id r h = tt
  if-KeepsLive false e id r h = h

  one-KeepsLive :
      (found : Option (Detected F)) (id j : ℕ) (next : Tables F → Result (ℕ × Tables F))
      (t : Tables F)
      → ((u : Tables F) → IsLive id u.recommendations → KeepsLive id (next u))
      → IsLive id t.recommendations
      → KeepsLive id (recommend_one faults found j next t)
  one-KeepsLive none id j next t ih live = ih t live
  one-KeepsLive (some w) id j next t ih live =
      let rs = upsert_recommendation ec2_idle j (item_at w) t.recommendations in
      let u = record t { recommendations = rs } in
      if-KeepsLive (faults.insert_fails w.resource_id) _ id _ (
        counted-KeepsLive id (next u)
          (ih u (upserted-IsLive id j (item_at w) t.recommendations live)))

  each-KeepsLive :
      (id : ℕ) (ids : List ℕ) (t : Tables F)
      → IsLive id t.recommendations
      → KeepsLive id (generate_each faults ids t)
  unfolding generate_each
  each-KeepsLive id [] t live = live
  each-KeepsLive id (j ∷ ids) t live =
      one-KeepsLive _ id j (generate_each faults ids) t (each-KeepsLive id ids) live

  -- All that a loop over the ids raises, when it goes through.
  abbrev RaisesAll : List (Detected F) → List ℕ → Result (ℕ × Tables F) → Type 0
  RaisesAll ws ids (raised e) = Unit
  RaisesAll ws ids (ok (count, u)) = All (IsRaised ws u.recommendations) ids

  both-RaisesAll :
      (ws : List (Detected F)) (id : ℕ) (ids : List ℕ) (r : Result (ℕ × Tables F))
      → KeepsLive id r
      → RaisesAll ws ids r
      → RaisesAll ws (id ∷ ids) r
  both-RaisesAll ws id ids (raised e) h k = tt
  both-RaisesAll ws id ids (ok (count, u)) h k = (inr h, k)

  counted-RaisesAll :
      (ws : List (Detected F)) (ids : List ℕ) (r : Result (ℕ × Tables F))
      → RaisesAll ws ids r
      → RaisesAll ws ids (count_one ec2_idle faults r)
  counted-RaisesAll ws ids (raised e) h = tt
  counted-RaisesAll ws ids (ok (count, u)) h = h

  missing-RaisesAll :
      (ws : List (Detected F)) (id : ℕ) (ids : List ℕ) (r : Result (ℕ × Tables F))
      → first (λ w. w.id == id) ws ≡ none
      → RaisesAll ws ids r
      → RaisesAll ws (id ∷ ids) r
  missing-RaisesAll ws id ids (raised e) h k = tt
  missing-RaisesAll ws id ids (ok (count, u)) h k = (inl h, k)

  if-RaisesAll :
      (b : Bool) (e : Exn) (ws : List (Detected F)) (ids : List ℕ) (r : Result (ℕ × Tables F))
      → RaisesAll ws ids r
      → RaisesAll ws ids (if b then raised e else r)
  if-RaisesAll true e ws ids r h = tt
  if-RaisesAll false e ws ids r h = h

  one-RaisesAll :
      (found : Option (Detected F)) (id : ℕ) (ids : List ℕ) (t : Tables F)
      → first (λ w. w.id == id) t.wastes ≡ found
      → ((u : Tables F) → RaisesAll u.wastes ids (generate_each faults ids u))
      → RaisesAll t.wastes (id ∷ ids) (recommend_one faults found id (generate_each faults ids) t)
  one-RaisesAll none id ids t is ih =
      missing-RaisesAll t.wastes id ids (generate_each faults ids t) is (ih t)
  one-RaisesAll (some w) id ids t is ih =
      let rs = upsert_recommendation ec2_idle id (item_at w) t.recommendations in
      let u = record t { recommendations = rs } in
      if-RaisesAll (faults.insert_fails w.resource_id) _ t.wastes (id ∷ ids) _ (
        counted-RaisesAll t.wastes (id ∷ ids) (generate_each faults ids u) (
          both-RaisesAll t.wastes id ids (generate_each faults ids u)
            (each-KeepsLive id ids u (upserted_own-IsLive id (item_at w) t.recommendations))
            (ih u)))

  each-RaisesAll :
      (ids : List ℕ) (t : Tables F) → RaisesAll t.wastes ids (generate_each faults ids t)
  unfolding generate_each
  each-RaisesAll [] t = tt
  each-RaisesAll (id ∷ ids) t = one-RaisesAll _ id ids t refl (each-RaisesAll ids)

  at_commit :
      (fails : Bool) (ids : List ℕ) (t u : Tables F) (r : Result (ℕ × Tables F)) (count : ℕ)
      → fails ≡ faults.commit_fails
      → RaisesAll t.wastes ids r
      → committed ec2_idle faults t r ≡ (ok count, u)
      → All (IsRaised t.wastes u.recommendations) ids
  at_commit fails ids t u (raised e) count is all h = cc
  at_commit true ids t u (ok (c, v)) count is all h = cc (rw (sym is) at h)
  at_commit false ids t u (ok (c, v)) count is all h =
      let same : v ≡ u = cc (rw (sym is) at h) in
      subst (λ (x : Tables F). All (IsRaised t.wastes x.recommendations) ids) same all

  all-IsRaised :
      (ids : List ℕ) (t u : Tables F) (count : ℕ)
      → generate_recommendations faults ids t ≡ (ok count, u)
      → All (IsRaised t.wastes u.recommendations) ids
  unfolding generate_recommendations
  all-IsRaised [] t u count h = tt
  all-IsRaised (id ∷ ids) t u count h =
      at_commit faults.commit_fails (id ∷ ids) t u _ count refl (each-RaisesAll (id ∷ ids) t) h

  -- Once recommendations are generated for saved wastes, each waste that is still there has one that
  -- is not obsolete, and every recommendation of before has kept its place: one that was neither
  -- pending nor obsolete is unchanged, one that was is pending or as it was, and those that are new
  -- are pending.
  pub generate_recommendations-IsRaised :
      (ids : List ℕ) (t u : Tables F) (count : ℕ)
      → generate_recommendations faults ids t ≡ (ok count, u)
      → All (IsRaised t.wastes u.recommendations) ids
        × Grows ec2_idle t.recommendations u.recommendations
  generate_recommendations-IsRaised ids t u count h =
      let grows = generate-Grows faults ids t in
      (
        all-IsRaised ids t u count h,
        subst (λ (x : Result ℕ × Tables F). Grows ec2_idle t.recommendations x.1.recommendations) h
            grows,
      )
