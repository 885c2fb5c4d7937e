-- ===== src/Lifecycle/Settling.antt =====
-- How a recommendation is settled behind the user's back.
use wasteless.Common.{
  String, ◌≡◌, refl, ◌⊎◌, inl, inr, Bool, true, false, ◌&&◌, ◌||◌, subst, List, [], ◌∷◌, ◌==◌, some,
  none, Option, Bool-cases, update_where, if◌then◌else◌, All, not,
}
use wasteless.Python.{ok}
use wasteless.Store.{Store, Waste, Recommendation, Status, find_waste}
use wasteless.Lifecycle.{
  Backend, Mode, is_syncable, is_vanished, is_manual, names_missing, resolution, moved_to,
}
use wasteless.Lifecycle.Page.{mode_of}
use wasteless.Lifecycle.Jobs.{
  resolve_vanished, grace_step, grace_done, grace_recorded, grace_run, grace_execution_status,
}

module _ {ℓ} {A : Type ℓ} (p : A → Bool) (f : A → A) where
  update_where-idempotent :
      ((x : A) → p x ≡ true → p (f x) ≡ false)
      → (xs : List A) → update_where p f (update_where p f xs) ≡ update_where p f xs
  update_where-idempotent once [] = refl
  update_where-idempotent once (x ∷ xs) = elim (Bool-cases (p x)) [
    | inl hit ↦ rw (hit, once x hit, update_where-idempotent once xs)
    | inr miss ↦ rw (miss, miss, update_where-idempotent once xs)
  ]

  update_where-All :
      (P : A → Type 0)
      → ((x : A) → p x ≡ true → P (f x))
      → ((x : A) → p x ≡ false → P x)
      → (xs : List A) → All P (update_where p f xs)
  update_where-All P changed kept [] = tt
  update_where-All P changed kept (x ∷ xs) = elim (Bool-cases (p x)) [
    | inl hit ↦ rw hit (changed x hit, update_where-All P changed kept xs)
    | inr miss ↦ rw miss (kept x miss, update_where-All P changed kept xs)
  ]

resolution_final : (a : Status) → is_syncable (resolution a) ≡ false
resolution_final Status.pending = refl
resolution_final Status.scheduled = refl
resolution_final Status.pr_open = refl
resolution_final Status.approved = refl
resolution_final Status.approved_manual = refl
resolution_final Status.rejected = refl
resolution_final Status.dismissed = refl
resolution_final Status.applied = refl
resolution_final Status.obsolete = refl

and_false : (x y : Bool) → y ≡ false → (x && y) ≡ false
and_false true y h = h
and_false false y h = refl

module _ {F : Type 0} (b : Backend F) where
  -- A synchronisation that finds the same resources gone a second time changes no recommendation.
  pub resolve_vanished-idempotent :
      (kind : String) (ids : List String) (s : Store F)
      → (resolve_vanished b kind ids (resolve_vanished b kind ids s)).recommendations
        ≡ (resolve_vanished b kind ids s).recommendations
  unfolding resolve_vanished find_waste
  resolve_vanished-idempotent kind ids s =
      update_where-idempotent
        (λ r. is_vanished kind ids (find_waste r.waste_id s) && is_syncable r.status)
        (λ r. moved_to (resolution r.status) (some b.now) r)
        (λ r _. and_false _ _ (resolution_final r.status)) s.recommendations

  -- What a status says of the run behind it, which is `done` or has the error `e`.
  abbrev pub IsGraceOutcome : Mode → Bool × Option String → Status → Type 0
  IsGraceOutcome m (done, e) a =
      ((a ≡ Status.approved) × (done ≡ true) × (b.dry_run ≡ false) × (is_manual m ≡ false))
      ⊎ ((a ≡ Status.obsolete) × (done ≡ false) × (names_missing e ≡ true))
      ⊎ ((a ≡ Status.pending)
          × (((done ≡ true) × (b.dry_run || is_manual m ≡ true))
              ⊎ ((done ≡ false) × (names_missing e ≡ false))))

  grace_status-IsGraceOutcome :
      (m : Mode) (done : Bool) (e : Option String)
      → IsGraceOutcome m (done, e) (grace_execution_status b done e m)
  unfolding grace_execution_status
  grace_status-IsGraceOutcome m done e = go done b.dry_run (is_manual m) (names_missing e)
    where
      go :
          (done dry by_hand missing : Bool)
          → let a =
              if done && not dry && not by_hand
              then Status.approved
              else if not done && missing
              then Status.obsolete
              else Status.pending in
            ((a ≡ Status.approved) × (done ≡ true) × (dry ≡ false) × (by_hand ≡ false))
            ⊎ ((a ≡ Status.obsolete) × (done ≡ false) × (missing ≡ true))
            ⊎ ((a ≡ Status.pending)
                × (((done ≡ true) × (dry || by_hand ≡ true))
                    ⊎ ((done ≡ false) × (missing ≡ false))))
      go true false false missing = inl (refl, refl, refl, refl)
      go true true by_hand missing = inr (inr (refl, inl (refl, refl)))
      go true false true missing = inr (inr (refl, inl (refl, refl)))
      go false dry by_hand true = inr (inl (refl, refl, refl))
      go false dry by_hand false = inr (inr (refl, inr (refl, refl)))

  abbrev pub IsSettled : Recommendation → Mode → Bool × Option String → Recommendation → Type 0
  IsSettled r m o x = (x.id == r.id) ≡ true → IsGraceOutcome m o x.status × (x.execute_after ≡ none)

  done_rows :
      (r : Recommendation) (w : Waste F) (m : Mode) (x : (Bool × Option String) × Store F)
      → All (IsSettled r m x.0) (grace_done b m r w x).recommendations
  done_rows r w m ((done, e), t) =
      update_where-All (λ x. x.id == r.id) _ _
        (λ x hit _. (grace_status-IsGraceOutcome m done e, refl)) (λ x miss hit. cc (hit, miss)) _

  recorded_rows :
      (fails : Bool) (r : Recommendation) (w : Waste F) (m : Mode)
      (x : (Bool × Option String) × Store F) (t : Store F)
      → grace_recorded b fails m r w x ≡ (ok tt, t)
      → All (IsSettled r m x.0) t.recommendations
  recorded_rows true r w m x t h = cc h
  recorded_rows false r w m x t h =
      let same : grace_done b m r w x ≡ t = cc h in
      subst (λ (u : Store F). All (IsSettled r m x.0) u.recommendations) same (done_rows r w m x)

  -- Once the run of a due recommendation is recorded, whatever it has made of it, each row of its id
  -- has left the schedule. It is approved only if the run succeeded, is no dry run and the action is
  -- automated; obsolete only if the run failed with an error that names a missing resource; and
  -- pending only if a success was a dry run or by hand, or a failure names no missing resource.
  pub grace_step-IsGraceOutcome :
      (fails : Bool) (r : Recommendation) (w : Waste F) (s t : Store F)
      → grace_step b fails r w s ≡ (ok tt, t)
      → let m = mode_of b r.recommendation_type in
        All (IsSettled r m (grace_run b m r w s).0) t.recommendations
  unfolding grace_step
  grace_step-IsGraceOutcome fails r w s t h =
      let m = mode_of b r.recommendation_type in recorded_rows fails r w m (grace_run b m r w s) t h
