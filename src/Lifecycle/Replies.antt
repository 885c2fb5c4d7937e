-- ===== src/Lifecycle/Replies.antt =====
-- What a reply of the page says of the tables, and which action takes another one back.
use wasteless.Common.{
  sym, ℕ, ◌≡◌, refl, ap, ◌∙◌, inl, inr, Bool, true, false, ◌&&◌, List, [], ◌∷◌, ◌==◌, some, none,
  Bool-cases, any, update_where, All,
}
use wasteless.Store.{Store, Recommendation, Status}
use wasteless.Lifecycle.{
  PageAction, Backend, is_skippable, is_scheduled, is_rejected, picks, moved_to, change, cancelled,
}
use wasteless.Lifecycle.Page.{execute_one}
use wasteless.Lifecycle.Transitions.{is_approval}

update-none :
    (p : Recommendation → Bool) (f : Recommendation → Recommendation) (rs : List Recommendation)
    → any p rs ≡ false
    → update_where p f rs ≡ rs
update-none p f [] h = refl
update-none p f (r ∷ rs) h = elim (Bool-cases (p r)) [
  | inl hit ↦ cc (rw hit at h)
  | inr miss ↦ rw (miss, update-none p f rs (rw miss at h))
]

cancelled-unchanged :
    {F : Type 0} (rec_id : ℕ) (x : Bool × Store F)
    → (cancelled rec_id x).0 ≡ false
    → (cancelled rec_id x).1 ≡ x.1
cancelled-unchanged rec_id (true, s) h = cc
cancelled-unchanged rec_id (false, s) h = refl

cancelled-found : {F : Type 0} (rec_id : ℕ) (x : Bool × Store F) → (cancelled rec_id x).0 ≡ x.0
cancelled-found rec_id (true, s) = refl
cancelled-found rec_id (false, s) = refl

module _ {F : Type 0} (b : Backend F) where
  -- Rejecting, dismissing, cancelling or restoring one recommendation either says success, or leaves
  -- every recommendation and every row of the action log as it was.
  pub execute_one-unchanged :
      (a : PageAction) (rec_id : ℕ) (s : Store F)
      → is_approval a ≡ false
      → (execute_one b a rec_id s).0.succeeded ≡ false
      → ((execute_one b a rec_id s).1.recommendations ≡ s.recommendations)
        × ((execute_one b a rec_id s).1.actions_log ≡ s.actions_log)
  unfolding execute_one change
  execute_one-unchanged PageAction.reject rec_id s h e = (update-none _ _ s.recommendations e, refl)
  execute_one-unchanged PageAction.dismiss rec_id s h e =
      (update-none _ _ s.recommendations e, refl)
  execute_one-unchanged PageAction.restore rec_id s h e =
      (update-none _ _ s.recommendations e, refl)
  execute_one-unchanged PageAction.cancel rec_id s h e =
      let x =
        change is_scheduled (λ r. record r { status = Status.pending; execute_after = none }) rec_id
          s in
      let same = cancelled-unchanged rec_id x e in
      (
        ap (λ (t : Store F). t.recommendations) same
            ∙ update-none (picks is_scheduled rec_id) _ s.recommendations
                (sym (cancelled-found rec_id x) ∙ e),
        ap (λ (t : Store F). t.actions_log) same,
      )
  execute_one-unchanged PageAction.approve rec_id s h e = cc
  execute_one-unchanged PageAction.execute rec_id s h e = cc

  -- The row of this id waits in the queue and has never been acted on.
  abbrev pub IsUntouched : ℕ → Recommendation → Type 0
  IsUntouched rec_id r =
      (r.id == rec_id) ≡ true → (r.status ≡ Status.pending) × (r.applied_at ≡ none)

  taken_back :
      (rec_id : ℕ) (r : Recommendation)
      → r.status ≡ Status.pending
      → r.applied_at ≡ none
      → moved_to Status.pending none (moved_to Status.rejected (some b.now) r) ≡ r
  taken_back rec_id r pending never = cc (pending, never)

  and-first : (x y : Bool) → (x && y) ≡ true → x ≡ true
  and-first true y h = refl
  and-first false y h = cc

  passed_by :
      (rec_id : ℕ) (r : Recommendation)
      → IsUntouched rec_id r
      → picks is_skippable rec_id r ≡ false
      → (r.id == rec_id) ≡ false
  passed_by rec_id r here miss = elim (Bool-cases (r.id == rec_id)) [
    | inr other ↦ other
    | inl same ↦ absurd (skippable r.status (here same).0 (rw same at miss))
  ]
    where
      skippable : (a : Status) → a ≡ Status.pending → is_skippable a ≡ false → ⊥
      skippable a e h = cc (ap is_skippable e, h)

  update_twice :
      (rec_id : ℕ) (rs : List Recommendation)
      → All (IsUntouched rec_id) rs
      → update_where
          (picks is_rejected rec_id)
          (moved_to Status.pending none)
          (update_where (picks is_skippable rec_id) (moved_to Status.rejected (some b.now)) rs)
        ≡ rs
  update_twice rec_id [] h = refl
  update_twice rec_id (r ∷ rs) (here, later) = elim (Bool-cases (picks is_skippable rec_id r)) [
    | inl hit ↦
        let same = and-first (r.id == rec_id) _ hit in
        let (pending, never) = here same in
        rw (hit, same, update_twice rec_id rs later)
          (ap (λ x. x ∷ rs) (taken_back rec_id r pending never))
    | inr miss ↦ rw (miss, passed_by rec_id r here miss, update_twice rec_id rs later)
  ]

  -- Restoring takes a rejection back: when every row of this id is pending and was never acted on,
  -- rejecting it and then restoring it gives the recommendations as they were.
  pub restore-reject :
      (rec_id : ℕ) (s : Store F)
      → All (IsUntouched rec_id) s.recommendations
      → let rejected = (execute_one b PageAction.reject rec_id s).1 in
        (execute_one b PageAction.restore rec_id rejected).1.recommendations ≡ s.recommendations
  unfolding execute_one change
  restore-reject rec_id s h = update_twice rec_id s.recommendations h
