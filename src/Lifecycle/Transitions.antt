-- ===== src/Lifecycle/Transitions.antt =====
-- Which moves of a status the page's actions make, apart from an approval.
use wasteless.Common.{
  ℕ, ◌≡◌, refl, ◌∙◌, inl, inr, Bool, true, false, ◌&&◌, List, [], ◌∷◌, ◌==◌, some, none, Bool-cases,
  update_where,
}
use wasteless.Store.{Store, Recommendation, Status}
use wasteless.Lifecycle.{
  PageAction, Backend, is_skippable, is_scheduled, is_rejected, picks, moved_to, change, close_log,
  cancelled,
}
use wasteless.Lifecycle.Page.{execute_one, api_execute_actions}

-- One action of the page on one recommendation.
pub data Move : Status → Status → Type 0 where
  skipped : Move Status.pending Status.rejected
  todo_skipped : Move Status.approved_manual Status.rejected
  dropped : Move Status.pending Status.dismissed
  todo_dropped : Move Status.approved_manual Status.dismissed
  called_off : Move Status.scheduled Status.pending
  restored : Move Status.rejected Status.pending

pub data Moves : Status → Status → Type 0 where
  stay : {a : Status} → Moves a a
  step : {a b c : Status} → Move a b → Moves b c → Moves a c

-- The same rows in the same order, each with a status that moves lead to.
pub data Follows : List Recommendation → List Recommendation → Type 0 where
  no_rows : Follows [] []
  row :
      {r r' : Recommendation} {rs rs' : List Recommendation}
      → r'.id ≡ r.id
      → Moves r.status r'.status
      → Follows rs rs'
      → Follows (r ∷ rs) (r' ∷ rs')

Moves-trans : {a b c : Status} → Moves a b → Moves b c → Moves a c
Moves-trans stay n = n
Moves-trans (step m ms) n = step m (Moves-trans ms n)

Follows-refl : (rs : List Recommendation) → Follows rs rs
Follows-refl [] = no_rows
Follows-refl (r ∷ rs) = row refl stay (Follows-refl rs)

Follows-trans : {xs ys zs : List Recommendation} → Follows xs ys → Follows ys zs → Follows xs zs
Follows-trans no_rows no_rows = no_rows
Follows-trans (row i m h) (row j n k) = row (j ∙ i) (Moves-trans m n) (Follows-trans h k)

and-left : (a b : Bool) → (a && b) ≡ true → b ≡ true
and-left true b h = h
and-left false b h = cc

module _ (allowed : Status → Bool) (f : Recommendation → Recommendation) (rec_id : ℕ)
    (keeps : (r : Recommendation) → (f r).id ≡ r.id)
    (moves : (r : Recommendation) → allowed r.status ≡ true → Move r.status (f r).status) where
  update-Follows :
      (rs : List Recommendation) → Follows rs (update_where (picks allowed rec_id) f rs)
  update-Follows [] = no_rows
  update-Follows (r ∷ rs) = elim (Bool-cases (picks allowed rec_id r)) [
    | inl hit ↦
        rw hit (
          row (keeps r) (step (moves r (and-left (r.id == rec_id) _ hit)) stay) (update-Follows rs))
    | inr miss ↦ rw miss (row refl stay (update-Follows rs))
  ]

reject-Move : (a : Status) → is_skippable a ≡ true → Move a Status.rejected
reject-Move Status.pending h = skipped
reject-Move Status.approved_manual h = todo_skipped
reject-Move Status.scheduled h = cc
reject-Move Status.pr_open h = cc
reject-Move Status.approved h = cc
reject-Move Status.rejected h = cc
reject-Move Status.dismissed h = cc
reject-Move Status.applied h = cc
reject-Move Status.obsolete h = cc

dismiss-Move : (a : Status) → is_skippable a ≡ true → Move a Status.dismissed
dismiss-Move Status.pending h = dropped
dismiss-Move Status.approved_manual h = todo_dropped
dismiss-Move Status.scheduled h = cc
dismiss-Move Status.pr_open h = cc
dismiss-Move Status.approved h = cc
dismiss-Move Status.rejected h = cc
dismiss-Move Status.dismissed h = cc
dismiss-Move Status.applied h = cc
dismiss-Move Status.obsolete h = cc

cancel-Move : (a : Status) → is_scheduled a ≡ true → Move a Status.pending
cancel-Move Status.scheduled h = called_off
cancel-Move Status.pending h = cc
cancel-Move Status.approved_manual h = cc
cancel-Move Status.pr_open h = cc
cancel-Move Status.approved h = cc
cancel-Move Status.rejected h = cc
cancel-Move Status.dismissed h = cc
cancel-Move Status.applied h = cc
cancel-Move Status.obsolete h = cc

restore-Move : (a : Status) → is_rejected a ≡ true → Move a Status.pending
restore-Move Status.rejected h = restored
restore-Move Status.scheduled h = cc
restore-Move Status.pending h = cc
restore-Move Status.approved_manual h = cc
restore-Move Status.pr_open h = cc
restore-Move Status.approved h = cc
restore-Move Status.dismissed h = cc
restore-Move Status.applied h = cc
restore-Move Status.obsolete h = cc

abbrev pub is_approval : PageAction → Bool
is_approval PageAction.approve = true
is_approval PageAction.execute = true
is_approval _ = false

abbrev called : Recommendation → Recommendation
called r = record r { status = Status.pending; execute_after = none }

cancelled-Follows :
    {F : Type 0} (rec_id : ℕ) (x : Bool × Store F) (rs : List Recommendation)
    → Follows rs x.1.recommendations
    → Follows rs (cancelled rec_id x).1.recommendations
unfolding close_log
cancelled-Follows rec_id (true, s) rs h = h
cancelled-Follows rec_id (false, s) rs h = h

module _ {F : Type 0} (b : Backend F) where
  execute_one-Follows :
      (a : PageAction) (rec_id : ℕ) (s : Store F)
      → is_approval a ≡ false
      → Follows s.recommendations (execute_one b a rec_id s).1.recommendations
  unfolding execute_one change close_log
  execute_one-Follows PageAction.reject rec_id s h =
      update-Follows is_skippable (moved_to Status.rejected (some b.now)) rec_id (λ r. refl)
        (λ r. reject-Move r.status) s.recommendations
  execute_one-Follows PageAction.dismiss rec_id s h =
      update-Follows is_skippable (moved_to Status.dismissed (some b.now)) rec_id (λ r. refl)
        (λ r. dismiss-Move r.status) s.recommendations
  execute_one-Follows PageAction.restore rec_id s h =
      update-Follows is_rejected (moved_to Status.pending none) rec_id (λ r. refl)
        (λ r. restore-Move r.status) s.recommendations
  execute_one-Follows PageAction.cancel rec_id s h =
      cancelled-Follows rec_id (change is_scheduled called rec_id s) s.recommendations (
        update-Follows is_scheduled called rec_id (λ r. refl) (λ r. cancel-Move r.status)
          s.recommendations)
  execute_one-Follows PageAction.approve rec_id s h = cc
  execute_one-Follows PageAction.execute rec_id s h = cc

  -- Rejecting, dismissing, cancelling and restoring, on any list of ids, keep every row and its
  -- place, and lead each status only where the moves allow: a recommendation that is approved,
  -- applied, obsolete, dismissed or in an open pull request has no move, so that it stays.
  pub api_execute_actions-Follows :
      (a : PageAction) (ids : List ℕ) (s : Store F)
      → is_approval a ≡ false
      → Follows s.recommendations (api_execute_actions b a ids s).1.recommendations
  unfolding api_execute_actions
  api_execute_actions-Follows a [] s h = Follows-refl s.recommendations
  api_execute_actions-Follows a (rec_id ∷ ids) s h =
      Follows-trans (execute_one-Follows a rec_id s h)
        (api_execute_actions-Follows a ids (execute_one b a rec_id s).1 h)
