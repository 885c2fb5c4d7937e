-- ===== src/Sync/Rows.antt =====
-- ui/jobs.py: what one statement of the synchronisation does to the rows of `recommendations`.
use wasteless.Common.{
  or-right, ℕ, String, ◌≡◌, refl, sym, subst, ◌⊎◌, inl, inr, Bool, true, false, ◌&&◌, some, List,
  [], ◌∷◌, str_eq, eq_iff, ◌==◌, ==_iff, any, first, update_where, All, Bool-cases, Option-cases,
  arith,
}
use wasteless.Python.{ok}
use wasteless.Store.{Store, Waste, Recommendation, Status, find_waste}
use wasteless.Lifecycle.{Backend, is_syncable, is_vanished, resolution, moved_to}
use wasteless.Lifecycle.Jobs.{resolve_vanished}
use wasteless.Sync.{Cloud, Checker, checker_in, checkers, should_obsolete, open_on, settle_each}
use wasteless.Sync.Absence.{IsAbsent}

-- Why a resource may count as gone: a checker answered in each region without it, or each region
-- answered without the instance, or a region shows the instance as stopped or terminated.
pub data IsGone (c : Cloud) (rid : String) : Type 0 where
  vanished :
      (kind : String) (check : Checker) (ids : List String)
      → any (str_eq rid) ids ≡ true
      → checker_in (checkers c) kind ≡ some check
      → IsAbsent check ids rid c.regions
      → IsGone c rid
  missing :
      (ids : List String)
      → any (str_eq rid) ids ≡ true
      → All
          (λ region.
            (found : List (String × String)) × (c.instances region ids ≡ ok found)
            × (any (λ i. str_eq i.0 rid) found ≡ false))
          c.regions
      → IsGone c rid
  halted :
      (ids : List String) (region : String) (found : List (String × String)) (state : String)
      → any (str_eq rid) ids ≡ true
      → c.instances region ids ≡ ok found
      → any (λ i. str_eq i.0 rid && str_eq i.1 state) found ≡ true
      → (state ≡ "stopped") ⊎ (state ≡ "terminated")
      → IsGone c rid

resolution_cases :
    (a : Status)
    → (resolution a ≡ Status.obsolete)
      ⊎ ((a ≡ Status.approved_manual) × (resolution a ≡ Status.applied))
resolution_cases Status.approved_manual = inr (refl, refl)
resolution_cases Status.pending = inl refl
resolution_cases Status.scheduled = inl refl
resolution_cases Status.pr_open = inl refl
resolution_cases Status.approved = inl refl
resolution_cases Status.rejected = inl refl
resolution_cases Status.dismissed = inl refl
resolution_cases Status.applied = inl refl
resolution_cases Status.obsolete = inl refl

pub All-map :
    {P Q : Recommendation → Type 0}
    → ((x : Recommendation) → P x → Q x)
    → (xs : List Recommendation) → All P xs
    → All Q xs
All-map f [] h = tt
All-map f (x ∷ xs) h = (f x h.0, All-map f xs h.1)

pub All-any :
    (xs : List Recommendation)
    → All (λ x. (p : Recommendation → Bool) → p x ≡ true → any p xs ≡ true) xs
All-any [] = tt
All-any (x ∷ xs) =
    (λ p h. rw h refl, All-map (λ y found p h. or-right (p x) _ (found p h)) xs (All-any xs))

module _ {F : Type 0} (c : Cloud) (wastes : List (Waste F)) (before : List Recommendation) where
  -- An open recommendation of this id stood in the table before, on a resource that is gone.
  abbrev pub IsBacked : ℕ → Type 0
  IsBacked id =
      (rid : String) × (any (λ x. x.id == id && open_on wastes rid x) before ≡ true) × IsGone c rid

  -- What the synchronisation may make of a row.
  pub data Outcome (r : Recommendation) : Recommendation → Type 0 where
    untouched : Outcome r r
    resolved :
        {r' : Recommendation}
        → r'.id ≡ r.id
        → r'.waste_id ≡ r.waste_id
        → (r'.status ≡ Status.obsolete)
          ⊎ ((r.status ≡ Status.approved_manual) × (r'.status ≡ Status.applied))
        → IsBacked r.id
        → Outcome r r'

  pub data Outcomes : List Recommendation → List Recommendation → Type 0 where
    no_rows : Outcomes [] []
    row :
        {r r' : Recommendation} {rs rs' : List Recommendation}
        → Outcome r r'
        → Outcomes rs rs'
        → Outcomes (r ∷ rs) (r' ∷ rs')

  pub Outcomes-refl : (rs : List Recommendation) → Outcomes rs rs
  Outcomes-refl [] = no_rows
  Outcomes-refl (r ∷ rs) = row untouched (Outcomes-refl rs)

  Outcome-resolve :
      (now : ℕ) {r y : Recommendation}
      → Outcome r y
      → IsBacked r.id
      → Outcome r (moved_to (resolution y.status) (some now) y)
  Outcome-resolve now {r} untouched b = resolved refl refl (resolution_cases r.status) b
  Outcome-resolve now (resolved i w (inl s) b') b = resolved i w (inl (rw s refl)) b
  Outcome-resolve now (resolved i w (inr s) b') b = resolved i w (inl (rw (s.1) refl)) b

  Outcome-id : {r y : Recommendation} → Outcome r y → y.id ≡ r.id
  Outcome-id untouched = refl
  Outcome-id (resolved i w s b) = i

  pub Outcomes-update :
      (now : ℕ) (p : Recommendation → Bool) {xs ys : List Recommendation}
      → Outcomes xs ys
      → All (λ y. p y ≡ true → IsBacked y.id) ys
      → Outcomes xs (update_where p (λ y. moved_to (resolution y.status) (some now) y) ys)
  Outcomes-update now p no_rows backed = no_rows
  Outcomes-update now p (row {r} {r'} o os) backed = elim (Bool-cases (p r')) [
    | inl hit ↦ rw hit (
        row (Outcome-resolve now o (subst IsBacked (Outcome-id o) (backed.0 hit)))
          (Outcomes-update now p os backed.1))
    | inr miss ↦ rw miss (row o (Outcomes-update now p os backed.1))
  ]

  -- A row that is still open has not been touched, so it stood there before.
  Outcome-open :
      (rid : String) {x y : Recommendation}
      → Outcome x y
      → open_on wastes rid y ≡ true
      → (x.id == y.id && open_on wastes rid x) ≡ true
  Outcome-open rid {x} untouched h = rw ((==_iff x.id x.id).1 refl) h
  Outcome-open rid (resolved i w (inl s) b) h = cc (rw s at h)
  Outcome-open rid (resolved i w (inr s) b) h = cc (rw (s.1) at h)

  -- An open row stood there before.
  abbrev pub IsOld : Recommendation → Type 0
  IsOld y =
      (rid : String)
      → open_on wastes rid y ≡ true
      → any (λ x. x.id == y.id && open_on wastes rid x) before ≡ true

  pub Outcomes-open :
      {xs ys : List Recommendation}
      → All (λ x. (p : Recommendation → Bool) → p x ≡ true → any p before ≡ true) xs
      → Outcomes xs ys
      → All IsOld ys
  Outcomes-open found no_rows = tt
  Outcomes-open found (row {r} {r'} o os) = (
    λ rid h. found.0 (λ x. x.id == r'.id && open_on wastes rid x) (Outcome-open rid o h),
    Outcomes-open found.1 os,
  )

  vanished-IsBacked :
      (kind : String) (ids : List String)
      → ((rid : String) → any (str_eq rid) ids ≡ true → IsGone c rid)
      → (y : Recommendation) → IsOld y
      → (is_vanished kind ids (first (λ w. w.id == y.waste_id) wastes) && is_syncable y.status)
        ≡ true
      → IsBacked y.id
  vanished-IsBacked kind ids are_gone y old hit =
      elim (Option-cases (first (λ w. w.id == y.waste_id) wastes)) [
        | inl e ↦ cc (rw e at hit)
        | inr (w, e) ↦
            let named = rw e at hit in
            (
              w.resource_id,
              old w.resource_id (rw e (ground (arith, eq_iff w.resource_id w.resource_id))),
              are_gone w.resource_id (ground arith),
            )
      ]

  abbrev pub IsStep : Store F → Type 0
  IsStep s = (s.wastes ≡ wastes) × Outcomes before s.recommendations

  pub resolve_vanished-IsStep :
      (b : Backend F) (kind : String) (ids : List String) (s : Store F)
      → ((rid : String) → any (str_eq rid) ids ≡ true → IsGone c rid)
      → IsStep s
      → IsStep (resolve_vanished b kind ids s)
  unfolding resolve_vanished find_waste
  resolve_vanished-IsStep b kind ids s are_gone (e, os) = (
    e,
    Outcomes-update b.now _ os (
        All-map {P = IsOld} (λ y old hit. vanished-IsBacked kind ids are_gone y old (rw e at hit)) _
          (Outcomes-open (All-any before) os)),
  )

  pub settle_each-IsStep :
      (now : ℕ) (state : String) (rs : List Recommendation) (s : Store F)
      → All (λ r. should_obsolete r.recommendation_type state ≡ true → IsBacked r.id) rs
      → IsStep s
      → IsStep (settle_each now state rs s)
  unfolding settle_each
  settle_each-IsStep now state [] s backed step = step
  settle_each-IsStep now state (r ∷ rs) s backed (e, os) =
      elim (Bool-cases (should_obsolete r.recommendation_type state)) [
        | inl hit ↦
            rw (hit, settle_each)
              (settle_each-IsStep now state rs _ backed.1 (
                e,
                Outcomes-update now _ os (
                    All-map {P = IsOld}
                      (λ y old same.
                        subst IsBacked (sym ((==_iff y.id r.id).0 same)) (backed.0 hit))
                      _ (Outcomes-open (All-any before) os)),
              ))
        | inr miss ↦ rw (miss, settle_each) (settle_each-IsStep now state rs s backed.1 (e, os))
      ]
