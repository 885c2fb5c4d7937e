-- ===== src/Sync/Evidence.antt =====
-- ui/jobs.py: what it takes that a synchronisation resolves a recommendation.
use wasteless.Common.{
  or-right, ℕ, String, ◌≡◌, refl, ◌⊎◌, inl, inr, Bool, true, false, some, List, [], ◌∷◌, str_eq,
  eq_iff, any, keep, All, Bool-cases, Option-cases,
}
use wasteless.Store.{Store, Waste, Recommendation}
use wasteless.Lifecycle.{Backend}
use wasteless.Sync.{
  Cloud, gone, find_vanished_resources, open_on, sync_found, sync_each, sync_ec2_instance_states,
  aws_states, state_in, sync_aws_job, noted, resolve_each,
}
use wasteless.Sync.Absence.{gone_iff}
use wasteless.Sync.Rows.{
  IsGone, vanished, missing, halted, Outcomes, Outcomes-refl, Outcomes-update, IsOld, Outcomes-open,
  IsStep, resolve_vanished-IsStep, settle_each-IsStep, All-map, All-any,
}
use wasteless.Sync.States.{should_obsolete_state, aws_states-none, aws_states-some}

mentions_self : (ids : List String) → All (λ i. any (str_eq i) ids ≡ true) ids
mentions_self [] = tt
mentions_self (i ∷ ids) =
    (rw ((eq_iff i i).1 refl) refl, weaken (λ j h. or-right _ _ h) ids (mentions_self ids))
  where
    weaken :
        {P Q : String → Type 0}
        → ((j : String) → P j → Q j)
        → (js : List String) → All P js
        → All Q js
    weaken f [] h = tt
    weaken f (j ∷ js) h = (f j h.0, weaken f js h.1)

All-keep :
    (P : Recommendation → Type 0) (p : Recommendation → Bool) (xs : List Recommendation)
    → All P xs
    → All (λ x. P x × (p x ≡ true)) (keep p xs)
All-keep P p [] h = tt
All-keep P p (x ∷ xs) h = elim (Bool-cases (p x)) [
  | inl hit ↦ rw (hit, keep) ((h.0, hit), All-keep P p xs h.1)
  | inr miss ↦ rw (miss, keep) (All-keep P p xs h.1)
]

AreGone : Cloud → List (String × List String) → Type 0
AreGone c = All (λ entry. (rid : String) → any (str_eq rid) entry.1 ≡ true → IsGone c rid)

find_vanished-AreGone :
    (c : Cloud) (pending : List (String × List String))
    → AreGone c (find_vanished_resources c pending)
unfolding find_vanished_resources AreGone
find_vanished-AreGone c [] = tt
find_vanished-AreGone c ((kind, ids) ∷ pending) =
    noted-AreGone (gone c kind ids) gone-IsGone _ (find_vanished-AreGone c pending)
  where
    gone-IsGone : (rid : String) → any (str_eq rid) (gone c kind ids) ≡ true → IsGone c rid
    gone-IsGone rid h =
        let (asked, (check, e, absent)) = (gone_iff c kind ids rid).0 h in
        vanished kind check ids asked e absent

    noted-AreGone :
        (found : List String)
        → ((rid : String) → any (str_eq rid) found ≡ true → IsGone c rid)
        → (rest : List (String × List String)) → AreGone c rest
        → AreGone c (noted c kind found rest)
    noted-AreGone [] h rest gone_rest = gone_rest
    noted-AreGone (x ∷ xs) h rest gone_rest = (h, gone_rest)

module _ {F : Type 0} (c : Cloud) (wastes : List (Waste F)) (before : List Recommendation) where
  resolve_each-IsStep :
      (b : Backend F) (entries : List (String × List String)) (s : Store F)
      → AreGone c entries
      → IsStep c wastes before s
      → IsStep c wastes before (resolve_each b entries s)
  unfolding resolve_each AreGone
  resolve_each-IsStep b [] s h step = step
  resolve_each-IsStep b ((kind, ids) ∷ entries) s h step =
      resolve_each-IsStep b entries _ h.1
        (resolve_vanished-IsStep c wastes before b kind ids s h.0 step)

  module _ (now : ℕ) (ids : List String) where
    abbrev states : List (String × String) × Bool
    states = aws_states c ids c.regions ([], false)

    sync_found-IsStep :
        (i : String) (s : Store F)
        → any (str_eq i) ids ≡ true
        → IsStep c wastes before s
        → IsStep c wastes before (sync_found now states.1 (state_in states.0 i) i s)
    sync_found-IsStep i s asked (e, os) = elim (Option-cases (state_in states.0 i)) [
      | inl unseen ↦ rw unseen (elim (Bool-cases states.1) [
        | inl failed ↦ rw failed (e, os)
        | inr answered ↦
            let none_of = aws_states-none c ids i c.regions [] false answered unseen in
            rw answered (
              e,
              Outcomes-update c wastes before now _ os (
                  All-map {P = IsOld c wastes before}
                    (λ y old hit. (i, old i (rw e at hit), missing ids asked none_of.2)) _
                    (Outcomes-open c wastes before (All-any before) os)),
            )
      ])
      | inr (state, seen_as) ↦ rw seen_as (
          settle_each-IsStep c wastes before now state _ s
            (All-map
              (λ r fetched obsolete. (
                i,
                fetched.0 i (rw e at (fetched.1)),
                seen-IsGone state seen_as asked
                    (should_obsolete_state r.recommendation_type state obsolete),
              ))
              _
              (All-keep (IsOld c wastes before) (open_on s.wastes i) s.recommendations
                (Outcomes-open c wastes before (All-any before) os)))
            (e, os))
    ]
      where
        seen-IsGone :
            (state : String)
            → state_in states.0 i ≡ some state
            → any (str_eq i) ids ≡ true
            → (state ≡ "stopped") ⊎ (state ≡ "terminated")
            → IsGone c i
        seen-IsGone state seen_as asked stopped =
            elim (aws_states-some c ids i state c.regions [] false seen_as) [
              | inl shown ↦ halted ids shown.0 shown.1 state asked shown.2 shown.3 stopped
              | inr nowhere ↦ cc
            ]

    sync_each-IsStep :
        (rest : List String) (s : Store F)
        → All (λ i. any (str_eq i) ids ≡ true) rest
        → IsStep c wastes before s
        → IsStep c wastes before (sync_each now states rest s)
    unfolding sync_each
    sync_each-IsStep [] s asked step = step
    sync_each-IsStep (i ∷ rest) s asked step =
        sync_each-IsStep rest _ asked.1 (sync_found-IsStep i s asked.0 step)

-- A synchronisation keeps every row and its place, and changes a row only where an open
-- recommendation of its id stood on a resource that is gone: every region answered without it, or
-- one shows the instance as stopped or terminated. The row becomes applied if it was
-- approved_manual, and obsolete otherwise. So a region that fails resolves nothing by absence.
pub sync_aws_job-Outcomes :
    {F : Type 0} (b : Backend F) (c : Cloud) (s : Store F)
    → Outcomes c s.wastes s.recommendations s.recommendations (sync_aws_job b c s).recommendations
unfolding sync_aws_job sync_ec2_instance_states
sync_aws_job-Outcomes b c s =
    (sync_each-IsStep c s.wastes s.recommendations b.now _ _ _ (mentions_self _) (
      resolve_each-IsStep c s.wastes s.recommendations b _ s (find_vanished-AreGone c _)
        (refl, Outcomes-refl c s.wastes s.recommendations s.recommendations))).1
