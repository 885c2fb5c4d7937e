-- ===== src/Sync/States.antt =====
-- ui/jobs.py: what `aws_states` and `region_failed` say of the regions.
use wasteless.Common.{
  or-right, String, ◌≡◌, refl, ◌⊎◌, inl, inr, Bool, true, false, ◌&&◌, none, some, List, [], ◌∷◌,
  str_eq, eq_iff, any, All, Bool-cases, arith,
}
use wasteless.Python.{ok, Result-cases}
use wasteless.Sync.{Cloud, should_obsolete, aws_states, state_in, pushed}

pub should_obsolete_state :
    (kind state : String)
    → should_obsolete kind state ≡ true
    → (state ≡ "stopped") ⊎ (state ≡ "terminated")
unfolding should_obsolete
should_obsolete_state kind state h = elim (Bool-cases (str_eq state "stopped")) [
  | inl e ↦ inl ((eq_iff state "stopped").0 e)
  | inr e ↦ elim (Bool-cases (str_eq state "terminated")) [
    | inl e' ↦ inr ((eq_iff state "terminated").0 e')
    | inr e' ↦ ground arith
  ]
]

pushed-none :
    (rid : String) (instances states : List (String × String))
    → state_in (pushed instances states) rid ≡ none
    → (any (λ i. str_eq i.0 rid) instances ≡ false) × (state_in states rid ≡ none)
pushed-none rid [] states h = (refl, h)
pushed-none rid ((i, state) ∷ instances) states h =
    let ih = pushed-none rid instances ((i, state) ∷ states) h in
    elim (Bool-cases (str_eq i rid)) [
      | inl hit ↦ cc (rw hit at (ih.1))
      | inr miss ↦ (rw miss (ih.0), rw miss at (ih.1))
    ]

pushed-some :
    (rid state : String) (instances states : List (String × String))
    → state_in (pushed instances states) rid ≡ some state
    → (any (λ i. str_eq i.0 rid && str_eq i.1 state) instances ≡ true)
      ⊎ (state_in states rid ≡ some state)
pushed-some rid state [] states h = inr h
pushed-some rid state ((i, st) ∷ instances) states h =
    elim (pushed-some rid state instances ((i, st) ∷ states) h) [
      | inl found ↦ inl (or-right _ _ found)
      | inr top ↦ elim (Bool-cases (str_eq i rid)) [
        | inl hit ↦ inl (ground (arith, eq_iff st state))
        | inr miss ↦ inr (rw miss at top)
      ]
    ]

module _ (c : Cloud) (ids : List String) (rid : String) where
  pub aws_states-none :
      (regions : List String) (states : List (String × String)) (failed : Bool)
      → (aws_states c ids regions (states, failed)).1 ≡ false
      → state_in (aws_states c ids regions (states, failed)).0 rid ≡ none
      → (failed ≡ false)
        × (state_in states rid ≡ none)
        × All
            (λ region.
              (found : List (String × String)) × (c.instances region ids ≡ ok found)
              × (any (λ i. str_eq i.0 rid) found ≡ false))
            regions
  unfolding aws_states
  aws_states-none [] states failed h none_left = (h, none_left, tt)
  aws_states-none (region ∷ regions) states failed h none_left =
      elim (Result-cases (c.instances region ids)) [
        | inl (found, e) ↦
            let ih =
              aws_states-none regions (pushed found states) failed (rw (e, aws_states) at h)
                (rw (e, aws_states) at none_left) in
            let none_of = pushed-none rid found states (ih.1) in
            (ih.0, none_of.1, ((found, e, none_of.0), ih.2))
        | inr (x, e) ↦ cc (
            (aws_states-none regions states true (rw (e, aws_states) at h)
              (rw (e, aws_states) at none_left)).0)
      ]

  pub aws_states-some :
      (state : String) (regions : List String) (states : List (String × String)) (failed : Bool)
      → state_in (aws_states c ids regions (states, failed)).0 rid ≡ some state
      → ((region : String) × (found : List (String × String)) × (c.instances region ids ≡ ok found)
          × (any (λ i. str_eq i.0 rid && str_eq i.1 state) found ≡ true))
        ⊎ (state_in states rid ≡ some state)
  unfolding aws_states
  aws_states-some state [] states failed h = inr h
  aws_states-some state (region ∷ regions) states failed h =
      elim (Result-cases (c.instances region ids)) [
        | inl (found, e) ↦
            elim (aws_states-some state regions (pushed found states) failed
              (rw (e, aws_states) at h)) [
                | inl shown ↦ inl shown
                | inr top ↦ elim (pushed-some rid state found states top) [
                  | inl here ↦ inl (region, found, e, here)
                  | inr below ↦ inr below
                ]
              ]
        | inr (x, e) ↦ aws_states-some state regions states true (rw (e, aws_states) at h)
      ]
