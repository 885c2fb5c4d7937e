-- ===== src/Common/Rows.antt =====
-- The row of a table that is found after an update, and the members of a set of texts.
use Prim.Native.String.{String}
use text.Mathlib.Text.{◌==◌ as str_eq}
use mathlib.Core.Path.{◌≡◌, refl, subst, ap, ◌∙◌}
use mathlib.Core.Logic.{inl, inr}
use mathlib.Core.Bool.{Bool, true}
use mathlib.Core.Option.{some}
use mathlib.Core.List.{List, [], ◌∷◌}
use wasteless.Common.Tests.{if◌then◌else◌, Bool-cases}
use wasteless.Common.Lists.{any, first, update_where}

-- `x in names` for a set of texts
abbrev pub is_in : List String → String → Bool
is_in names x = any (str_eq x) names

pub first_passes :
    {A : Type 0} (p : A → Bool) (xs : List A) (x : A) → first p xs ≡ some x → p x ≡ true
first_passes p [] x h = cc
first_passes p (y ∷ ys) x h = elim (Bool-cases (p y)) [
  | inl here ↦ let same : y ≡ x = cc (rw here at h) in subst (λ z. p z ≡ true) same here
  | inr later ↦ first_passes p ys x (rw later at h)
]

-- Where the update leaves `p` of a row as it is, it leaves the row that is found.
module _ {A : Type 0} (p q : A → Bool) (f : A → A) (stable : (x : A) → p (f x) ≡ p x) where
  abbrev pub updated : A → A
  updated x = if q x then f x else x

  updated_stable : (x : A) → p (updated x) ≡ p x
  updated_stable x = elim (Bool-cases (q x)) [
    | inl here ↦ rw here (stable x)
    | inr other ↦ rw other refl
  ]

  pub first-update_where :
      (xs : List A) (x : A) → first p xs ≡ some x → first p (update_where q f xs) ≡ some (updated x)
  first-update_where [] x h = cc
  first-update_where (y ∷ ys) x h = elim (Bool-cases (p y)) [
    | inl here ↦
        let same : y ≡ x = cc (rw here at h) in
        rw (updated_stable y ∙ here) (ap (λ z. some (updated z)) same)
    | inr later ↦ rw (updated_stable y ∙ later) (first-update_where ys x (rw later at h))
  ]
