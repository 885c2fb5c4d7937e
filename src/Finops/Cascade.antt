-- ===== src/Finops/Cascade.antt =====
-- The order between the figures that pass the checks, on floats without NaN.
use wasteless.Common.{
  String, ◌≡◌, refl, inl, inr, Bool, true, false, List, [], ◌∷◌, All, str_eq, eq_iff, Bool-cases,
}
use wasteless.Python.{Numbers, IsOrdered, error, invariant_violated, ok, raise_if, >>-eq-ok}
use wasteless.Finops.Amounts.{
  Saving, zero_f, larger, amount_of, best_for, keep_best, best_per_resource, waste_percentage,
  validate_potential_vs_detected,
}

pub raise_if-passed :
    (b : Bool) {u : Unit {0}} → raise_if b (error invariant_violated) ≡ ok u → b ≡ false
raise_if-passed true h = cc
raise_if-passed false h = refl

module _ {F : Type 0} ⦃n : Numbers F⦄ (o : IsOrdered n) where
  -- A waste percentage is computed only for waste within the spend, and a potential saving is
  -- accepted only within the waste: so a saving that passes both checks is within the spend. It is
  -- assumed that no float is NaN.
  pub potential_within_spend :
      (potential waste spend : F) {percentage accepted : F}
      → waste_percentage waste spend ≡ ok percentage
      → validate_potential_vs_detected potential waste ≡ ok accepted
      → n.le potential spend ≡ true
  unfolding waste_percentage validate_potential_vs_detected
  potential_within_spend potential waste spend e e' =
      let (_, e₁) = >>-eq-ok (raise_if (n.le spend zero_f) _) _ e in
      let (_, e₂) = >>-eq-ok (raise_if (n.lt waste zero_f) _) _ e₁ in
      let (within, _) = >>-eq-ok (raise_if (n.lt spend waste) _) _ e₂ in
      let (below, _) = >>-eq-ok (raise_if (n.lt waste potential) _) _ e' in
      o.le_trans potential waste spend (o.not_lt_le waste potential (raise_if-passed _ below))
        (o.not_lt_le spend waste (raise_if-passed _ within))

  larger-left : (a b : F) → n.le a (larger a b) ≡ true
  larger-left a b = elim (Bool-cases (n.lt a b)) [
    | inl less ↦ rw less (o.lt_le a b less)
    | inr more ↦ rw more (o.le_refl a)
  ]

  larger-right : (a b : F) → n.le b (larger a b) ≡ true
  larger-right a b = elim (Bool-cases (n.lt a b)) [
    | inl less ↦ rw less (o.le_refl b)
    | inr more ↦ rw more (o.not_lt_le a b more)
  ]

  best_for-grows :
      (k rid : String) (x : F) (best : List (String × F))
      → n.le (best_for k best) (best_for k (keep_best rid x best)) ≡ true
  unfolding keep_best
  best_for-grows k rid x [] = elim (Bool-cases (str_eq rid k)) [
    | inl same ↦ rw same (larger-left zero_f x)
    | inr other ↦ rw other (o.le_refl zero_f)
  ]
  best_for-grows k rid x ((key, y) ∷ best) = elim (Bool-cases (str_eq key rid)) [
    | inl same ↦ rw same (elim (Bool-cases (str_eq key k)) [
      | inl here ↦ rw here (larger-left y x)
      | inr there ↦ rw there (o.le_refl (best_for k best))
    ])
    | inr other ↦ rw other (elim (Bool-cases (str_eq key k)) [
      | inl here ↦ rw here (o.le_refl y)
      | inr there ↦ rw there (best_for-grows k rid x best)
    ])
  ]

  best_for-covers :
      (rid : String) (x : F) (best : List (String × F))
      → n.le x (best_for rid (keep_best rid x best)) ≡ true
  unfolding keep_best
  best_for-covers rid x [] = rw ((eq_iff rid rid).1 refl) (larger-right zero_f x)
  best_for-covers rid x ((key, y) ∷ best) = elim (Bool-cases (str_eq key rid)) [
    | inl same ↦ rw (same, same) (larger-right y x)
    | inr other ↦ rw (other, other) (best_for-covers rid x best)
  ]

  best_per_resource-grows :
      (k : String) (best : List (String × F)) (rs : List (Saving F))
      → n.le (best_for k best) (best_for k (best_per_resource best rs)) ≡ true
  unfolding best_per_resource
  best_per_resource-grows k best [] = o.le_refl _
  best_per_resource-grows k best (r ∷ rs) =
      o.le_trans _ _ _ (best_for-grows k r.resource_id (amount_of r) best)
        (best_per_resource-grows k (keep_best r.resource_id (amount_of r) best) rs)

  -- The table behind the deduplicated total of savings has, for the resource of every recommendation,
  -- an amount that is no smaller than that recommendation's. It is assumed that no float is NaN.
  pub best_per_resource-covers :
      (best : List (String × F)) (rs : List (Saving F))
      → All (λ r. n.le (amount_of r) (best_for r.resource_id (best_per_resource best rs)) ≡ true) rs
  unfolding best_per_resource
  best_per_resource-covers best [] = tt
  best_per_resource-covers best (r ∷ rs) =
      let best' = keep_best r.resource_id (amount_of r) best in
      (
        o.le_trans _ _ _ (best_for-covers r.resource_id (amount_of r) best)
            (best_per_resource-grows r.resource_id best' rs),
        best_per_resource-covers best' rs,
      )
