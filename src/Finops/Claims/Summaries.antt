-- ===== src/Finops/Claims/Summaries.antt =====
-- src/core/finops_invariants/claims.py: the generated summary, as the wording check reads it.
use wasteless.Common.{
  ◌≡◌, refl, sym, ap, ◌∙◌, ℕ, String, Bool, true, false, or-right, List, [], ◌∷◌, any, str_eq,
  eq_iff, is_in, inl, inr, Bool-cases,
}
use wasteless.Python.{
  ok_inj, Numbers, contains, occurs, joined, error, invariant_violated, ok, raised, >>=-eq-ok,
}
use wasteless.Finops.Claims.{
  forbidden_words, validate_claim_wording, Figures, percentage_of, first_sentences, confirmed_part,
  generate_cto_safe_summary,
}

occurs-joined : (word s t : String) → occurs word t ≡ true → occurs word (joined s t) ≡ true
unfolding contains
occurs-joined word String.[] t h = h
occurs-joined word (String.◌∷◌ c s) t h = or-right _ _ (occurs-joined word s t h)

occurs-confirmed : (t : String) → occurs "confirmed savings" (joined "confirmed savings: " t) ≡ true
unfolding contains
occurs-confirmed t = refl

any-is_in :
    (p : String → Bool) (names : List String) (name : String)
    → is_in names name ≡ true
    → p name ≡ true
    → any p names ≡ true
any-is_in p [] name listed h = listed
any-is_in p (x ∷ names) name listed h = elim (Bool-cases (str_eq name x)) [
  | inl same ↦ rw (sym ((eq_iff name x).0 same), h) refl
  | inr other ↦ or-right (p x) (any p names) (any-is_in p names name (rw other at listed) h)
]

module _ {F : Type 0} ⦃n : Numbers F⦄ (fixed : ℕ → F → String) (lower : String → String) where
  -- In small letters the last sentence of a summary begins with these words.
  abbrev pub IsLowered : Figures F → Type 0
  IsLowered d =
      (pct : F)
      → lower (
          joined (first_sentences fixed d pct)
            (joined "Confirmed savings: " (confirmed_part fixed d)))
        ≡ joined (lower (first_sentences fixed d pct))
            (joined "confirmed savings: " (lower (confirmed_part fixed d)))

  -- Every summary that is generated is refused by the check on the wording of claims, unless the claim
  -- is about realized savings: it names the confirmed savings, whatever the figures. It is assumed
  -- that in small letters its last sentence is the sentence in small letters.
  pub validate_claim_wording-generate_cto_safe_summary :
      (d : Figures F) (text savings_type : String) (completed_actions : ℕ)
      → IsLowered d
      → generate_cto_safe_summary fixed d ≡ ok text
      → str_eq savings_type "realized" ≡ false
      → validate_claim_wording lower text savings_type completed_actions
        ≡ raised (error invariant_violated)
  unfolding generate_cto_safe_summary validate_claim_wording
  validate_claim_wording-generate_cto_safe_summary d text savings_type completed_actions small h
        other =
      let (pct, _, written) = >>=-eq-ok (percentage_of d) _ h in
      let confirmed = joined "confirmed savings: " (lower (confirmed_part fixed d)) in
      let is : joined (lower (first_sentences fixed d pct)) confirmed ≡ lower text =
        sym (small pct) ∙ ap lower (ok_inj written) in
      let named : occurs "confirmed savings" (lower text) ≡ true =
        ap (occurs "confirmed savings") (sym is)
        ∙ occurs-joined "confirmed savings" (lower (first_sentences fixed d pct)) confirmed
            (occurs-confirmed (lower (confirmed_part fixed d))) in
      let refused =
        any-is_in (λ w. occurs w (lower text)) forbidden_words "confirmed savings" refl named in
      rw (other, refused) refl
