-- ===== src/Finops/Assured.antt =====
-- What high confidence rests on.
use wasteless.Common.{
  ◌≡◌, ◌≢◌, ◌↔◌, refl, String, Bool, true, false, not, ◌||◌, Option, ℕ, all, if◌then◌else◌,
}
use wasteless.Python.{Numbers}
use wasteless.Finops.Confidence.{
  low, medium, high, low_cap_fields, medium_cap_fields, too_short, assess_confidence,
}

capped : (f : Bool) → (if f then medium else low) ≢ high
capped true h = cc
capped false h = cc

high_iff :
    (a b c d e f : Bool)
    → ((if not a
          then low
          else if not b || not c || d
          then (if f then medium else low)
          else if e
          then high
          else if f
          then medium
          else low)
        ≡ high)
      ↔ (a ≡ true) × (b ≡ true) × (c ≡ true) × (d ≡ false) × (e ≡ true)
high_iff false b c d e f = ((λ h. cc), (λ h. cc (h.0)))
high_iff true false c d e f = ((λ h. absurd (capped f h)), (λ h. cc (h.1)))
high_iff true true false d e f = ((λ h. absurd (capped f h)), (λ h. cc (h.2)))
high_iff true true true true e f = ((λ h. absurd (capped f h)), (λ h. cc (h.3)))
high_iff true true true false false f = ((λ h. absurd (capped f h)), (λ h. cc (h.4)))
high_iff true true true false true f = ((λ h. (refl, refl, refl, refl, refl)), (λ h. refl))

-- The confidence is high just when the currency, the period, the source of the price, the owner and
-- the environment are known, the metrics are complete, the window is not shorter than what is asked
-- where both are known, and the signal reaches 0.8.
pub assess_confidence-high_iff :
    {F : Type 0} ⦃n : Numbers F⦄ (has : String → Bool) (signal : F) (days least : Option ℕ)
    (complete : Bool)
    → (assess_confidence has signal days least complete ≡ high)
      ↔ (all has low_cap_fields ≡ true)
        × (all has medium_cap_fields ≡ true)
        × (complete ≡ true)
        × (too_short days least ≡ false)
        × (n.le (n.decimal 8 1) signal ≡ true)
unfolding assess_confidence
assess_confidence-high_iff ⦃n⦄ has signal days least complete =
    high_iff (all has low_cap_fields) (all has medium_cap_fields) complete (too_short days least)
      (n.le (n.decimal 8 1) signal) (n.le (n.decimal 5 1) signal)
