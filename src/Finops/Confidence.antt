-- ===== src/Finops/Confidence.antt =====
-- src/core/finops_invariants/risk.py, assess_confidence: how high a figure may be shown to be.
use wasteless.Common.{
  ℕ, String, Bool, false, not, ◌||◌, Option, none, some, List, [], ◌∷◌, all, ltb, if◌then◌else◌,
}
use wasteless.Python.{Numbers}

pub data Confidence : Type 0 where
  low medium high : Confidence

-- LOW_CAP_FIELDS
abbrev pub low_cap_fields : List String
low_cap_fields = "currency" ∷ "period" ∷ []

-- MEDIUM_CAP_FIELDS
abbrev pub medium_cap_fields : List String
medium_cap_fields = "pricing_source" ∷ "owner" ∷ "environment" ∷ []

-- Whether the window is shorter than what is asked, where both are known.
abbrev pub too_short : Option ℕ → Option ℕ → Bool
too_short (some days) (some least) = ltb days least
too_short none least = false
too_short (some days) none = false

abbrev pub graded : {F : Type 0} → ⦃n : Numbers F⦄ → Bool → F → Confidence
graded ⦃n⦄ capped signal =
    if capped
    then (if n.le (n.decimal 5 1) signal then medium else low)
    else if n.le (n.decimal 8 1) signal
    then high
    else if n.le (n.decimal 5 1) signal
    then medium
    else low

-- `has` tells whether `metadata.get` of a field is truthy.
unfoldable pub assess_confidence :
    {F : Type 0} → ⦃n : Numbers F⦄ → (String → Bool) → F → Option ℕ → Option ℕ → Bool → Confidence
assess_confidence ⦃n⦄ has signal days least complete =
    if not (all has low_cap_fields)
    then low
    else graded (not (all has medium_cap_fields) || not complete || too_short days least) signal
