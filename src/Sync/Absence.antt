-- ===== src/Sync/Absence.antt =====
-- ui/utils/aws_sync.py: what it takes to be reported as vanished.
use wasteless.Common.{
  or-false-left, or-false-right, and-true-left, and-true-right, not-true, suc, ◌≤◌, String, ◌≡◌,
  refl, sym, ap, subst, ◌∙◌, ◌↔◌, inl, inr, Bool, true, false, not, ◌&&◌, ◌||◌, Option, none, some,
  List, [], ◌∷◌, ◌++◌, str_eq, eq_iff, ltb, any, keep, length, All, Bool-cases, Option-cases, arith,
}
use wasteless.Python.{ok, Result-cases}
use wasteless.Sync.{Cloud, Checker, checker_in, checkers, scan, concluded, gone}

abbrev mentions : String → List String → Bool
mentions rid ids = any (str_eq rid) ids

mentions-append :
    (rid : String) (xs ys : List String)
    → mentions rid (xs ++ ys) ≡ (mentions rid xs || mentions rid ys)
mentions-append rid [] ys = refl
mentions-append rid (x ∷ xs) ys = elim (Bool-cases (str_eq rid x)) [
  | inl hit ↦ rw hit refl
  | inr miss ↦ rw miss (mentions-append rid xs ys)
]

mentions-keep :
    (rid : String) (existing ids : List String)
    → mentions rid (keep (λ x. not (mentions x existing)) ids)
      ≡ (mentions rid ids && not (mentions rid existing))
mentions-keep rid existing [] = refl
mentions-keep rid existing (x ∷ ids) = elim (Bool-cases (str_eq rid x)) [
  | inl hit ↦ ground (arith, eq_iff rid x, mentions-keep rid existing ids)
  | inr miss ↦ ground (arith, mentions-keep rid existing ids)
]

-- The checker answered in each region, and nowhere with the identifier.
abbrev pub IsAbsent : Checker → List String → String → List String → Type 0
IsAbsent check ids rid regions =
    All
      (λ region.
        (found : List String) × (check region ids ≡ ok found) × (any (str_eq rid) found ≡ false))
      regions

module _ (c : Cloud) (check : Checker) (ids : List String) where
  scan-le : (regions : List String) → (scan c check ids regions).1 ≤ length regions
  unfolding scan
  scan-le [] = omega arith
  scan-le (region ∷ regions) = elim (Result-cases (check region ids)) [
    | inl (found, e) ↦ rw e (omega (arith, scan-le regions))
    | inr (x, e) ↦ rw e (omega (arith, scan-le regions))
  ]

  scan-IsAbsent :
      (rid : String) (regions : List String)
      → length regions ≤ (scan c check ids regions).1
      → mentions rid (scan c check ids regions).0 ≡ false
      → IsAbsent check ids rid regions
  unfolding scan
  scan-IsAbsent rid [] answered missing = tt
  scan-IsAbsent rid (region ∷ regions) answered missing = elim (Result-cases (check region ids)) [
    | inl (found, e) ↦
        let few = rw e at answered in
        let none_of = sym (mentions-append rid found _) ∙ (rw e at missing) in
        (
          (found, e, or-false-left _ _ none_of),
          scan-IsAbsent rid regions (omega arith) (or-false-right _ _ none_of),
        )
    | inr (x, e) ↦ let few = rw e at answered in absurd (omega (arith, scan-le regions))
  ]

  scan_absent :
      (rid : String) (regions : List String)
      → IsAbsent check ids rid regions
      → ((scan c check ids regions).1 ≡ length regions)
        × (mentions rid (scan c check ids regions).0 ≡ false)
  unfolding scan
  scan_absent rid [] absent = (refl, refl)
  scan_absent rid (region ∷ regions) ((found, e, missing), absent) =
      let ih = scan_absent rid regions absent in
      rw e (ap suc ih.0, mentions-append rid found _ ∙ rw (missing, ih.1) refl)

abbrev Carries : Option Checker → List String → String → List String → Type 0
Carries none ids rid regions = Unit {0}
Carries (some check) ids rid regions = IsAbsent check ids rid regions

concluded_iff :
    (c : Cloud) (check : Checker) (ids : List String) (rid : String)
    → (mentions rid (concluded c ids (scan c check ids c.regions)) ≡ true)
      ↔ ((mentions rid ids ≡ true) × IsAbsent check ids rid c.regions)
concluded_iff c check ids rid = (
  λ h. elim (Bool-cases (ltb (scan c check ids c.regions).1 (length c.regions))) [
    | inl few ↦ cc (rw few at h)
    | inr answered ↦
        let kept = sym (mentions-keep rid _ ids) ∙ (rw answered at h) in
        (
          and-true-left _ _ kept,
          scan-IsAbsent c check ids rid c.regions (ground arith)
              (not-true _ (and-true-right _ _ kept)),
        )
  ],
  λ h.
      let found = scan_absent c check ids rid c.regions h.1 in
      let enough : ltb (scan c check ids c.regions).1 (length c.regions) ≡ false = ground arith in
      rw (enough, mentions-keep rid (scan c check ids c.regions).0 ids, h.0, found.1) refl,
)

-- An identifier is reported as vanished exactly when it was asked for, its type is one that the
-- synchronisation knows, and every region answered without it: a region that fails, or an unknown
-- type, leaves all identifiers of the type alone.
pub gone_iff :
    (c : Cloud) (kind : String) (ids : List String) (rid : String)
    → (any (str_eq rid) (gone c kind ids) ≡ true) ↔ (
        (any (str_eq rid) ids ≡ true)
        × ((check : Checker) × (checker_in (checkers c) kind ≡ some check)
            × IsAbsent check ids rid c.regions))
unfolding gone
gone_iff c kind [] rid = (λ h. cc, λ h. h.0)
gone_iff c kind (i ∷ ids) rid = elim (Option-cases (checker_in (checkers c) kind)) [
  | inl e ↦ rw (e, gone) (λ h. cc, λ h. cc (h.1.1))
  | inr (check, e) ↦
      rw (e, gone)
        (
          λ h. let out = (concluded_iff c check (i ∷ ids) rid).0 h in (out.0, (check, refl, out.1)),
          λ h.
              (concluded_iff c check (i ∷ ids) rid).1
                (h.0, subst (λ o. Carries o (i ∷ ids) rid c.regions) (sym h.1.1) h.1.2),
        )
]
