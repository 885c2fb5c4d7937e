-- ===== src/Detection/Scores.antt =====
-- src/detectors/ec2_idle.py and src/core/safeguards.py: how sure a detection may be, and what the
-- safeguards make of one that rests on few datapoints.
use wasteless.Common.{◌≡◌, refl, ℕ, inl, inr, true, false, Bool-cases, ltb}
use wasteless.Python.{Numbers, IsOrdered, Value, float, ok, raised, safeguard, low_confidence}
use wasteless.Safeguards.{protection, check_confidence_score}
use wasteless.Detection.Idle.{Metric, min_of, max_of, capped, confidence_of}

-- The order of the literals of the code.
pub record ReadsDecimals {F : Type 0} (n : Numbers F) : Type 0 where
  pub zero_one : n.le (n.decimal 0 1) (n.decimal 10 1) ≡ true
  pub zero_few : n.le (n.decimal 0 1) (n.decimal 70 2) ≡ true
  pub zero_some : n.le (n.decimal 0 1) (n.decimal 85 2) ≡ true

module _ {F : Type 0} ⦃n : Numbers F⦄ (order : IsOrdered n) (decimals : ReadsDecimals n) where
  -- From zero to one.
  abbrev pub IsScore : F → Type 0
  IsScore x = (n.le (n.decimal 0 1) x ≡ true) × (n.le x (n.decimal 10 1) ≡ true)

  min_of_left : (a b : F) → n.le (min_of a b) a ≡ true
  min_of_left a b = elim (Bool-cases (n.lt b a)) [
    | inl less ↦ rw less (order.lt_le b a less)
    | inr other ↦ rw other (order.le_refl a)
  ]

  min_of_right : (a b : F) → n.le (min_of a b) b ≡ true
  min_of_right a b = elim (Bool-cases (n.lt b a)) [
    | inl less ↦ rw less (order.le_refl b)
    | inr other ↦ rw other (order.not_lt_le b a other)
  ]

  min_of_least : (c a b : F) → n.le c a ≡ true → n.le c b ≡ true → n.le c (min_of a b) ≡ true
  min_of_least c a b h k = elim (Bool-cases (n.lt b a)) [
    | inl less ↦ rw less k
    | inr other ↦ rw other h
  ]

  max_of_left : (a b : F) → n.le a (max_of a b) ≡ true
  max_of_left a b = elim (Bool-cases (n.lt a b)) [
    | inl less ↦ rw less (order.lt_le a b less)
    | inr other ↦ rw other (order.le_refl a)
  ]

  max_of_most : (c a b : F) → n.le a c ≡ true → n.le b c ≡ true → n.le (max_of a b) c ≡ true
  max_of_most c a b h k = elim (Bool-cases (n.lt a b)) [
    | inl less ↦ rw less k
    | inr other ↦ rw other h
  ]

  clipped : (raw : F) → IsScore (max_of (n.decimal 0 1) (min_of (n.decimal 10 1) raw))
  clipped raw = (
    max_of_left (n.decimal 0 1) (min_of (n.decimal 10 1) raw),
    max_of_most (n.decimal 10 1) (n.decimal 0 1) (min_of (n.decimal 10 1) raw) decimals.zero_one
        (min_of_left (n.decimal 10 1) raw),
  )

  min_of-IsScore :
      (x cap : F) → n.le (n.decimal 0 1) cap ≡ true → IsScore x → IsScore (min_of x cap)
  min_of-IsScore x cap h (low, high) = (
    min_of_least (n.decimal 0 1) x cap low h,
    order.le_trans (min_of x cap) x (n.decimal 10 1) (min_of_left x cap) high,
  )

  capped-IsScore : (datapoints days : ℕ) (x : F) → IsScore x → IsScore (capped datapoints days x)
  capped-IsScore datapoints days x h = elim (Bool-cases (ltb datapoints 3)) [
    | inl few ↦ rw few (min_of-IsScore x (n.decimal 70 2) decimals.zero_few h)
    | inr more ↦ elim (Bool-cases (ltb datapoints days)) [
      | inl partial ↦ rw (more, partial) (min_of-IsScore x (n.decimal 85 2) decimals.zero_some h)
      | inr full ↦ rw (more, full) h
    ]
  ]

  -- The confidence of a detection is from zero to one, whatever the average and the threshold, and
  -- with fewer than three datapoints it is at most 0.70. It is assumed that no float is NaN.
  pub confidence_of-IsScore :
      (round : F → F) (threshold : F) (days : ℕ) (m : Metric F)
      → IsScore (confidence_of round threshold days m)
        × (ltb m.datapoints 3 ≡ true
            → n.le (confidence_of round threshold days m) (n.decimal 70 2) ≡ true)
  unfolding confidence_of
  confidence_of-IsScore round threshold days m =
      let raw = round (n.sub (n.decimal 10 1) (n.div m.cpu_avg threshold)) in
      let x = max_of (n.decimal 0 1) (min_of (n.decimal 10 1) raw) in
      (
        capped-IsScore m.datapoints days x (clipped raw),
        λ few. rw few (min_of_right x (n.decimal 70 2)),
      )

  below : (x cap least : F) → n.le x cap ≡ true → n.le least cap ≡ false → n.lt x least ≡ true
  below x cap least h k = elim (Bool-cases (n.lt x least)) [
    | inl less ↦ less
    | inr other ↦ cc (order.le_trans least x cap (order.not_lt_le x least other) h, k)
  ]

  -- A detection that rests on fewer than three datapoints is refused by the safeguards as too
  -- uncertain, for every configuration that asks for more than 0.70, whatever the average and the
  -- threshold. It is assumed that no float is NaN.
  pub check_confidence_score-confidence_of :
      (config : Value F) (least : F) (round : F → F) (threshold : F) (days : ℕ) (m : Metric F)
      → protection config "min_confidence_score" (float (n.decimal 8 1)) ≡ ok least
      → n.le least (n.decimal 70 2) ≡ false
      → ltb m.datapoints 3 ≡ true
      → check_confidence_score config (confidence_of round threshold days m)
        ≡ raised (safeguard low_confidence)
  unfolding check_confidence_score
  check_confidence_score-confidence_of config least round threshold days m asked more few =
      let most = (confidence_of-IsScore round threshold days m).1 few in
      let refused = below (confidence_of round threshold days m) (n.decimal 70 2) least most more in
      rw (asked, refused) refl
