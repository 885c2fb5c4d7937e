-- ===== src/Detection/Idle.antt =====
-- src/detectors/ec2_idle.py: which instances count as idle, and how sure that is.
use wasteless.Common.{
  ℕ, String, true, false, ◌||◌, Option, none, some, List, [], ◌∷◌, map, str_eq, ◌==◌, ltb, first,
  if◌then◌else◌,
}
use wasteless.Common.Int.{ℤ, pos, leb_ℤ, ltb_ℤ}
use wasteless.Python.{
  Numbers, Result, ok, raised, raise_if, error, database, invalid_config, ◌>>=◌, ◌>>◌,
}
use wasteless.Detection.{Detected, Tables, Item}
use wasteless.Detection.Saving.{Detector, Faults, save, committed, count_one, upsert_recommendation}

-- A row that the query over ec2_metrics answers.
pub record Metric (F : Type 0) : Type 0 where
  pub instance_id : String
  pub instance_type : Option String
  pub cpu_avg : F
  pub datapoints : ℕ

unfoldable pub validate_days : ℤ → Result (Unit {0})
validate_days days = do
  raise_if (leb_ℤ days (pos 0)) (error invalid_config)
  raise_if (ltb_ℤ (pos 365) days) (error invalid_config)

module _ {F : Type 0} ⦃n : Numbers F⦄ where
  -- EC2_PRICING
  abbrev pub ec2_pricing : List (String × F)
  ec2_pricing =
      ("t2.nano", n.decimal 517 2)
      ∷ ("t2.micro", n.decimal 1_033 2)
      ∷ ("t2.small", n.decimal 2_065 2)
      ∷ ("t2.medium", n.decimal 4_130 2)
      ∷ ("t3.nano", n.decimal 387 2)
      ∷ ("t3.micro", n.decimal 773 2)
      ∷ ("t3.small", n.decimal 1_546 2)
      ∷ ("t3.medium", n.decimal 3_091 2)
      ∷ ("t3.large", n.decimal 6_183 2)
      ∷ ("t3.xlarge", n.decimal 12_365 2)
      ∷ ("t3.2xlarge", n.decimal 24_730 2)
      ∷ ("t3a.nano", n.decimal 372 2)
      ∷ ("t3a.micro", n.decimal 745 2)
      ∷ ("t3a.small", n.decimal 1_489 2)
      ∷ ("t3a.medium", n.decimal 2_978 2)
      ∷ ("t3a.large", n.decimal 5_957 2)
      ∷ ("t4g.nano", n.decimal 336 2)
      ∷ ("t4g.micro", n.decimal 672 2)
      ∷ ("t4g.small", n.decimal 1_343 2)
      ∷ ("t4g.medium", n.decimal 2_686 2)
      ∷ ("t4g.large", n.decimal 5_373 2)
      ∷ ("t4g.xlarge", n.decimal 10_746 2)
      ∷ ("t4g.2xlarge", n.decimal 21_491 2)
      ∷ ("m5.large", n.decimal 10_435 2)
      ∷ ("m5.xlarge", n.decimal 20_870 2)
      ∷ ("m5.2xlarge", n.decimal 41_739 2)
      ∷ ("m5.4xlarge", n.decimal 83_478 2)
      ∷ ("c5.large", n.decimal 9_239 2)
      ∷ ("c5.xlarge", n.decimal 18_478 2)
      ∷ ("c5.2xlarge", n.decimal 36_957 2)
      ∷ ("r5.large", n.decimal 13_696 2)
      ∷ ("r5.xlarge", n.decimal 27_391 2)
      ∷ ("r5.2xlarge", n.decimal 54_783 2)
      ∷ []

  abbrev pub default_instance_cost : F
  default_instance_cost = n.decimal 5_435 2

  abbrev pub price_in : List (String × F) → String → F
  price_in [] name = default_instance_cost
  price_in ((type, price) ∷ prices) name = if str_eq type name then price else price_in prices name

  unfoldable pub get_instance_monthly_cost : Option String → F
  get_instance_monthly_cost none = default_instance_cost
  get_instance_monthly_cost (some name) =
      if str_eq name "" then default_instance_cost else price_in ec2_pricing name

  -- Python's `min(a, b)` and `max(a, b)`
  abbrev pub min_of : F → F → F
  min_of a b = if n.lt b a then b else a

  abbrev pub max_of : F → F → F
  max_of a b = if n.lt a b then b else a

  unfoldable pub validate_cpu_threshold : F → Result (Unit {0})
  validate_cpu_threshold threshold =
      raise_if (n.le threshold (n.decimal 0 1) || n.lt (n.of_int (pos 100)) threshold)
        (error invalid_config)

  -- The cap on the confidence while the window is not full.
  abbrev pub capped : ℕ → ℕ → F → F
  capped datapoints days confidence =
      if ltb datapoints 3
      then min_of confidence (n.decimal 70 2)
      else if ltb datapoints days
      then min_of confidence (n.decimal 85 2)
      else confidence

  module _ (round : F → F) where
    -- `round` is `round(x, 2)`.
    unfoldable pub confidence_of : F → ℕ → Metric F → F
    confidence_of threshold days m =
        let raw = round (n.sub (n.decimal 10 1) (n.div m.cpu_avg threshold)) in
        capped m.datapoints days (max_of (n.decimal 0 1) (min_of (n.decimal 10 1) raw))

    unfoldable pub monthly_waste : Metric F → F
    monthly_waste m =
        let ratio = n.sub (n.decimal 10 1) (n.div m.cpu_avg (n.decimal 1_000 1)) in
        round (n.mul (get_instance_monthly_cost m.instance_type) ratio)

    abbrev pub item_of : F → ℕ → Metric F → Item F
    item_of threshold days m = record {
      resource_id = m.instance_id;
      monthly_cost = monthly_waste m;
      confidence = confidence_of threshold days m;
    }

    -- `answered` is what the query answers for the threshold and the days.
    unfoldable pub detect_idle_instances : F → ℕ → Result (List (Metric F)) → Result (List (Item F))
    detect_idle_instances threshold days answered = do
      validate_cpu_threshold threshold
      validate_days (pos days)
      metrics ← answered
      ok (map (item_of threshold days) metrics)

  -- The type of the recommendation.
  unfoldable pub recommendation_type_for : F → String
  recommendation_type_for confidence =
      if n.le (n.decimal 90 2) confidence
      then "stop_instance"
      else if n.le (n.decimal 60 2) confidence
      then "stop_instance"
      else "downsize_instance"

  -- How this detector saves and recommends.
  abbrev pub ec2_idle : Detector F
  ec2_idle = record {
    resource_type = "ec2_instance";
    waste_type = "idle_compute";
    refreshes_type = false;
    revives = true;
    recommendation_type = recommendation_type_for;
  }

  -- The row as the loop reads it.
  abbrev pub item_at : Detected F → Item F
  item_at w = record {
    resource_id = w.resource_id;
    monthly_cost = w.monthly_waste;
    confidence = w.confidence_score;
  }

  module _ (faults : Faults) where
    abbrev pub recommend_one :
        Option (Detected F)
        → ℕ
        → (Tables F → Result (ℕ × Tables F))
        → Tables F
        → Result (ℕ × Tables F)
    recommend_one none id next t = next t
    recommend_one (some w) id next t =
        if faults.insert_fails w.resource_id
        then raised (error (database "insert"))
        else count_one ec2_idle faults (
            next (record t {
              recommendations = upsert_recommendation ec2_idle id (item_at w) t.recommendations;
            }))

    -- The loop of `generate_recommendations`; an id with no row is passed over.
    unfoldable pub generate_each : List ℕ → Tables F → Result (ℕ × Tables F)
    generate_each [] t = ok (0, t)
    generate_each (id ∷ ids) t =
        recommend_one (first (λ w. w.id == id) t.wastes) id (generate_each ids) t

    unfoldable pub generate_recommendations : List ℕ → Tables F → Result ℕ × Tables F
    generate_recommendations [] t = (ok 0, t)
    generate_recommendations (id ∷ ids) t = committed ec2_idle faults t (generate_each (id ∷ ids) t)

    abbrev pub generated : Result (List ℕ) × Tables F → Result ℕ × Tables F
    generated (raised e, t) = (raised e, t)
    generated (ok ids, t) = generate_recommendations ids t

  module _ (saving recommending : Faults) where
    abbrev pub saved_and_generated : ℕ → Tables F → Result (List (Item F)) → Result ℕ × Tables F
    saved_and_generated today t (raised e) = (raised e, t)
    saved_and_generated today t (ok []) = (ok 0, t)
    saved_and_generated today t (ok (item ∷ items)) =
        generated recommending (save ec2_idle saving today (item ∷ items) t)

    -- `run`, but for what it prints, the snapshot and the insights. `save_to_database` and
    -- `generate_recommendations` fail each on their own.
    unfoldable pub run_idle :
        (F → F) → F → ℕ → Result (List (Metric F)) → ℕ → Tables F → Result ℕ × Tables F
    run_idle round threshold days answered today t =
        saved_and_generated today t (detect_idle_instances round threshold days answered)
