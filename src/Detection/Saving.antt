-- ===== src/Detection/Saving.antt =====
-- src/detectors/steampipe_base.py, `save` and `recommend`, and the same two of ec2_idle.py.
use wasteless.Common.{
  ℕ, suc, String, Bool, true, false, not, ◌&&◌, ◌||◌, Option, none, some, List, [], ◌∷◌, str_eq,
  ◌==◌, first, update_where, if◌then◌else◌,
}
use wasteless.Python.{Numbers, Result, ok, raised, error, database}
use wasteless.Store.{Status, pending, obsolete}
use wasteless.Detection.{Detected, Advice, Tables, Item}

-- The class attributes of a detector. The one of ec2_idle.py refreshes no waste_type, and its
-- recommendations that are obsolete come back.
pub record Detector (F : Type 0) : Type 0 where
  pub resource_type : String
  pub waste_type : String
  pub refreshes_type : Bool
  pub revives : Bool
  -- `recommendation_type`, which ec2_idle.py chooses by the confidence
  pub recommendation_type : F → String

-- Which statements of one loop fail: of a round, by its resource, and the commit.
pub record Faults : Type 0 where
  pub insert_fails : String → Bool
  pub commit_fails : Bool

module _ {F : Type 0} (d : Detector F) where
  -- The row has the key of UNIQUE (resource_id, resource_type).
  abbrev pub has_key : String → Detected F → Bool
  has_key resource_id w = str_eq w.resource_id resource_id && str_eq w.resource_type d.resource_type

  -- ON CONFLICT … DO UPDATE
  abbrev pub refreshed : ℕ → Item F → Detected F → Detected F
  refreshed today item w = record w {
    detection_date = today;
    waste_type = if d.refreshes_type then d.waste_type else w.waste_type;
    monthly_waste = item.monthly_cost;
    confidence_score = item.confidence;
  }

  abbrev pub inserted : ℕ → Item F → ℕ → Detected F
  inserted today item id = record {
    id = id;
    detection_date = today;
    resource_id = item.resource_id;
    resource_type = d.resource_type;
    waste_type = d.waste_type;
    monthly_waste = item.monthly_cost;
    confidence_score = item.confidence;
  }

  abbrev pub add_waste : ℕ → Item F → Tables F → ℕ × Tables F
  add_waste today item t = (
    t.next_id,
    record t { wastes = inserted today item t.next_id ∷ t.wastes; next_id = suc t.next_id },
  )

  abbrev pub update_waste : ℕ → Item F → Detected F → Tables F → ℕ × Tables F
  update_waste today item w t = (
    w.id,
    record t { wastes = update_where (has_key item.resource_id) (refreshed today item) t.wastes },
  )

  abbrev pub on_conflict : ℕ → Item F → Option (Detected F) → Tables F → ℕ × Tables F
  on_conflict today item none t = add_waste today item t
  on_conflict today item (some w) t = update_waste today item w t

  -- `INSERT INTO waste_detected … ON CONFLICT … RETURNING id`
  unfoldable pub upsert_waste : ℕ → Item F → Tables F → ℕ × Tables F
  upsert_waste today item t = on_conflict today item (first (has_key item.resource_id) t.wastes) t

  module _ (faults : Faults) where
    abbrev pub keep_id : ℕ → Result (List ℕ × Tables F) → Result (List ℕ × Tables F)
    keep_id id (raised e) = raised e
    keep_id id (ok (ids, t)) = ok (id ∷ ids, t)

    -- The loop of `save`.
    unfoldable pub save_each : ℕ → List (Item F) → Tables F → Result (List ℕ × Tables F)
    save_each today [] t = ok ([], t)
    save_each today (item ∷ items) t =
        let (id, t') = upsert_waste today item t in
        let rest = save_each today items t' in
        if faults.insert_fails item.resource_id
        then raised (error (database "insert"))
        else keep_id id rest

    -- The commit, or the rollback, with the tables behind it.
    abbrev pub committed : {A : Type 0} → Tables F → Result (A × Tables F) → Result A × Tables F
    committed before (raised e) = (raised e, before)
    committed before (ok (a, t)) =
        if faults.commit_fails then (raised (error (database "commit")), before) else (ok a, t)

    unfoldable pub save : ℕ → List (Item F) → Tables F → Result (List ℕ) × Tables F
    save today [] t = (ok [], t)
    save today (item ∷ items) t = committed t (save_each today (item ∷ items) t)

abbrev pub is_obsolete : Status → Bool
is_obsolete obsolete = true
is_obsolete _ = false

abbrev pub is_pending : Status → Bool
is_pending pending = true
is_pending _ = false

-- WHERE recommendations.status = 'pending', or IN ('pending', 'obsolete')
abbrev pub is_open : {F : Type 0} → Detector F → Status → Bool
is_open d status = is_pending status || (d.revives && is_obsolete status)

abbrev pub is_for : {F : Type 0} → ℕ → Advice F → Bool
is_for waste_id r = r.waste_id == waste_id

module _ {F : Type 0} ⦃n : Numbers F⦄ (d : Detector F) where
  -- `abs(old - new) > GREATEST(old * 0.10, 0.50)`
  abbrev pub drifts : F → F → Bool
  drifts old new =
      let tenth = n.mul old (n.decimal 10 2) in
      let most = if n.lt tenth (n.decimal 50 2) then n.decimal 50 2 else tenth in
      n.lt most (n.absolute (n.sub old new))

  -- The CASE of the insight: whether it goes.
  abbrev pub is_stale : Item F → Advice F → Bool
  is_stale item r =
      drifts r.monthly_savings item.monthly_cost
      || (d.revives
          && (is_obsolete r.status
              || not (str_eq r.recommendation_type (d.recommendation_type item.confidence))))

  abbrev pub resynced : Item F → Advice F → Advice F
  resynced item r = record r {
    monthly_savings = item.monthly_cost;
    recommendation_type =
        if d.revives then d.recommendation_type item.confidence else r.recommendation_type;
    status = if d.revives then pending else r.status;
    ai_insight = if is_stale item r then none else r.ai_insight;
  }

  abbrev pub proposed : ℕ → Item F → Advice F
  proposed waste_id item = record {
    waste_id = waste_id;
    recommendation_type = d.recommendation_type item.confidence;
    monthly_savings = item.monthly_cost;
    status = pending;
    ai_insight = none;
  }

  abbrev pub on_known : ℕ → Item F → Option (Advice F) → List (Advice F) → List (Advice F)
  on_known waste_id item none rs = proposed waste_id item ∷ rs
  on_known waste_id item (some _) rs =
      update_where (λ r. is_for waste_id r && is_open d r.status) (resynced item) rs

  -- `INSERT INTO recommendations … ON CONFLICT (waste_id) DO UPDATE … WHERE`
  unfoldable pub upsert_recommendation : ℕ → Item F → List (Advice F) → List (Advice F)
  upsert_recommendation waste_id item rs = on_known waste_id item (first (is_for waste_id) rs) rs

  module _ (faults : Faults) where
    abbrev pub count_one : Result (ℕ × Tables F) → Result (ℕ × Tables F)
    count_one (raised e) = raised e
    count_one (ok (count, t)) = ok (suc count, t)

    -- The loop of `recommend` over the ids and the items.
    unfoldable pub recommend_each : List ℕ → List (Item F) → Tables F → Result (ℕ × Tables F)
    recommend_each [] items t = ok (0, t)
    recommend_each (id ∷ ids) [] t = ok (0, t)
    recommend_each (id ∷ ids) (item ∷ items) t =
        let rest =
          recommend_each ids items
            (record t { recommendations = upsert_recommendation id item t.recommendations }) in
        if faults.insert_fails item.resource_id
        then raised (error (database "insert"))
        else count_one rest

    unfoldable pub recommend : List ℕ → List (Item F) → Tables F → Result ℕ × Tables F
    recommend [] items t = (ok 0, t)
    recommend (id ∷ ids) items t = committed d faults t (recommend_each (id ∷ ids) items t)

    abbrev pub recommended : List (Item F) → Result (List ℕ) × Tables F → Result ℕ × Tables F
    recommended items (raised e, t) = (raised e, t)
    recommended items (ok ids, t) = recommend ids items t

  -- `run`, but for what it prints, the snapshot and the insights. The statements and the commit of
  -- `save` and those of `recommend` fail each on their own.
  unfoldable pub run : Faults → Faults → ℕ → List (Item F) → Tables F → Result ℕ × Tables F
  run saving recommending today [] t = (ok 0, t)
  run saving recommending today (item ∷ items) t =
      recommended recommending (item ∷ items) (save d saving today (item ∷ items) t)
