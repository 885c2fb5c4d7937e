-- ===== src/Safeguards/Config.antt =====
-- src/core/safeguards.py, `_validate_config`: what a remediation.yaml must be to be loaded.
use wasteless.Common.{
  String, Bool, true, false, not, ◌&&◌, List, [], ◌∷◌, str_eq, any, if◌then◌else◌,
}
use wasteless.Common.Int.{pos, leb_ℤ}
use wasteless.Python.{
  Numbers, Value, Items, null, bool, int, float, str, list, dict, nil, cons, end, get, contains_key,
  index, or_empty, is_number, as_number, error, type_error, invalid_config, Result, ok, raised,
  ◌>>=◌, ◌>>◌, raise_if,
}

abbrev pub valid_weekdays : List String
valid_weekdays =
    "Monday" ∷ "Tuesday" ∷ "Wednesday" ∷ "Thursday" ∷ "Friday" ∷ "Saturday" ∷ "Sunday" ∷ []

module _ {F : Type 0} ⦃n : Numbers F⦄ where
  abbrev pub protection_bounds : List (String × F × F)
  protection_bounds =
      ("min_instance_age_days", n.of_int (pos 0), n.of_int (pos 3650))
      ∷ ("min_idle_days", n.of_int (pos 0), n.of_int (pos 3650))
      ∷ ("min_confidence_score", n.decimal 0 1, n.decimal 10 1)
      ∷ ("max_instances_per_run", n.of_int (pos 1), n.of_int (pos 10_000))
      ∷ []

  -- One round of the loop over `_PROTECTION_BOUNDS`.
  unfoldable pub check_bound : Value F → String × F × F → Result (Unit {0})
  check_bound section (key, lo, hi) = do
    given ← contains_key section key
    if not given then ok tt else (do
      value ← index section key
      raise_if (not (is_number value)) (error invalid_config)
      x ← as_number value
      raise_if (not (n.le lo x && n.le x hi)) (error invalid_config))

  unfoldable pub check_bounds : Value F → List (String × F × F) → Result (Unit {0})
  unfolding check_bound
  check_bounds section [] = ok tt
  check_bounds section (b ∷ bs) = check_bound section b >> check_bounds section bs

  abbrev has_both : Value F → Result Bool
  has_both (dict fs) = do
    key ← contains_key (dict fs) "key"
    value ← contains_key (dict fs) "value"
    ok (key && value)
  has_both _ = ok false

  -- The loop over the tag rules.
  unfoldable pub check_rules : Items F → Result (Unit {0})
  check_rules nil = ok tt
  check_rules (cons rule rules) = do
    complete ← has_both rule
    raise_if (not complete) (error invalid_config)
    check_rules rules

  -- `d in _VALID_WEEKDAYS`: a list or a dict cannot be looked up in a set
  unfoldable pub is_weekday : Value F → Result Bool
  is_weekday (str s) = ok (any (str_eq s) valid_weekdays)
  is_weekday null = ok false
  is_weekday (bool b) = ok false
  is_weekday (int z) = ok false
  is_weekday (float x) = ok false
  is_weekday (list xs) = raised (error type_error)
  is_weekday (dict fs) = raised (error type_error)

  unfoldable pub all_weekdays : Items F → Result Bool
  unfolding is_weekday
  all_weekdays nil = ok true
  all_weekdays (cons d ds) =
      let rest = all_weekdays ds in is_weekday d >>= λ good. if good then rest else ok false

  unfoldable pub is_hour : Value F → Bool
  is_hour (int h) = leb_ℤ (pos 0) h && leb_ℤ h (pos 23)
  is_hour _ = false

  unfoldable pub all_hours : Items F → Bool
  unfolding is_hour
  all_hours nil = true
  all_hours (cons h hs) = is_hour h && all_hours hs

  -- `if not isinstance(v, list): raise`
  unfoldable pub want_list : Value F → Result (Items F)
  want_list (list xs) = ok xs
  want_list _ = raised (error invalid_config)

  unfoldable pub check_whitelist : Value F → Result (Unit {0})
  unfolding want_list check_rules
  check_whitelist section = do
    instance_ids ← get section "instance_ids" (list nil)
    want_list instance_ids
    tags ← get section "tags" (list nil)
    rules ← want_list tags
    check_rules rules

  unfoldable pub check_calendar : Value F → Result (Unit {0})
  unfolding want_list all_weekdays all_hours
  check_calendar section = do
    allowed_days ← get section "allowed_days" (list nil)
    days ← want_list allowed_days
    known ← all_weekdays days
    raise_if (not known) (error invalid_config)
    allowed_hours ← get section "allowed_hours" (list nil)
    hours ← want_list allowed_hours
    raise_if (not (all_hours hours)) (error invalid_config)

  unfoldable pub validate_config : Value F → Result (Unit {0})
  unfolding check_bounds check_whitelist check_calendar
  validate_config config = do
    protection ← get config "protection" (dict end)
    check_bounds (or_empty protection) protection_bounds
    whitelist ← get config "whitelist" (dict end)
    check_whitelist (or_empty whitelist)
    schedule ← get config "schedule" (dict end)
    check_calendar (or_empty schedule)

  -- `_load_config` on the parsed document: it validates `config or {}` and keeps `config`.
  unfoldable pub load_config : Value F → Result (Value F)
  unfolding validate_config
  load_config config = validate_config (or_empty config) >> ok config
