-- ===== src/Safeguards.antt =====
-- src/core/safeguards.py: the checks that stand between a recommendation and an AWS call.
--
-- `Value` is the parsed remediation.yaml. The clock is a value: `now` in microseconds, and the day
-- name and hour of local time. A SafeguardException is modelled by the check that raises it; the
-- numbers in its message are left out, and so is the log output.

pub mod Config
pub mod Checks
pub mod Loaded
pub mod Totality
mod Tests
use Prim.Native.Nat.{◌/◌}
use wasteless.Common.{
  ℕ, ◌-◌, String, Bool, true, false, not, ◌||◌, ◌&&◌, Option, none, some, List, [], ◌∷◌, ◌++◌,
  str_eq, leb, if◌then◌else◌,
}
use wasteless.Common.Int.{ℤ, pos, negsuc}
use wasteless.Python.{
  Numbers, Value, Items, Fields, null, bool, int, float, str, list, dict, nil, cons, end, get,
  truthy, as_number, any_item, equals_str, equals_int, find_field, is_list, Exn, safeguard, error,
  Refusal, auto_disabled, whitelisted, too_young, low_confidence, not_idle, outside_days,
  outside_hours, max_instances, type_error, Result, ok, raised, ◌>>=◌, ◌>>◌, raise_if,
}

-- What `datetime.now()` answers.
pub record Clock : Type 0 where
  pub now : ℕ
  pub day : String
  pub hour : ℕ

abbrev day_length : ℕ
day_length = 86_400_000_000

-- `(later - earlier).days`, which rounds down
unfoldable pub days_between : ℕ → ℕ → ℤ
days_between earlier later =
    if leb earlier later
    then pos ((later - earlier) / day_length)
    else negsuc ((earlier - later - 1) / day_length)

-- An instance's tags, newest binding first.
abbrev pub Tags : Type 0
Tags = List (String × String)

abbrev pub tag : String → Tags → Option String
tag k [] = none
tag k ((j, v) ∷ ts) = if str_eq j k then some v else tag k ts

pub data Check : Type 0 where
  global_enabled whitelist instance_age confidence idle_duration schedule instance_limit : Check

-- The dict that `validate_all` returns.
pub record Report : Type 0 where
  pub checks_passed : List Check
  pub checks_failed : List Check
  pub safe_to_proceed : Bool
  pub reason : Option Refusal

-- The arguments of `validate_all`.
pub record Request (F : Type 0) : Type 0 where
  pub instance_id : String
  pub instance_tags : Tags
  pub launch_time : ℕ
  pub score : F
  pub idle_days : ℤ
  pub current_count : ℕ

module _ {F : Type 0} ⦃n : Numbers F⦄ where
  unfoldable pub is_auto_remediation_enabled : Value F → Result Bool
  is_auto_remediation_enabled config = do
    auto ← get config "auto_remediation" (dict end)
    enabled ← get auto "enabled" (bool false)
    ok (truthy enabled)

  -- `actions.get(action_type, True)`
  unfoldable pub is_action_enabled : Value F → String → Result Bool
  is_action_enabled config action_type = do
    auto ← get config "auto_remediation" (dict end)
    actions ← get auto "actions" (dict end)
    enabled ← get actions action_type (bool true)
    ok (truthy enabled)

  -- `instance_tags.get(key)`: a list or a dict cannot be a key
  unfoldable pub get_tag : Tags → Value F → Result (Option String)
  get_tag tags (str k) = ok (tag k tags)
  get_tag tags null = ok none
  get_tag tags (bool b) = ok none
  get_tag tags (int z) = ok none
  get_tag tags (float x) = ok none
  get_tag tags (list xs) = raised (error type_error)
  get_tag tags (dict fs) = raised (error type_error)

  -- `found == value`
  unfoldable pub same_tag : Option String → Value F → Bool
  same_tag none null = true
  same_tag none _ = false
  same_tag (some s) v = equals_str s v

  unfoldable pub rule_matches : Tags → Value F → Result Bool
  unfolding get_tag same_tag
  rule_matches tags rule = do
    key ← get rule "key" null
    value ← get rule "value" null
    found ← get_tag tags key
    ok (same_tag found value)

  -- The loop over the tag rules; the first match returns.
  unfoldable pub any_rule : Tags → Items F → Result Bool
  unfolding rule_matches
  any_rule tags nil = ok false
  any_rule tags (cons rule rules) =
      let rest = any_rule tags rules in
      rule_matches tags rule >>= λ hit. if hit then ok true else rest

  -- `x in v` and `for x in v` want a list; a str or a dict would be walked by other rules, and the
  -- loader has refused those.
  unfoldable pub items_of : Value F → Result (Items F)
  items_of (list xs) = ok xs
  items_of null = raised (error type_error)
  items_of (bool b) = raised (error type_error)
  items_of (int z) = raised (error type_error)
  items_of (float x) = raised (error type_error)
  items_of (str s) = raised (error type_error)
  items_of (dict fs) = raised (error type_error)

  unfoldable pub is_whitelisted : Value F → String → Tags → Result Bool
  unfolding any_rule items_of
  is_whitelisted config instance_id instance_tags = do
    section ← get config "whitelist" (dict end)
    ids ← get section "instance_ids" (list nil)
    known ← items_of ids
    rules ← get section "tags" (list nil)
    if any_item (equals_str instance_id) known
        then ok true
        else (items_of rules >>= any_rule instance_tags)

  -- `self.config.get("protection", {}).get(key, default)`, as the number that it is compared as
  unfoldable pub protection : Value F → String → Value F → Result F
  protection config key default = do
    section ← get config "protection" (dict end)
    value ← get section key default
    as_number value

  unfoldable pub check_instance_age : Value F → Clock → ℕ → Result (Unit {0})
  check_instance_age config clock launch_time = do
    min_age_days ← protection config "min_instance_age_days" (int (pos 30))
    raise_if (n.lt (n.of_int (days_between launch_time clock.now)) min_age_days)
        (safeguard too_young)

  unfoldable pub check_confidence_score : Value F → F → Result (Unit {0})
  check_confidence_score config score = do
    min_confidence ← protection config "min_confidence_score" (float (n.decimal 8 1))
    raise_if (n.lt score min_confidence) (safeguard low_confidence)

  unfoldable pub check_idle_duration : Value F → ℤ → Result (Unit {0})
  check_idle_duration config idle_days = do
    min_idle_days ← protection config "min_idle_days" (int (pos 14))
    raise_if (n.lt (n.of_int idle_days) min_idle_days) (safeguard not_idle)

  abbrev is_cons : Items F → Bool
  is_cons nil = false
  is_cons (cons v vs) = true

  -- A list that is not empty and lacks the present moment.
  abbrev pub excludes : (Value F → Bool) → Items F → Bool
  excludes is_now xs = is_cons xs && not (any_item is_now xs)

  -- `check_schedule` with the restriction enabled.
  unfoldable pub check_window : Value F → Clock → Result (Unit {0})
  unfolding items_of
  check_window section clock = do
    allowed_days ← get section "allowed_days" (list nil)
    allowed_hours ← get section "allowed_hours" (list nil)
    days ← items_of allowed_days
    raise_if (excludes (equals_str clock.day) days) (safeguard outside_days)
    hours ← items_of allowed_hours
    raise_if (excludes (equals_int (pos clock.hour)) hours) (safeguard outside_hours)

  unfoldable pub check_schedule : Value F → Clock → Result (Unit {0})
  unfolding check_window
  check_schedule config clock = do
    section ← get config "schedule" (dict end)
    enabled ← get section "enabled" (bool false)
    if not (truthy enabled) then ok tt else check_window section clock

  unfoldable pub check_max_instances_limit : Value F → ℕ → Result (Unit {0})
  check_max_instances_limit config current_count = do
    max_per_run ← protection config "max_instances_per_run" (int (pos 3))
    raise_if (n.le max_per_run (n.of_int (pos current_count))) (safeguard max_instances)

abbrev pub start : Report
start = record { checks_passed = []; checks_failed = []; safe_to_proceed = false; reason = none }

-- An early `return results` of `validate_all`.
abbrev stopped : Check → Refusal → Report → Report
stopped check why r = record r { checks_failed = r.checks_failed ++ check ∷ []; reason = some why }

abbrev passed : Check → Report → Report
passed check r = record r { checks_passed = r.checks_passed ++ check ∷ [] }

-- The checks in a row inside the `try`; a SafeguardException ends them, another goes on up.
unfoldable pub run_checks : List (Check × Result (Unit {0})) → Report → Result Report
run_checks [] r = ok (record r { safe_to_proceed = true })
run_checks ((check, ok _) ∷ cs) r = run_checks cs (passed check r)
run_checks ((check, raised (safeguard why)) ∷ cs) r = ok (record r { reason = some why })
run_checks ((check, raised (error f)) ∷ cs) r = raised (error f)

module _ {F : Type 0} ⦃n : Numbers F⦄ where
  -- Checks 3 to 7.
  abbrev pub later_checks : Value F → Clock → Request F → List (Check × Result (Unit {0}))
  later_checks config clock q =
      (instance_age, check_instance_age config clock q.launch_time)
      ∷ (confidence, check_confidence_score config q.score)
      ∷ (idle_duration, check_idle_duration config q.idle_days)
      ∷ (schedule, check_schedule config clock)
      ∷ (instance_limit, check_max_instances_limit config q.current_count)
      ∷ []

  unfoldable pub validate_all : Value F → Clock → Request F → Result Report
  unfolding run_checks
  validate_all config clock q = do
    enabled ← is_auto_remediation_enabled config
    if not enabled then ok (stopped global_enabled auto_disabled start) else (do
      listed ← is_whitelisted config q.instance_id q.instance_tags
      if listed
          then ok (stopped whitelist whitelisted start)
          else run_checks (later_checks config clock q) (passed whitelist start))
