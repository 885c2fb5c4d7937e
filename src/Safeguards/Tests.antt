-- ===== src/Safeguards/Tests.antt =====
-- The checks of src/core/safeguards.py on one configuration, with floats as hundredths.
use wasteless.Common.{◌≡◌, ◌↔◌, refl, true, false, [], ◌∷◌, none, some}
use wasteless.Common.Int.{ℤ, pos}
use wasteless.Python.{
  Value, Fields, Items, null, bool, int, float, str, list, dict, nil, cons, end, field, error,
  attribute_error, low_confidence, raised, ok,
}
use wasteless.Python.Hundredths.{hundredths}
use wasteless.Safeguards.{
  Clock, Request, Report, Check, validate_all, is_auto_remediation_enabled, is_whitelisted,
  check_instance_age, protection, days_between, check_confidence_score, check_idle_duration,
  check_schedule, check_max_instances_limit,
}
use wasteless.Safeguards.Config.{validate_config, load_config}
use wasteless.Safeguards.Checks.{IsPermitted, validate_all_iff}
use wasteless.Safeguards.Totality.{IsLoaded, validate_all_total, validate_all_null_section}

abbrev auto_fields : Fields ℤ
auto_fields = field "enabled" (bool true) end

abbrev protection_fields : Fields ℤ
protection_fields =
    field "min_instance_age_days" (int (pos 30))
      (field "min_idle_days" (int (pos 7)) (field "min_confidence_score" (float (pos 80)) end))

abbrev rule_list : Items ℤ
rule_list = cons (dict (field "key" (str "env") (field "value" (str "prod") end))) nil

abbrev whitelist_fields : Fields ℤ
whitelist_fields =
    field "instance_ids" (list (cons (str "i-keep") nil)) (field "tags" (list rule_list) end)

abbrev schedule_fields : Fields ℤ
schedule_fields = field "enabled" (bool true) (
    field "allowed_days" (list (cons (str "Monday") nil))
      (field "allowed_hours" (list (cons (int (pos 9)) nil)) end))

abbrev config : Value ℤ
config = dict (
    field "auto_remediation" (dict auto_fields) (
      field "protection" (dict protection_fields)
        (field "whitelist" (dict whitelist_fields) (field "schedule" (dict schedule_fields) end))))

abbrev other_sections : Fields ℤ
other_sections = field "auto_remediation" (dict auto_fields) end

abbrev empty_section : Value ℤ
empty_section = dict (field "protection" null other_sections)

abbrev monday : Clock
monday = record { now = 4_320_000_000_000; day = "Monday"; hour = 9 }

abbrev idle_box : Request ℤ
idle_box = record {
  instance_id = "i-idle";
  instance_tags = ("env", "dev") ∷ [];
  launch_time = 0;
  score = pos 95;
  idle_days = pos 20;
  current_count = 0;
}

abbrev all_passed : Report
all_passed = record {
  checks_passed =
      Check.whitelist ∷ Check.instance_age ∷ Check.confidence ∷ Check.idle_duration ∷ Check.schedule
      ∷ Check.instance_limit ∷ [];
  checks_failed = [];
  safe_to_proceed = true;
  reason = none;
}

idle_box_passes : validate_all config monday idle_box ≡ ok all_passed
unfolding validate_all is_auto_remediation_enabled is_whitelisted check_instance_age protection
    days_between check_confidence_score check_idle_duration check_schedule check_max_instances_limit
idle_box_passes = refl

unsure_box_fails :
    validate_all config monday (record idle_box { score = pos 79 })
    ≡ ok (record {
      checks_passed = Check.whitelist ∷ Check.instance_age ∷ [];
      checks_failed = [];
      safe_to_proceed = false;
      reason = some low_confidence;
    })
unfolding validate_all is_auto_remediation_enabled is_whitelisted check_instance_age protection
    days_between check_confidence_score
unsure_box_fails = refl

config_validated : validate_config config ≡ ok tt
unfolding validate_config
config_validated = refl

config-IsLoaded : IsLoaded config
config-IsLoaded = record {
  p = protection_fields;
  w = whitelist_fields;
  s = schedule_fields;
  a = auto_fields;
  rules = rule_list;
  protection_section = refl;
  whitelist_section = refl;
  schedule_section = refl;
  auto_section = refl;
  rules_given = refl;
  plain = (refl, tt);
  validated = config_validated;
}

empty_section_on : is_auto_remediation_enabled empty_section ≡ ok true
unfolding is_auto_remediation_enabled
empty_section_on = refl

idle_box_free : is_whitelisted empty_section "i-idle" (("env", "dev") ∷ []) ≡ ok false
unfolding is_whitelisted
idle_box_free = refl

validate_all_iff_example : (all_passed.safe_to_proceed ≡ true) ↔ IsPermitted config monday idle_box
validate_all_iff_example = validate_all_iff config monday idle_box idle_box_passes

validate_all_total_example : (out : Report) × (validate_all config monday idle_box ≡ ok out)
validate_all_total_example = validate_all_total config config-IsLoaded monday idle_box

no_protection_validated :
    validate_config (dict (field "protection" (dict end) other_sections)) ≡ ok tt
unfolding validate_config
no_protection_validated = refl

no_protection-IsLoaded : IsLoaded (dict (field "protection" (dict end) other_sections))
no_protection-IsLoaded = record {
  p = end;
  w = end;
  s = end;
  a = auto_fields;
  rules = nil;
  protection_section = refl;
  whitelist_section = refl;
  schedule_section = refl;
  auto_section = refl;
  rules_given = refl;
  plain = tt;
  validated = no_protection_validated;
}

validate_all_null_section_example :
    (load_config empty_section ≡ ok empty_section)
    × (validate_all empty_section monday idle_box ≡ raised (error attribute_error))
    × ((out : Report) × (validate_all
            (dict (field "protection" (dict end) other_sections))
            monday
            idle_box
          ≡ ok out))
validate_all_null_section_example =
    validate_all_null_section other_sections no_protection-IsLoaded monday idle_box empty_section_on
      idle_box_free
