-- ===== src/Policies.antt =====
-- ui/utils/policies.py and `api_policies_import` of ui/routes/settings.py: the import of a policy.
--
-- The YAML parser is an argument, which gives a value or raises; the copy that `deepcopy` makes is
-- the value. The problems are kept newest first, without their texts. What `int` raises besides
-- ValueError and TypeError, for an infinite float, counts as a problem here, as in ConfigManager.
pub mod Limited
pub mod Clean
pub mod Loading
mod Tests
use wasteless.Common.{
  ℕ, String, Bool, true, false, not, ◌&&◌, ◌||◌, Option, none, some, List, [], ◌∷◌, ◌++◌, str_eq,
  if◌then◌else◌,
}
use wasteless.Common.Int.{ℤ, pos, leb_ℤ}
use wasteless.Python.{
  Numbers, Value, Items, Fields, null, bool, int, float, str, list, dict, nil, cons, end, field,
  find_field, value_or, is_dict, is_list, error, invalid_config, Result, ok, raised,
}
use wasteless.ConfigManager.{Conversions, Disk, set_field, save_config, validate_instance_id}
use wasteless.ConfigManager.Limits.{validate_config_value}

-- The statements that append to `errors`.
pub data Problem : Type 0 where
  unknown_section wrong_type out_of_range bad_id : String → Problem
  bad_enabled bad_actions bad_ids bad_tags bad_hours bad_days : Problem

-- A success, the statuses 400 and 500.
pub data ImportReply : Type 0 where
  imported bad_request not_written : ImportReply

pub data Kind : Type 0 where
  a_dict a_bool : Kind

-- KNOWN_SECTIONS
abbrev pub known_sections : List (String × Kind)
known_sections =
    ("auto_remediation", a_dict)
    ∷ ("approval", a_dict)
    ∷ ("protection", a_dict)
    ∷ ("whitelist", a_dict)
    ∷ ("schedule", a_dict)
    ∷ ("notifications", a_dict)
    ∷ ("rollback", a_dict)
    ∷ ("logging", a_dict)
    ∷ ("aws", a_dict)
    ∷ ("terraform_pr", a_dict)
    ∷ ("dry_run", a_bool)
    ∷ []

-- _LIMITED_KEYS
abbrev pub limited_keys : List (String × String)
limited_keys =
    ("auto_remediation", "dry_run_days")
    ∷ ("approval", "grace_period_days")
    ∷ ("protection", "min_instance_age_days")
    ∷ ("protection", "min_idle_days")
    ∷ ("protection", "min_confidence_score")
    ∷ ("protection", "max_instances_per_run")
    ∷ []

abbrev pub kind_of : List (String × Kind) → String → Option Kind
kind_of [] key = none
kind_of ((name, kind) ∷ rest) key = if str_eq name key then some kind else kind_of rest key

abbrev pub add_if : Bool → Problem → List Problem → List Problem
add_if true p ps = p ∷ ps
add_if false p ps = ps

module _ {F : Type 0} where
  abbrev pub is_bool : Value F → Bool
  is_bool (bool b) = true
  is_bool _ = false

  -- `isinstance(value, expected)`
  abbrev pub is_kind : Kind → Value F → Bool
  is_kind a_dict v = is_dict v
  is_kind a_bool v = is_bool v

  abbrev pub add_section_problem : Option Kind → String → Value F → List Problem → List Problem
  add_section_problem none key v ps = unknown_section key ∷ ps
  add_section_problem (some kind) key v ps = add_if (not (is_kind kind v)) (wrong_type key) ps

  -- The loop over the sections.
  unfoldable pub section_problems : Fields F → List Problem → List Problem
  section_problems end ps = ps
  section_problems (field key v fs) ps =
      section_problems fs (add_section_problem (kind_of known_sections key) key v ps)

  -- The fields of a section, if it is a dict.
  abbrev pub fields_of : Option (Value F) → Option (Fields F)
  fields_of none = none
  fields_of (some (dict gs)) = some gs
  fields_of (some _) = none

  unfoldable pub all_bools : Fields F → Bool
  all_bools end = true
  all_bools (field k v fs) = is_bool v && all_bools fs

  abbrev pub are_actions : Value F → Bool
  are_actions (dict fs) = all_bools fs
  are_actions _ = false

  abbrev pub auto_remediation_problems : Option (Fields F) → List Problem → List Problem
  auto_remediation_problems none ps = ps
  auto_remediation_problems (some gs) ps =
      add_if (not (are_actions (value_or (dict end) (find_field "actions" gs)))) bad_actions
        (add_if (not (is_bool (value_or (bool false) (find_field "enabled" gs)))) bad_enabled ps)

  -- `validate_instance_id(iid)`: what is no text is no id either, for its text does not begin with
  -- "i-".
  abbrev pub id_passes : Value F → Bool
  id_passes (str s) = elim (validate_instance_id s) [ ok i ↦ true | raised e ↦ false ]
  id_passes _ = false

  abbrev pub text_of : Value F → String
  text_of (str s) = s
  text_of _ = ""

  unfoldable pub id_problems : Items F → List Problem → List Problem
  id_problems nil ps = ps
  id_problems (cons v vs) ps = id_problems vs (add_if (not (id_passes v)) (bad_id (text_of v)) ps)

  abbrev pub ids_problems : Value F → List Problem → List Problem
  ids_problems (list xs) ps = id_problems xs ps
  ids_problems _ ps = bad_ids ∷ ps

  abbrev pub whitelist_problems : Option (Fields F) → List Problem → List Problem
  whitelist_problems none ps = ps
  whitelist_problems (some gs) ps =
      add_if (not (is_list (value_or (list nil) (find_field "tags" gs)))) bad_tags
        (ids_problems (value_or (list nil) (find_field "instance_ids" gs)) ps)

  -- `isinstance(h, int) and 0 <= h <= 23`: a bool is an int, 0 or 1
  abbrev pub is_hour_value : Value F → Bool
  is_hour_value (int h) = leb_ℤ (pos 0) h && leb_ℤ h (pos 23)
  is_hour_value (bool b) = true
  is_hour_value _ = false

  unfoldable pub all_hour_values : Items F → Bool
  all_hour_values nil = true
  all_hour_values (cons h hs) = is_hour_value h && all_hour_values hs

  abbrev pub are_hours : Value F → Bool
  are_hours (list xs) = all_hour_values xs
  are_hours _ = false

  abbrev pub schedule_problems : Option (Fields F) → List Problem → List Problem
  schedule_problems none ps = ps
  schedule_problems (some gs) ps =
      add_if (not (is_list (value_or (list nil) (find_field "allowed_days" gs)))) bad_days (
        add_if (not (are_hours (value_or (list nil) (find_field "allowed_hours" gs)))) bad_hours ps)

  -- The tests behind the loop, which leave the document as it is.
  abbrev pub later_problems : Fields F → List Problem → List Problem
  later_problems fs ps = schedule_problems (fields_of (find_field "schedule" fs)) (
      whitelist_problems (fields_of (find_field "whitelist" fs))
        (auto_remediation_problems (fields_of (find_field "auto_remediation" fs)) ps))

  abbrev pub unless_problems : Fields F → List Problem → Result (Value F)
  unless_problems fs [] = ok (dict fs)
  unless_problems fs (p ∷ ps) = raised (error invalid_config)

  abbrev pub validated_fields : Fields F × List Problem → Result (Value F)
  validated_fields (fs, ps) = unless_problems fs (later_problems fs ps)

module _ {F : Type 0} ⦃n : Numbers F⦄ (conv : Conversions F) where
  -- `config[section][key] = validate_config_value(…)`, with its `except`
  abbrev pub put_limited :
      String
      → String
      → Fields F
      → Fields F
      → List Problem
      → Result (Value F)
      → Fields F × List Problem
  put_limited section key fs gs ps (raised e) = (fs, out_of_range key ∷ ps)
  put_limited section key fs gs ps (ok v) = (set_field section (dict (set_field key v gs)) fs, ps)

  abbrev pub limit_value :
      String
      → String
      → Fields F
      → Fields F
      → List Problem
      → Option (Value F)
      → Fields F × List Problem
  limit_value section key fs gs ps none = (fs, ps)
  limit_value section key fs gs ps (some v) =
      put_limited section key fs gs ps (validate_config_value conv key v)

  abbrev pub limit_in_section :
      String → String → Fields F → List Problem → Option (Fields F) → Fields F × List Problem
  limit_in_section section key fs ps none = (fs, ps)
  limit_in_section section key fs ps (some gs) =
      limit_value section key fs gs ps (find_field key gs)

  -- The loop over _LIMITED_KEYS.
  unfoldable pub limit_each :
      List (String × String) → Fields F × List Problem → Fields F × List Problem
  limit_each [] (fs, ps) = (fs, ps)
  limit_each ((section, key) ∷ keys) (fs, ps) =
      limit_each keys (limit_in_section section key fs ps (fields_of (find_field section fs)))

  unfoldable pub validate_policy : Value F → Result (Value F)
  validate_policy (dict fs) =
      validated_fields (limit_each limited_keys (fs, section_problems fs []))
  validate_policy _ = raised (error invalid_config)

  -- `parse_policy_yaml`, on what `yaml.safe_load` gives or raises
  abbrev pub parsed : Result (Value F) → Result (Value F)
  parsed (raised e) = raised (error invalid_config)
  parsed (ok null) = raised (error invalid_config)
  parsed (ok v) = validate_policy v

  unfoldable pub parse_policy_yaml : (String → Result (Value F)) → String → Result (Value F)
  parse_policy_yaml safe_load text = parsed (safe_load text)

  abbrev pub import_reply : Bool × Disk F → ImportReply × Disk F
  import_reply (true, d) = (imported, d)
  import_reply (false, d) = (not_written, d)

  abbrev pub import_of : Result (Value F) → Disk F → ImportReply × Disk F
  import_of (raised e) d = (bad_request, d)
  import_of (ok config) d = import_reply (save_config config d)

  unfoldable pub api_policies_import :
      (String → Result (Value F)) → String → Disk F → ImportReply × Disk F
  api_policies_import safe_load text d = import_of (parse_policy_yaml safe_load text) d
