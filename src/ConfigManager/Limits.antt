-- ===== src/ConfigManager/Limits.antt =====
-- ui/utils/config_manager.py: CONFIG_LIMITS, and the settings that it bounds.
use wasteless.Common.{
  ℕ, String, Bool, true, false, ◌||◌, Option, none, some, List, [], ◌∷◌, str_eq, if◌then◌else◌,
}
use wasteless.Common.Int.{ℤ, pos, ltb_ℤ}
use wasteless.Python.{
  Numbers, Value, null, bool, int, float, str, list, dict, error, invalid_config, Result, ok,
  raised,
}
use wasteless.ConfigManager.{Conversions, Limit, whole, real, Disk, put_in, edit}

abbrev pub limit_in : {F : Type 0} → String → List (String × Limit F) → Option (Limit F)
limit_in key [] = none
limit_in key ((name, limit) ∷ limits) = if str_eq name key then some limit else limit_in key limits

module _ {F : Type 0} where
  abbrev pub edit_valid :
      Result (Value F) → (Value F → Value F → Result (Value F)) → Disk F → Result Bool × Disk F
  edit_valid (raised e) change d = (raised e, d)
  edit_valid (ok value) change d = edit (change value) d

  abbrev pub whole_within : ℕ → ℕ → Option ℤ → Result (Value F)
  whole_within lo hi none = raised (error invalid_config)
  whole_within lo hi (some z) =
      if ltb_ℤ z (pos lo) || ltb_ℤ (pos hi) z then raised (error invalid_config) else ok (int z)

module _ {F : Type 0} ⦃n : Numbers F⦄ where
  abbrev pub real_within : F → F → Option F → Result (Value F)
  real_within lo hi none = raised (error invalid_config)
  real_within lo hi (some x) =
      if n.lt x lo || n.lt hi x then raised (error invalid_config) else ok (float x)

  -- CONFIG_LIMITS
  abbrev pub config_limits : List (String × Limit F)
  config_limits =
      ("dry_run_days", whole 0 30)
      ∷ ("grace_period_days", whole 0 30)
      ∷ ("min_instance_age_days", whole 1 365)
      ∷ ("min_idle_days", whole 1 90)
      ∷ ("min_confidence_score", real (n.decimal 0 1) (n.decimal 10 1))
      ∷ ("max_instances_per_run", whole 1 100)
      ∷ []

module _ {F : Type 0} ⦃n : Numbers F⦄ (conv : Conversions F) where
  -- `int(value)`
  abbrev pub to_int : Value F → Option ℤ
  to_int (int z) = some z
  to_int (bool true) = some (pos 1)
  to_int (bool false) = some (pos 0)
  to_int (float x) = conv.truncate x
  to_int (str s) = conv.int_of_str s
  to_int null = none
  to_int (list xs) = none
  to_int (dict fs) = none

  -- `float(value)`
  abbrev pub to_float : Value F → Option F
  to_float (float x) = some x
  to_float (int z) = some (n.of_int z)
  to_float (bool true) = some (n.of_int (pos 1))
  to_float (bool false) = some (n.of_int (pos 0))
  to_float (str s) = conv.float_of_str s
  to_float null = none
  to_float (list xs) = none
  to_float (dict fs) = none

  abbrev pub within : Option (Limit F) → Value F → Result (Value F)
  within none value = ok value
  within (some (whole lo hi)) value = whole_within lo hi (to_int value)
  within (some (real lo hi)) value = real_within lo hi (to_float value)

  unfoldable pub validate_config_value : String → Value F → Result (Value F)
  validate_config_value key value = within (limit_in key config_limits) value

  unfoldable pub set_grace_period_days : Value F → Disk F → Result Bool × Disk F
  set_grace_period_days days =
      edit_valid (validate_config_value "grace_period_days" days)
        (put_in "approval" "grace_period_days")

  unfoldable pub set_dry_run_days : Value F → Disk F → Result Bool × Disk F
  set_dry_run_days days =
      edit_valid (validate_config_value "dry_run_days" days)
        (put_in "auto_remediation" "dry_run_days")

  unfoldable pub update_protection_rule : String → Value F → Disk F → Result Bool × Disk F
  update_protection_rule key value =
      edit_valid (validate_config_value key value) (put_in "protection" key)
