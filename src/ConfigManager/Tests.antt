-- ===== src/ConfigManager/Tests.antt =====
-- The settings page on a document with one section.
use wasteless.Common.{String, ◌≡◌, refl, Bool, true, false, some, none, Option, []}
use wasteless.Common.Int.{ℤ, pos}
use wasteless.Python.{
  strip_left, strip_right, Numbers, Value, bool, int, str, list, dict, nil, cons, end, field, ok,
}
use wasteless.Python.Hundredths.{hundredths, hundredths-ComparesInts, hundredths-IsOrdered}
use wasteless.Safeguards.{is_action_enabled, Clock, is_whitelisted, items_of, any_rule}
use wasteless.Safeguards.Config.{check_bound, check_bounds}
use wasteless.ConfigManager.{
  Conversions, Disk, set_field, put_in, with_section, set_in, save_config, edit, with_actions,
  put_action, set_action_enabled, enable_schedule_restrictions, validate_instance_id,
  is_instance_id,
}
use wasteless.ConfigManager.Types.{IsTyped, validate_config_value-IsTyped}
use wasteless.ConfigManager.Limits.{
  limit_in, config_limits, update_protection_rule, validate_config_value,
}
use wasteless.ConfigManager.Whitelist.{add_instance_to_whitelist, with_ids, list_id, append}
use wasteless.ConfigManager.Actions.{is_action_enabled-set_action_enabled}
use wasteless.ConfigManager.Listed.{is_whitelisted-add_instance_to_whitelist}
use wasteless.ConfigManager.Bounds.{protection_loads, protection_loads-update_protection_rule}
use wasteless.ConfigManager.Restrictions.{IsIgnored, check_schedule-enable_schedule_restrictions}

abbrev document : Value ℤ
document = dict (field "protection" (dict (field "min_idle_days" (int (pos 14)) end)) end)

abbrev disk : Disk ℤ
disk = record { document = ok document; writable = true }

abbrev conversions : Conversions ℤ
conversions = record { int_of_str = λ _. none; float_of_str = λ _. none; truncate = λ _. none }

abbrev after_switch : Disk ℤ
after_switch = record {
  document = ok (
      dict (
        field "protection" (dict (field "min_idle_days" (int (pos 14)) end)) (
          field "auto_remediation"
            (dict (field "actions" (dict (field "delete_volume" (bool false) end)) end)) end)));
  writable = true;
}

switches : set_action_enabled "delete_volume" false disk ≡ (ok true, after_switch)
unfolding set_action_enabled edit save_config with_section with_actions put_action set_in set_field
switches = refl

reads_delete_volume : is_action_enabled document "delete_volume" ≡ ok true
unfolding is_action_enabled
reads_delete_volume = refl

is_action_enabled-set_action_enabled_example :
    (config' : Value ℤ) × (after_switch.document ≡ ok config')
    × (is_action_enabled config' "delete_volume" ≡ ok false)
is_action_enabled-set_action_enabled_example =
    is_action_enabled-set_action_enabled "delete_volume" false document disk after_switch
      "delete_volume" true refl reads_delete_volume switches

abbrev after_rule : Disk ℤ
after_rule = record {
  document = ok (dict (field "protection" (dict (field "min_idle_days" (int (pos 30)) end)) end));
  writable = true;
}

saves_rule :
    update_protection_rule conversions "min_idle_days" (int (pos 30)) disk ≡ (ok true, after_rule)
unfolding update_protection_rule validate_config_value edit save_config put_in with_section set_in
    set_field
saves_rule = refl

loads_document : protection_loads document ≡ ok tt
unfolding check_bounds check_bound
loads_document = refl

protection_loads-update_protection_rule_example :
    (config' : Value ℤ) × (after_rule.document ≡ ok config') × (protection_loads config' ≡ ok tt)
protection_loads-update_protection_rule_example =
    protection_loads-update_protection_rule conversions hundredths-ComparesInts hundredths-IsOrdered
      "min_idle_days" (int (pos 30)) document disk after_rule refl loads_document saves_rule

flag_accepted : validate_config_value conversions "min_idle_days" (bool true) ≡ ok (int (pos 1))
unfolding validate_config_value
flag_accepted = refl

validate_config_value-IsTyped_example :
    IsTyped {F = ℤ} (limit_in "min_idle_days" config_limits) (bool true) (int (pos 1))
    × (validate_config_value conversions "min_idle_days" (int (pos 1)) ≡ ok (int (pos 1)))
validate_config_value-IsTyped_example =
    validate_config_value-IsTyped conversions "min_idle_days" (bool true) (int (pos 1))
      flag_accepted

abbrev instance_id : String
instance_id = "i-0abc1234"

abbrev after_listing : Disk ℤ
after_listing = record {
  document = ok (
      dict (
        field "protection" (dict (field "min_idle_days" (int (pos 14)) end)) (
          field "whitelist" (dict (field "instance_ids" (list (cons (str instance_id) nil)) end))
            end)));
  writable = true;
}

lists : add_instance_to_whitelist " i-0abc1234" disk ≡ (ok true, after_listing)
unfolding add_instance_to_whitelist validate_instance_id is_instance_id strip_left strip_right
    save_config with_section with_ids list_id append set_in set_field
lists = refl

valid_id : validate_instance_id " i-0abc1234" ≡ ok instance_id
unfolding validate_instance_id is_instance_id strip_left strip_right
valid_id = refl

not_listed : is_whitelisted document instance_id [] ≡ ok false
unfolding is_whitelisted items_of any_rule
not_listed = refl

is_whitelisted-add_instance_to_whitelist_example :
    (config' : Value ℤ) × (after_listing.document ≡ ok config')
    × (is_whitelisted config' instance_id [] ≡ ok true)
is_whitelisted-add_instance_to_whitelist_example =
    is_whitelisted-add_instance_to_whitelist " i-0abc1234" instance_id document disk after_listing
      [] false valid_id refl not_listed lists

abbrev monday : Clock
monday = record { now = 4_320_000_000_000; day = "Monday"; hour = 9 }

abbrev days : Value ℤ
days = list (cons (str "Saturday") nil)

abbrev hours : Value ℤ
hours = list (cons (int (pos 3)) nil)

abbrev after_restriction : Disk ℤ
after_restriction = record {
  document = ok (
      dict (
        field "protection" (dict (field "min_idle_days" (int (pos 14)) end)) (
          field "schedule" (dict (field "allowed_days" days (field "allowed_hours" hours end)))
            end)));
  writable = true;
}

restricts :
    enable_schedule_restrictions (some days) (some hours) disk ≡ (ok true, after_restriction)
unfolding enable_schedule_restrictions edit save_config with_section set_in set_field
restricts = refl

check_schedule-enable_schedule_restrictions_example :
    (config' : Value ℤ) × (after_restriction.document ≡ ok config')
    × IsIgnored days hours config' monday
check_schedule-enable_schedule_restrictions_example =
    check_schedule-enable_schedule_restrictions days hours document disk after_restriction monday
      refl refl restricts

-- Hundredths with one value more, which no comparison accepts.
abbrev compares : (ℤ → ℤ → Bool) → Option ℤ → Option ℤ → Bool
compares test (some a) (some b) = test a b
compares test _ _ = false

abbrev with_nan : Numbers (Option ℤ)
with_nan = record {
  of_int = λ z. some (hundredths.of_int z);
  decimal = λ m k. some (hundredths.decimal m k);
  lt = compares hundredths.lt;
  le = compares hundredths.le;
  add = λ a b. none;
  sub = λ a b. none;
  mul = λ a b. none;
  div = λ a b. none;
  absolute = λ a. a;
}

abbrev no_conversions : Conversions (Option ℤ)
no_conversions = record { int_of_str = λ _. none; float_of_str = λ _. none; truncate = λ _. none }
