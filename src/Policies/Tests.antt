-- ===== src/Policies/Tests.antt =====
-- Documents for ui/utils/policies.py.
use wasteless.Common.{◌≡◌, refl, none, true}
use wasteless.Common.Int.{ℤ, pos}
use wasteless.Python.{
  Value, null, bool, int, list, dict, nil, cons, end, field, error, invalid_config, ok, raised,
}
use wasteless.Python.Hundredths.{hundredths, hundredths-ComparesInts, hundredths-IsOrdered}
use wasteless.ConfigManager.{Conversions, Disk, set_field, save_config}
use wasteless.ConfigManager.Limits.{validate_config_value}
use wasteless.ConfigManager.Bounds.{protection_loads}
use wasteless.Policies.{
  section_problems, all_hour_values, limit_each, imported, validate_policy, parse_policy_yaml,
  api_policies_import,
}
use wasteless.Policies.Loading.{protection_loads-api_policies_import}

abbrev conversions : Conversions ℤ
conversions = record { int_of_str = λ _. none; float_of_str = λ _. none; truncate = λ _. none }

-- A section with the flag, which the import makes a number.
abbrev document : Value ℤ
document = dict (
    field "protection"
      (dict (field "min_idle_days" (bool true) (field "max_instances_per_run" (int (pos 3)) end)))
      (field "schedule" (dict (field "allowed_hours" (list (cons (int (pos 9)) nil)) end)) end))

abbrev normalized : Value ℤ
normalized = dict (
    field "protection"
      (dict (field "min_idle_days" (int (pos 1)) (field "max_instances_per_run" (int (pos 3)) end)))
      (field "schedule" (dict (field "allowed_hours" (list (cons (int (pos 9)) nil)) end)) end))

abbrev empty_disk : Disk ℤ
empty_disk = record { document = ok null; writable = true }

abbrev stored : Disk ℤ
stored = record { document = ok normalized; writable = true }

document_imported :
    api_policies_import conversions (λ _. ok document) "policy" empty_disk ≡ (imported, stored)
unfolding api_policies_import parse_policy_yaml save_config validate_policy section_problems
    limit_each validate_config_value set_field all_hour_values
document_imported = refl

protection_loads-api_policies_import_example :
    (config : Value ℤ) × (stored.document ≡ ok config) × (protection_loads config ≡ ok tt)
protection_loads-api_policies_import_example =
    protection_loads-api_policies_import conversions hundredths-ComparesInts hundredths-IsOrdered
      (λ _. ok document) "policy" empty_disk stored document_imported

-- The import collects every problem.
abbrev faulty : Value ℤ
faulty = dict (
    field "safety" (dict end) (
      field "protection" (dict (field "min_idle_days" (int (pos 91)) end))
        (field "schedule" (dict (field "allowed_hours" (list (cons (int (pos 24)) nil)) end)) end)))

faulty_refused : validate_policy conversions faulty ≡ raised (error invalid_config)
unfolding validate_policy section_problems limit_each validate_config_value set_field
    all_hour_values
faulty_refused = refl
