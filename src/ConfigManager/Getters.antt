-- ===== src/ConfigManager/Getters.antt =====
-- ui/utils/config_manager.py: what the settings page shows of a loaded document.
use wasteless.Common.{String, Bool, true, false, ◌&&◌, List, [], ◌∷◌, if◌then◌else◌}
use wasteless.Common.Int.{pos}
use wasteless.Python.{
  Numbers, Value, Items, bool, int, str, list, dict, nil, cons, end, field, get, truthy, or_empty,
  Result, ok, ◌>>=◌,
}

module _ {F : Type 0} ⦃n : Numbers F⦄ where
  unfoldable pub get_auto_remediation_enabled : Value F → Result (Value F)
  get_auto_remediation_enabled config =
      get config "auto_remediation" (dict end) >>= λ section. get section "enabled" (bool false)

  unfoldable pub get_grace_period_days : Value F → Result (Value F)
  get_grace_period_days config =
      get config "approval" (dict end) >>= λ section. get section "grace_period_days" (int (pos 0))

  unfoldable pub get_action_enabled : Value F → String → Result (Value F)
  get_action_enabled config action_type = do
    section ← get config "auto_remediation" (dict end)
    actions ← get section "actions" (dict end)
    get (or_empty actions) action_type (bool true)

  unfoldable pub get_dry_run : Value F → Result (Value F)
  get_dry_run config = get config "dry_run" (bool true)

  unfoldable pub get_dry_run_days : Value F → Result (Value F)
  get_dry_run_days config = get config "auto_remediation" (dict end) >>= λ section.
      get section "dry_run_days" (int (pos 7))

  unfoldable pub is_schedule_enabled : Value F → Result Bool
  is_schedule_enabled config = do
    schedule ← get config "schedule" (dict end)
    days ← get schedule "allowed_days" (list nil)
    hours ← get schedule "allowed_hours" (list nil)
    ok (truthy days && truthy hours)

  abbrev pub weekdays : List String → Items F
  weekdays [] = nil
  weekdays (d ∷ ds) = cons (str d) (weekdays ds)

  -- `v or d`
  abbrev pub or_else : Value F → Value F → Value F
  or_else v d = if truthy v then v else d

  unfoldable pub get_instance_schedule : Value F → Result (Value F)
  get_instance_schedule config = do
    section ← get config "instance_schedule" (dict end)
    let cfg = or_empty section
    enabled ← get cfg "enabled" (bool false)
    stop_time ← get cfg "stop_time" (str "19:00")
    start_time ← get cfg "start_time" (str "08:00")
    days ← get cfg "days" (list nil)
    timezone ← get cfg "timezone" (str "Europe/Paris")
    tag_key ← get cfg "tag_key" (str "wasteless:schedule")
    tag_value ← get cfg "tag_value" (str "office-hours")
    dry_run ← get cfg "dry_run" (bool true)
    ok (
        dict (
          field "enabled" (bool (truthy enabled)) (
            field "stop_time" stop_time (
              field "start_time" start_time (
                field "days"
                  (or_else days (list (weekdays ("mon" ∷ "tue" ∷ "wed" ∷ "thu" ∷ "fri" ∷ []))))
                  (field "timezone" timezone (
                    field "tag_key" tag_key (
                      field "tag_value" tag_value
                        (field "dry_run" (bool (truthy dry_run)) end)))))))))
