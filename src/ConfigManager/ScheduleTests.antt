-- ===== src/ConfigManager/ScheduleTests.antt =====
-- Instance schedules and fields of terraform_pr that the settings page saves.
use wasteless.Common.{◌≡◌, refl, String, true, none, some, if◌then◌else◌}
use wasteless.Common.Int.{ℤ, pos}
use wasteless.Python.{
  Value, bool, int, str, list, dict, nil, cons, end, field, error, invalid_config, ok, raised,
  strip_left, strip_right,
}
use wasteless.Python.Hundredths.{hundredths}
use wasteless.ConfigManager.{Conversions, Disk, edit, save_config, set_field}
use wasteless.ConfigManager.Getters.{get_instance_schedule}
use wasteless.ConfigManager.Schedules.{
  Texts, is_within, time_value, days_value, edited_schedule, set_instance_schedule,
  set_terraform_pr_field,
}
use wasteless.ConfigManager.Readback.{get_instance_schedule-set_instance_schedule}

abbrev text_of : Value ℤ → String
text_of (str s) = s
text_of _ = ""

abbrev texts : Texts ℤ
texts = record {
  text_of = text_of;
  lower = λ s. s;
  digit = λ c. if is_within b'0' b'9' c then some c else none;
  is_timezone = λ s. true;
}

abbrev empty : Disk ℤ
empty = record { document = ok (dict end); writable = true }

abbrev week_ends : Value ℤ
week_ends = list (cons (str "friday") (cons (str "mon") (cons (str "fri") nil)))

abbrev shown : Value ℤ
shown = dict (
    field "enabled" (bool true) (
      field "stop_time" (str "07:30") (
        field "start_time" (str "08:00") (
          field "days" (list (cons (str "mon") (cons (str "fri") nil))) (
            field "timezone" (str "Europe/Paris") (
              field "tag_key" (str "wasteless:schedule")
                (field "tag_value" (str "office-hours") (field "dry_run" (bool true) end))))))))

abbrev after_schedule : Disk ℤ
after_schedule = record {
  document = ok (dict (field "instance_schedule" shown end));
  writable = true;
}

schedule_saved :
    set_instance_schedule texts
      (field "enabled"
        (int (pos 1))
        (field "stop_time" (str " 7:30 ") (field "days" week_ends end)))
      empty
    ≡ (ok true, after_schedule)
unfolding set_instance_schedule get_instance_schedule edited_schedule time_value days_value edit
    save_config set_field strip_left strip_right
schedule_saved = refl

get_instance_schedule-set_instance_schedule_example :
    (config : Value ℤ) × (config' : Value ℤ) × (before : Value ℤ) × (after : Value ℤ)
    × (empty.document ≡ ok config)
    × (after_schedule.document ≡ ok config')
    × (get_instance_schedule config ≡ ok before)
    × (edited_schedule texts
          (field "enabled"
            (int (pos 1))
            (field "stop_time" (str " 7:30 ") (field "days" week_ends end)))
          before
        ≡ ok after)
    × (get_instance_schedule config' ≡ ok after)
get_instance_schedule-set_instance_schedule_example =
    get_instance_schedule-set_instance_schedule texts
      (field "enabled" (int (pos 1))
        (field "stop_time" (str " 7:30 ") (field "days" week_ends end)))
      empty after_schedule schedule_saved

-- 24:00 is no time of the day.
midnight_refused :
    set_instance_schedule texts (field "stop_time" (str "24:00") end) empty
    ≡ (raised (error invalid_config), empty)
unfolding set_instance_schedule get_instance_schedule edited_schedule time_value edit set_field
    strip_left strip_right
midnight_refused = refl

abbrev conversions : Conversions ℤ
conversions = record { int_of_str = λ _. none; float_of_str = λ _. none; truncate = λ _. none }

no_owner_refused :
    set_terraform_pr_field texts conversions "repo" (str "infra") empty
    ≡ (raised (error invalid_config), empty)
unfolding set_terraform_pr_field strip_left strip_right
no_owner_refused = refl
