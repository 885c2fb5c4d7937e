-- ===== src/ConfigManager/Readback.antt =====
-- ui/utils/config_manager.py: the instance schedule that is read after a save.
use wasteless.Common.{◌≡◌, sym, ap, ◌∙◌, true, keep}
use wasteless.Python.{
  ok_inj, Numbers, Value, Fields, null, bool, int, float, str, list, dict, find_field, truthy, ok,
  >>=-eq-ok,
}
use wasteless.ConfigManager.{Disk, set_field, set_item}
use wasteless.ConfigManager.Getters.{get_instance_schedule}
use wasteless.ConfigManager.Lookups.{find_field-set_field_self}
use wasteless.ConfigManager.Saves.{edit_stored}
use wasteless.ConfigManager.Schedules.{
  Texts, flag_value, time_value, timezone_value, days_value, days_of, is_given_day, canon_days,
  text_or, edited_schedule, set_instance_schedule,
}
use wasteless.ConfigManager.Shape.{
  IsSchedule, get-IsSchedule, IsSchedule-get, put_keeps, put_step, enabled_keeps, dry_run_keeps,
  days_keeps, stop_time_keeps, start_time_keeps, timezone_keeps, tag_key_keeps, tag_value_keeps,
  chosen_days,
}

module _ {F : Type 0} ⦃n : Numbers F⦄ (t : Texts F) where
  days_value-truthy : (x new : Value F) → days_value t x ≡ ok new → truthy new ≡ true
  unfolding days_value
  days_value-truthy x new h =
      let (given, _, chosen) = >>=-eq-ok (days_of t x) _ h in
      chosen_days (keep (is_given_day t given) canon_days) new chosen

  edited-IsSchedule :
      (values : Fields F) (v v' : Value F)
      → IsSchedule v
      → edited_schedule t values v ≡ ok v'
      → IsSchedule v'
  unfolding edited_schedule
  edited-IsSchedule values v v' s h =
      put_step "enabled" flag_value (find_field "enabled" values) s
        (λ x new out made set.
          enabled_keeps (truthy x) out s (ap (set_item v "enabled") (ok_inj made) ∙ set))
        _
        (λ v1 s1 h1.
          put_step "dry_run" flag_value (find_field "dry_run" values) s1
            (λ x new out made set.
              dry_run_keeps (truthy x) out s1 (ap (set_item v1 "dry_run") (ok_inj made) ∙ set))
            _
            (λ v2 s2 h2.
              put_step "stop_time" (time_value t) (find_field "stop_time" values) s2
                (λ x new out made. stop_time_keeps new out s2) _
                (λ v3 s3 h3.
                  put_step "start_time" (time_value t) (find_field "start_time" values) s3
                    (λ x new out made. start_time_keeps new out s3) _
                    (λ v4 s4 h4.
                      put_step "timezone" (timezone_value t) (find_field "timezone" values) s4
                        (λ x new out made. timezone_keeps new out s4) _
                        (λ v5 s5 h5.
                          put_step "days" (days_value t) (find_field "days" values) s5
                            (λ x new out made. days_keeps new out (days_value-truthy x new made) s5)
                            _
                            (λ v6 s6 h6.
                              put_step "tag_key" (text_or t "wasteless:schedule")
                                (find_field "tag_key" values) s6
                                (λ x new out made. tag_key_keeps new out s6) _
                                (λ v7 s7 h7.
                                  put_keeps "tag_value" (text_or t "office-hours")
                                    (find_field "tag_value" values) s7
                                    (λ x new out made. tag_value_keeps new out s7) h7)
                                h6)
                            h5)
                        h4)
                    h3)
                h2)
            h1)
        h

  read_back :
      (config v config' : Value F)
      → IsSchedule v
      → set_item config "instance_schedule" v ≡ ok config'
      → get_instance_schedule config' ≡ ok v
  read_back (dict fs) v config' s set =
      ap get_instance_schedule (sym (ok_inj set))
      ∙ IsSchedule-get (set_field "instance_schedule" v fs) s
          (find_field-set_field_self "instance_schedule" v fs)
  read_back null v config' s set = cc
  read_back (bool b) v config' s set = cc
  read_back (int z) v config' s set = cc
  read_back (float x) v config' s set = cc
  read_back (str x) v config' s set = cc
  read_back (list xs) v config' s set = cc

  -- Once the settings page reports that an instance schedule is saved, the schedule that is read next is
  -- the one that was read before with the given values put in, whatever the file and the values.
  pub get_instance_schedule-set_instance_schedule :
      (values : Fields F) (d d' : Disk F)
      → set_instance_schedule t values d ≡ (ok true, d')
      → (config : Value F) × (config' : Value F) × (before : Value F) × (after : Value F)
        × (d.document ≡ ok config)
        × (d'.document ≡ ok config')
        × (get_instance_schedule config ≡ ok before)
        × (edited_schedule t values before ≡ ok after)
        × (get_instance_schedule config' ≡ ok after)
  unfolding set_instance_schedule
  get_instance_schedule-set_instance_schedule values d d' h =
      let (config, config', loaded, changed, stored) = edit_stored _ d d' h in
      let (before, was, h1) = >>=-eq-ok (get_instance_schedule config) _ changed in
      let (after, edited, put) = >>=-eq-ok (edited_schedule t values before) _ h1 in
      let s = edited-IsSchedule values before after (get-IsSchedule config before was) edited in
      (
        config,
        config',
        before,
        after,
        loaded,
        stored,
        was,
        edited,
        read_back config after config' s put,
      )
