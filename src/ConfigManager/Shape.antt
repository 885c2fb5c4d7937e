-- ===== src/ConfigManager/Shape.antt =====
-- ui/utils/config_manager.py, `set_instance_schedule`: the shape of a schedule that is read, and that
-- each key which is set keeps.
use wasteless.Common.{
  ◌≡◌, refl, sym, ap, subst, inl, inr, Bool-cases, String, Bool, true, false, Option, none, some,
  List, [], ◌∷◌,
}
use wasteless.Python.{
  ok_inj, Numbers, Value, Fields, bool, str, list, dict, nil, end, field, find_field, get, truthy,
  or_empty, Result, ok, ◌>>=◌, >>=-eq-ok,
}
use wasteless.ConfigManager.{set_field, set_item}
use wasteless.ConfigManager.Getters.{get_instance_schedule, or_else, weekdays}
use wasteless.ConfigManager.Schedules.{put_new, or_no_day}

module _ {F : Type 0} ⦃n : Numbers F⦄ where
  abbrev pub schedule_dict :
      Bool → Value F → Value F → Value F → Value F → Value F → Value F → Bool → Value F
  schedule_dict enabled stop_time start_time days timezone tag_key tag_value dry_run = dict (
      field "enabled" (bool enabled) (
        field "stop_time" stop_time (
          field "start_time" start_time (
            field "days" days (
              field "timezone" timezone (
                field "tag_key" tag_key
                  (field "tag_value" tag_value (field "dry_run" (bool dry_run) end))))))))

  -- A dict that `get_instance_schedule` returns.
  pub data IsSchedule : Value F → Type 0 where
    schedule :
        (enabled : Bool) (stop_time start_time days timezone tag_key tag_value : Value F)
        (dry_run : Bool)
        → truthy days ≡ true
        → IsSchedule
            (schedule_dict enabled stop_time start_time days timezone tag_key tag_value dry_run)

  pub or_else-truthy : (v d : Value F) → truthy d ≡ true → truthy (or_else v d) ≡ true
  or_else-truthy v d h = elim (Bool-cases (truthy v)) [
    | inl given ↦ rw given given
    | inr missing ↦ rw missing h
  ]

  pub get-IsSchedule : (config v : Value F) → get_instance_schedule config ≡ ok v → IsSchedule v
  unfolding get_instance_schedule
  get-IsSchedule config v h =
      let (section, _, h1) = >>=-eq-ok (get config "instance_schedule" (dict end)) _ h in
      let cfg = or_empty section in
      let (enabled, _, h2) = >>=-eq-ok (get cfg "enabled" (bool false)) _ h1 in
      let (stop_time, _, h3) = >>=-eq-ok (get cfg "stop_time" (str "19:00")) _ h2 in
      let (start_time, _, h4) = >>=-eq-ok (get cfg "start_time" (str "08:00")) _ h3 in
      let (days, _, h5) = >>=-eq-ok (get cfg "days" (list nil)) _ h4 in
      let (timezone, _, h6) = >>=-eq-ok (get cfg "timezone" (str "Europe/Paris")) _ h5 in
      let (tag_key, _, h7) = >>=-eq-ok (get cfg "tag_key" (str "wasteless:schedule")) _ h6 in
      let (tag_value, _, h8) = >>=-eq-ok (get cfg "tag_value" (str "office-hours")) _ h7 in
      let (dry_run, _, h9) = >>=-eq-ok (get cfg "dry_run" (bool true)) _ h8 in
      let week = list (weekdays ("mon" ∷ "tue" ∷ "wed" ∷ "thu" ∷ "fri" ∷ [])) in
      subst IsSchedule (ok_inj h9) (
        schedule (truthy enabled) stop_time start_time (or_else days week) timezone tag_key
          tag_value (truthy dry_run) (or_else-truthy days week refl))

  -- Such a dict is read as it is.
  pub IsSchedule-get :
      {v : Value F} (fs : Fields F)
      → IsSchedule v
      → find_field "instance_schedule" fs ≡ some v
      → get_instance_schedule (dict fs) ≡ ok v
  unfolding get_instance_schedule
  IsSchedule-get fs (schedule e st sp days tz tk tv dr given) there = rw (there, given) refl

  pub put_keeps :
      (key : String) (make : Value F → Result (Value F)) (o : Option (Value F)) {v v' : Value F}
      → IsSchedule v
      → ((x new out : Value F) → make x ≡ ok new → set_item v key new ≡ ok out → IsSchedule out)
      → put_new key make o v ≡ ok v'
      → IsSchedule v'
  put_keeps key make none s keeps h = subst IsSchedule (ok_inj h) s
  put_keeps key make (some x) {v} {v'} s keeps h =
      let (new, made, set) = >>=-eq-ok (make x) _ h in keeps x new v' made set

  pub put_step :
      (key : String) (make : Value F → Result (Value F)) (o : Option (Value F)) {v v' : Value F}
      → IsSchedule v
      → ((x new out : Value F) → make x ≡ ok new → set_item v key new ≡ ok out → IsSchedule out)
      → (next : Value F → Result (Value F))
      → ((w : Value F) → IsSchedule w → next w ≡ ok v' → IsSchedule v')
      → (put_new key make o v >>= next) ≡ ok v'
      → IsSchedule v'
  put_step key make o {v} s keeps next later h =
      let (w, put, rest) = >>=-eq-ok (put_new key make o v) next h in
      later w (put_keeps key make o s keeps put) rest

  -- Each key that is set keeps the shape.
  pub enabled_keeps :
      {v : Value F} (b : Bool) (out : Value F)
      → IsSchedule v
      → set_item v "enabled" (bool b) ≡ ok out
      → IsSchedule out
  unfolding set_field
  enabled_keeps b out (schedule e st sp days tz tk tv dr given) set =
      subst IsSchedule (ok_inj set) (schedule b st sp days tz tk tv dr given)

  pub dry_run_keeps :
      {v : Value F} (b : Bool) (out : Value F)
      → IsSchedule v
      → set_item v "dry_run" (bool b) ≡ ok out
      → IsSchedule out
  unfolding set_field
  dry_run_keeps b out (schedule e st sp days tz tk tv dr given) set =
      subst IsSchedule (ok_inj set) (schedule e st sp days tz tk tv b given)

  pub days_keeps :
      {v : Value F} (new out : Value F)
      → truthy new ≡ true
      → IsSchedule v
      → set_item v "days" new ≡ ok out
      → IsSchedule out
  unfolding set_field
  days_keeps new out chosen (schedule e st sp days tz tk tv dr given) set =
      subst IsSchedule (ok_inj set) (schedule e st sp new tz tk tv dr chosen)

  pub stop_time_keeps :
      {v : Value F} (new out : Value F)
      → IsSchedule v
      → set_item v "stop_time" new ≡ ok out
      → IsSchedule out
  unfolding set_field
  stop_time_keeps new out (schedule e st sp days tz tk tv dr given) set =
      subst IsSchedule (ok_inj set) (schedule e new sp days tz tk tv dr given)

  pub start_time_keeps :
      {v : Value F} (new out : Value F)
      → IsSchedule v
      → set_item v "start_time" new ≡ ok out
      → IsSchedule out
  unfolding set_field
  start_time_keeps new out (schedule e st sp days tz tk tv dr given) set =
      subst IsSchedule (ok_inj set) (schedule e st new days tz tk tv dr given)

  pub timezone_keeps :
      {v : Value F} (new out : Value F)
      → IsSchedule v
      → set_item v "timezone" new ≡ ok out
      → IsSchedule out
  unfolding set_field
  timezone_keeps new out (schedule e st sp days tz tk tv dr given) set =
      subst IsSchedule (ok_inj set) (schedule e st sp days new tk tv dr given)

  pub tag_key_keeps :
      {v : Value F} (new out : Value F)
      → IsSchedule v
      → set_item v "tag_key" new ≡ ok out
      → IsSchedule out
  unfolding set_field
  tag_key_keeps new out (schedule e st sp days tz tk tv dr given) set =
      subst IsSchedule (ok_inj set) (schedule e st sp days tz new tv dr given)

  pub tag_value_keeps :
      {v : Value F} (new out : Value F)
      → IsSchedule v
      → set_item v "tag_value" new ≡ ok out
      → IsSchedule out
  unfolding set_field
  tag_value_keeps new out (schedule e st sp days tz tk tv dr given) set =
      subst IsSchedule (ok_inj set) (schedule e st sp days tz tk new dr given)

  pub chosen_days : (ds : List String) (new : Value F) → or_no_day ds ≡ ok new → truthy new ≡ true
  chosen_days [] new h = cc
  chosen_days (d ∷ ds) new h = ap truthy (sym (ok_inj h))
