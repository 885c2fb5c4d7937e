-- ===== src/ConfigManager/Restrictions.antt =====
-- ui/utils/config_manager.py and src/core/safeguards.py: the schedule that the settings restrict, as
-- the safeguards read it.
use wasteless.Common.{◌≡◌, refl, sym, subst, ap, ◌∙◌, Bool, true, false, ◌&&◌, some}
use wasteless.Python.{
  ok_inj, Numbers, Value, Fields, bool, dict, end, find_field, value_or, get, truthy, Result, ok,
  ◌>>=◌, >>=-eq-ok,
}
use wasteless.Safeguards.{Clock, check_schedule}
use wasteless.ConfigManager.{
  Disk, set_field, set_in, with_section, put_in, enable_schedule_restrictions,
}
use wasteless.ConfigManager.Lookups.{
  find_field-set_field_self, find_field-set_field_other, set_in_lem,
}
use wasteless.ConfigManager.Sections.{IsPut, put_in-IsPut}
use wasteless.ConfigManager.Saves.{edit_stored}
use wasteless.ConfigManager.Getters.{is_schedule_enabled}

module _ {F : Type 0} ⦃n : Numbers F⦄ where
  -- `schedule.enabled`, which the safeguards ask for first
  abbrev pub switched_on : Value F → Result Bool
  switched_on config = get config "schedule" (dict end) >>= λ section.
      get section "enabled" (bool false) >>= λ enabled. ok (truthy enabled)

  -- The document after both lists are set in the section `gs`.
  abbrev restricted : Value F → Value F → Fields F → Fields F
  restricted days hours gs = set_field "allowed_hours" hours (set_field "allowed_days" days gs)

  -- The section stores the days and the hours with its switch off, the manager reports a restricted
  -- schedule, if both lists name something, and the safeguards let the clock pass.
  pub record IsIgnored (days hours config : Value F) (clock : Clock) : Type 0 where
    pub section : Fields F
    pub there : get config "schedule" (dict end) ≡ ok (dict section)
    pub days_stored : find_field "allowed_days" section ≡ some days
    pub hours_stored : find_field "allowed_hours" section ≡ some hours
    pub still_off : switched_on config ≡ ok false
    pub passes : check_schedule config clock ≡ ok tt
    pub reported : is_schedule_enabled config ≡ ok (truthy days && truthy hours)

  restricted-IsIgnored :
      (config' days hours : Value F) (gs fs : Fields F) (clock : Clock)
      → config' ≡ dict (set_field "schedule" (dict (restricted days hours gs)) fs)
      → (get (dict gs) "enabled" (bool false) >>= λ enabled. ok (truthy enabled)) ≡ ok false
      → IsIgnored days hours config' clock
  unfolding check_schedule is_schedule_enabled
  restricted-IsIgnored config' days hours gs fs clock same off =
      let there = find_field-set_field_self "schedule" (dict (restricted days hours gs)) fs in
      let kept : find_field "enabled" (restricted days hours gs) ≡ find_field "enabled" gs =
        find_field-set_field_other "enabled" "allowed_hours" hours
          (set_field "allowed_days" days gs) refl
        ∙ find_field-set_field_other "enabled" "allowed_days" days gs refl in
      let days_there : find_field "allowed_days" (restricted days hours gs) ≡ some days =
        find_field-set_field_other "allowed_days" "allowed_hours" hours
          (set_field "allowed_days" days gs) refl
        ∙ find_field-set_field_self "allowed_days" days gs in
      let hours_there =
        find_field-set_field_self "allowed_hours" hours (set_field "allowed_days" days gs) in
      let says_off : truthy (value_or (bool false) (find_field "enabled" gs)) ≡ false = cc off in
      record {
        section = restricted days hours gs;
        there = rw (same, there) refl;
        days_stored = days_there;
        hours_stored = hours_there;
        still_off = rw (same, there, kept, says_off) refl;
        passes = rw (same, there, kept, says_off) refl;
        reported = rw (same, there, days_there, hours_there) refl;
      }

  both_set :
      (config config' days hours : Value F) (put : Value F)
      → IsPut "schedule" "allowed_days" days config put
      → set_in put "schedule" "allowed_hours" hours ≡ ok config'
      → switched_on config ≡ ok false
      → (clock : Clock) → IsIgnored days hours config' clock
  both_set config config' days hours put p set off clock =
      let gs' = set_field "allowed_days" days p.gs in
      let fs' = set_field "schedule" (dict gs') p.opened in
      let made =
        set_in_lem "schedule" "allowed_hours" hours fs' gs'
          (find_field-set_field_self "schedule" (dict gs') p.opened) in
      let same : config' ≡ dict (set_field "schedule" (dict (restricted days hours p.gs)) fs') =
        cc (made, ap (λ c. set_in c "schedule" "allowed_hours" hours) p.becomes, set) in
      restricted-IsIgnored config' days hours p.gs fs' clock same
        (sym (before config p.fs p.gs p.was p.section) ∙ off)
    where
      before :
          (c : Value F) (fs gs : Fields F)
          → c ≡ dict fs
          → value_or (dict end) (find_field "schedule" fs) ≡ dict gs
          → switched_on c
            ≡ (get (dict gs) "enabled" (bool false) >>= λ enabled. ok (truthy enabled))
      before c fs gs was section = rw (was, section) refl

  put_in_steps :
      (config opened put days : Value F)
      → with_section config "schedule" (dict end) ≡ ok opened
      → set_in opened "schedule" "allowed_days" days ≡ ok put
      → put_in "schedule" "allowed_days" days config ≡ ok put
  unfolding put_in
  put_in_steps config opened put days is_open set_days = rw is_open set_days

  ignored :
      (days hours : Value F) (d d' : Disk F)
      → enable_schedule_restrictions (some days) (some hours) d ≡ (ok true, d')
      → (config : Value F) × (config' : Value F) × (d.document ≡ ok config)
        × (d'.document ≡ ok config')
        × (switched_on config ≡ ok false → (clock : Clock) → IsIgnored days hours config' clock)
  unfolding enable_schedule_restrictions
  ignored days hours d d' h =
      let (config, config', loaded, changed, stored) = edit_stored _ d d' h in
      let (opened, is_open, rest) =
        >>=-eq-ok (with_section config "schedule" (dict end)) _ changed in
      let (put, set_days, set_hours) =
        >>=-eq-ok (set_in opened "schedule" "allowed_days" days) _ rest in
      let whole = put_in_steps config opened put days is_open set_days in
      (
        config,
        config',
        loaded,
        stored,
        both_set config config' days hours put
            (put_in-IsPut "schedule" "allowed_days" days config put whole) set_hours,
      )

  -- Where the switch of the schedule is off or missing, restricting the schedule stores the days and
  -- the hours in its section and leaves the switch off. The manager then reports a restricted
  -- schedule, if both lists name something, and the safeguards let every day and every hour pass.
  pub check_schedule-enable_schedule_restrictions :
      (days hours config : Value F) (d d' : Disk F) (clock : Clock)
      → d.document ≡ ok config
      → switched_on config ≡ ok false
      → enable_schedule_restrictions (some days) (some hours) d ≡ (ok true, d')
      → (config' : Value F) × (d'.document ≡ ok config') × IsIgnored days hours config' clock
  check_schedule-enable_schedule_restrictions days hours config d d' clock loaded off h =
      let (old, config', loaded', stored, passes) = ignored days hours d d' h in
      let same : config ≡ old = ok_inj (sym loaded ∙ loaded') in
      (config', stored, passes (subst (λ c. switched_on c ≡ ok false) same off) clock)
