-- ===== src/Safeguards/Checks.antt =====
-- What each safeguard check means, and when `validate_all` lets an instance through.
use wasteless.Common.{
  ◌≡◌, refl, ◌↔◌, ◌⊎◌, inl, inr, Bool, true, false, some, List, [], ◌∷◌, arith, All, Bool-cases,
  if◌then◌else◌,
}
use mathlib.Core.Bool.{false≢true}
use wasteless.Common.Int.{pos}
use wasteless.Python.{
  Refusal, Numbers, Value, Items, null, str, bool, int, float, list, dict, nil, cons, end, get,
  truthy, any_item, equals_str, equals_int, Exn, outside_days, safeguard, error, Result, ok, raised,
  ◌>>=◌, raise_if, >>=-eq-ok, >>-eq-ok, whitelisted,
}
use wasteless.Safeguards.{
  stopped, passed, excludes, check_window, items_of, Clock, Check, Report, Request, start,
  later_checks, run_checks, validate_all, is_auto_remediation_enabled, is_whitelisted, protection,
  check_instance_age, check_confidence_score, check_idle_duration, check_schedule,
  check_max_instances_limit, days_between,
}

-- A bound that is read and then compared: it passes exactly when it can be read and is not hit.
bounded_iff :
    {F : Type 0} (m : Result F) (hit : F → Bool) (e : Exn)
    → ((m >>= λ x. raise_if (hit x) e) ≡ ok tt) ↔ ((x : F) × (m ≡ ok x) × (hit x ≡ false))
bounded_iff (ok x) hit e = elim (Bool-cases (hit x)) [
  | inl h ↦ ((λ p. cc (rw h at p)), (λ r. ground arith))
  | inr h ↦ ((λ p. (x, refl, h)), (λ r. rw h))
]
bounded_iff (raised e') hit e = ((λ p. cc), (λ r. cc))

-- The row of checks ends in a safe report exactly when every check passes.
run_checks_iff :
    (cs : List (Check × Result (Unit {0}))) (r : Report) {out : Report}
    → r.safe_to_proceed ≡ false
    → run_checks cs r ≡ ok out
    → (out.safe_to_proceed ≡ true) ↔ All (λ c. c.1 ≡ ok tt) cs
unfolding run_checks
run_checks_iff [] r fresh e = ((λ h. tt), (λ h. ground arith))
run_checks_iff ((check, ok _) ∷ cs) r fresh e =
    let (to, from) = run_checks_iff cs _ fresh e in ((λ h. (refl, to h)), (λ h. from h.1))
run_checks_iff ((check, raised (safeguard why)) ∷ cs) r fresh e =
    ((λ h. absurd (false≢true (ground arith))), (λ h. cc (h.0)))
run_checks_iff ((check, raised (error f)) ∷ cs) r fresh e = cc

-- What a row of checks leaves behind when it does not end in a safe report.
run_checks-reason :
    (cs : List (Check × Result (Unit {0}))) (r : Report) {out : Report}
    → run_checks cs r ≡ ok out
    → out.safe_to_proceed ≡ false
    → (why : Refusal) × (out.reason ≡ some why)
unfolding run_checks
run_checks-reason [] r e unsafe = cc
run_checks-reason ((check, ok _) ∷ cs) r e unsafe = run_checks-reason cs _ e unsafe
run_checks-reason ((check, raised (safeguard why)) ∷ cs) r e unsafe = (why, ground arith)
run_checks-reason ((check, raised (error f)) ∷ cs) r e unsafe = cc

excludes_iff :
    {F : Type 0} ⦃n : Numbers F⦄ (is_now : Value F → Bool) (xs : Items F) (e : Exn)
    → (raise_if (excludes is_now xs) e ≡ ok tt) ↔ ((xs ≡ nil) ⊎ (any_item is_now xs ≡ true))
excludes_iff is_now nil e = ((λ p. inl refl), (λ p. refl))
excludes_iff is_now (cons v vs) e = ground arith

items_of-eq-ok :
    {F : Type 0} ⦃n : Numbers F⦄ (v : Value F) {xs : Items F} → items_of v ≡ ok xs → v ≡ list xs
unfolding items_of
items_of-eq-ok (list xs) e = cc
items_of-eq-ok null e = cc
items_of-eq-ok (bool b) e = cc
items_of-eq-ok (int z) e = cc
items_of-eq-ok (float x) e = cc
items_of-eq-ok (str s) e = cc
items_of-eq-ok (dict fs) e = cc

module _ {F : Type 0} ⦃n : Numbers F⦄ (config : Value F) (clock : Clock) where
  -- Each list of the schedule is empty or has the present moment.
  abbrev pub IsWithin : Value F → Type 0
  IsWithin section =
      (days : Items F) × (hours : Items F) × (get section "allowed_days" (list nil)
        ≡ ok (list days))
      × (get section "allowed_hours" (list nil) ≡ ok (list hours))
      × ((days ≡ nil) ⊎ (any_item (equals_str clock.day) days ≡ true))
      × ((hours ≡ nil) ⊎ (any_item (equals_int (pos clock.hour)) hours ≡ true))

  -- The schedule is off, or the present moment is within it.
  abbrev pub IsOpen : Type 0
  IsOpen =
      (section : Value F) × (enabled : Value F) × (get config "schedule" (dict end) ≡ ok section)
      × (get section "enabled" (bool false) ≡ ok enabled)
      × ((truthy enabled ≡ false) ⊎ IsWithin section)

  -- What `validate_all` asks of an instance before it may be touched.
  pub record IsPermitted (q : Request F) : Type 0 where
    pub enabled : is_auto_remediation_enabled config ≡ ok true
    pub unlisted : is_whitelisted config q.instance_id q.instance_tags ≡ ok false
    pub old_enough :
        (bound : F) × (protection config "min_instance_age_days" (int (pos 30)) ≡ ok bound)
        × (n.lt (n.of_int (days_between q.launch_time clock.now)) bound ≡ false)
    pub sure_enough :
        (bound : F) × (protection config "min_confidence_score" (float (n.decimal 8 1)) ≡ ok bound)
        × (n.lt q.score bound ≡ false)
    pub idle_enough :
        (bound : F) × (protection config "min_idle_days" (int (pos 14)) ≡ ok bound)
        × (n.lt (n.of_int q.idle_days) bound ≡ false)
    pub in_schedule : IsOpen
    pub below_limit :
        (bound : F) × (protection config "max_instances_per_run" (int (pos 3)) ≡ ok bound)
        × (n.le bound (n.of_int (pos q.current_count)) ≡ false)

  check_window_iff : (section : Value F) → (check_window section clock ≡ ok tt) ↔ IsWithin section
  unfolding check_window items_of
  check_window_iff section = (to, from)
    where
      to : check_window section clock ≡ ok tt → IsWithin section
      to e =
          let (allowed_days, days_found, e₁) =
            >>=-eq-ok (get section "allowed_days" (list nil)) _ e in
          let (allowed_hours, hours_found, e₂) =
            >>=-eq-ok (get section "allowed_hours" (list nil)) _ e₁ in
          let (days, days_list, e₃) = >>=-eq-ok (items_of allowed_days) _ e₂ in
          let (day_passed, e₄) =
            >>-eq-ok (raise_if (excludes (equals_str clock.day) days) (safeguard outside_days)) _
              e₃ in
          let (hours, hours_list, hour_passed) = >>=-eq-ok (items_of allowed_hours) _ e₄ in
          (
            days,
            hours,
            rw (items_of-eq-ok allowed_days days_list) at days_found,
            rw (items_of-eq-ok allowed_hours hours_list) at hours_found,
            (excludes_iff (equals_str clock.day) days (safeguard outside_days)).0 day_passed,
            (excludes_iff _ _ _).0 hour_passed,
          )

      from : IsWithin section → check_window section clock ≡ ok tt
      from (days, hours, days_found, hours_found, day_in, hour_in) =
          rw
            (
              days_found,
              hours_found,
              (excludes_iff (equals_str clock.day) days (safeguard outside_days)).1 day_in,
            )
            ((excludes_iff _ hours _).1 hour_in)

  check_schedule_iff : (check_schedule config clock ≡ ok tt) ↔ IsOpen
  unfolding check_schedule
  check_schedule_iff = (to, from)
    where
      to : check_schedule config clock ≡ ok tt → IsOpen
      to e =
          let (section, found, e₁) = >>=-eq-ok (get config "schedule" (dict end)) _ e in
          let (enabled, switch, e₂) = >>=-eq-ok (get section "enabled" (bool false)) _ e₁ in
          (
            section,
            enabled,
            found,
            switch,
            elim (Bool-cases (truthy enabled)) [
              | inr off ↦ inl off
              | inl on ↦ inr ((check_window_iff section).0 (rw on at e₂))
            ],
          )

      from : IsOpen → check_schedule config clock ≡ ok tt
      from (section, enabled, found, switch, inl off) = rw (found, switch, off)
      from (section, enabled, found, switch, inr within) = elim (Bool-cases (truthy enabled)) [
        | inr off ↦ rw (found, switch, off)
        | inl on ↦ rw (found, switch, on) ((check_window_iff section).1 within)
      ]

  later_checks_iff :
      (q : Request F)
      → is_auto_remediation_enabled config ≡ ok true
      → is_whitelisted config q.instance_id q.instance_tags ≡ ok false
      → All (λ c. c.1 ≡ ok tt) (later_checks config clock q) ↔ IsPermitted q
  unfolding check_instance_age check_confidence_score check_idle_duration check_max_instances_limit
  later_checks_iff q enabled unlisted = (
    (λ (age, (sure, (idle, (open_now, (limit, _))))). record {
      enabled = enabled;
      unlisted = unlisted;
      old_enough = (bounded_iff _ _ _).0 age;
      sure_enough = (bounded_iff _ _ _).0 sure;
      idle_enough = (bounded_iff _ _ _).0 idle;
      in_schedule = check_schedule_iff.0 open_now;
      below_limit = (bounded_iff _ _ _).0 limit;
    }),
    (λ p. (
      (bounded_iff _ _ _).1 p.old_enough,
      (
        (bounded_iff _ _ _).1 p.sure_enough,
        (
          (bounded_iff _ _ _).1 p.idle_enough,
          (check_schedule_iff.1 p.in_schedule, ((bounded_iff _ _ _).1 p.below_limit, tt)),
        ),
      ),
    )),
  )

module _ {F : Type 0} ⦃n : Numbers F⦄ (config : Value F) (clock : Clock) (q : Request F)
    (enabled : is_auto_remediation_enabled config ≡ ok true) where
  listed_iff :
      (listed : Bool) {out : Report}
      → is_whitelisted config q.instance_id q.instance_tags ≡ ok listed
      → (if listed
          then ok (stopped Check.whitelist whitelisted start)
          else run_checks (later_checks config clock q) (passed Check.whitelist start))
        ≡ ok out
      → (out.safe_to_proceed ≡ true) ↔ IsPermitted config clock q
  listed_iff true found e = ((λ safe. cc), (λ p. cc (p.unlisted)))
  listed_iff false found e =
      let (to, from) = run_checks_iff (later_checks config clock q) _ refl e in
      let (means, meant) = later_checks_iff config clock q enabled found in
      ((λ safe. means (to safe)), (λ p. from (meant p)))

enabled_iff :
    {F : Type 0} ⦃n : Numbers F⦄ (config : Value F) (clock : Clock) (q : Request F) (enabled : Bool)
    {out : Report}
    → is_auto_remediation_enabled config ≡ ok enabled
    → validate_all config clock q ≡ ok out
    → (out.safe_to_proceed ≡ true) ↔ IsPermitted config clock q
unfolding validate_all
enabled_iff config clock q true auto e =
    let (listed, found, e₁) =
      >>=-eq-ok (is_whitelisted config q.instance_id q.instance_tags) _ (rw auto at e) in
    listed_iff config clock q auto listed found e₁
enabled_iff config clock q false auto e =
    let same = rw auto at e in ((λ safe. cc), (λ p. cc (p.enabled)))

-- A report is safe exactly when automation is on, the instance is on no whitelist, it is old enough,
-- the detection sure enough and the idleness long enough for the configured bounds, the schedule is
-- open, and the limit of this run is not reached.
pub validate_all_iff :
    {F : Type 0} ⦃n : Numbers F⦄ (config : Value F) (clock : Clock) (q : Request F) {out : Report}
    → validate_all config clock q ≡ ok out
    → (out.safe_to_proceed ≡ true) ↔ IsPermitted config clock q
unfolding validate_all
validate_all_iff config clock q e =
    let (enabled, auto, _) = >>=-eq-ok (is_auto_remediation_enabled config) _ e in
    enabled_iff config clock q enabled auto e
