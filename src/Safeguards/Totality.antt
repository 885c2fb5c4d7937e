-- ===== src/Safeguards/Totality.antt =====
-- When `validate_all` returns a report, and the one kind of loaded configuration where it raises.
use wasteless.Common.{
  String, ◌≡◌, refl, ◌⊎◌, inl, inr, Bool, true, false, not, Option, some, List, [], ◌∷◌, Bool-cases,
  if◌then◌else◌, All,
}
use wasteless.Python.{
  Numbers, Value, Items, Fields, null, bool, int, float, str, list, dict, nil, cons, end, field,
  get, find_field, value_or, truthy, any_item, equals_str, Refusal, auto_disabled, whitelisted,
  safeguard, error, attribute_error, invalid_config, Result, ok, raised, ◌>>=◌, ◌>>◌, raise_if,
  >>=-eq-ok, >>-eq-ok,
}
use wasteless.Safeguards.{
  Clock, Tags, Check, Report, Request, start, later_checks, run_checks, validate_all,
  is_auto_remediation_enabled, is_whitelisted, protection, check_instance_age, get_tag, same_tag,
  rule_matches, any_rule, check_confidence_score, check_idle_duration, check_schedule,
  check_max_instances_limit, excludes, check_window, stopped, passed,
}
use wasteless.Safeguards.Config.{
  check_whitelist, check_calendar, want_list, validate_config, load_config, check_bounds,
  protection_bounds, all_weekdays,
}
use wasteless.Safeguards.Loaded.{or_empty-dict, validate_config-HasThresholds}

-- A check that passes, or that raises a SafeguardException.
abbrev Settles : Result (Unit {0}) → Type 0
Settles r = (r ≡ ok tt) ⊎ ((why : Refusal) × (r ≡ raised (safeguard why)))

run_checks_total :
    (cs : List (Check × Result (Unit {0}))) (r : Report)
    → All (λ c. Settles c.1) cs
    → (out : Report) × (run_checks cs r ≡ ok out)
unfolding run_checks
run_checks_total [] r h = (_, refl)
run_checks_total ((check, m) ∷ cs) r (inl e, h) =
    rw (e, run_checks) (run_checks_total cs (passed check r) h)
run_checks_total ((check, m) ∷ cs) r (inr (why, e), h) =
    (record r { reason = some why }, rw (e, run_checks))

raise_if-Settles : (b : Bool) (why : Refusal) → Settles (raise_if b (safeguard why))
raise_if-Settles true why = inr (why, refl)
raise_if-Settles false why = inl refl

module _ {F : Type 0} ⦃n : Numbers F⦄ where
  bounded-Settles :
      (m : Result F) (hit : F → Bool) (why : Refusal) (x : F)
      → m ≡ ok x
      → Settles (m >>= λ x. raise_if (hit x) (safeguard why))
  bounded-Settles m hit why x e = rw e (raise_if-Settles (hit x) why)

  want_list-eq-ok : (v : Value F) {xs : Items F} → want_list v ≡ ok xs → v ≡ list xs
  unfolding want_list
  want_list-eq-ok (list xs) e = cc
  want_list-eq-ok null e = cc
  want_list-eq-ok (bool b) e = cc
  want_list-eq-ok (int z) e = cc
  want_list-eq-ok (float x) e = cc
  want_list-eq-ok (str s) e = cc
  want_list-eq-ok (dict fs) e = cc

  window-Settles :
      (days hours : Items F) (p q : Value F → Bool) (a b : Refusal)
      → Settles
          (raise_if (excludes p days) (safeguard a) >> raise_if (excludes q hours) (safeguard b))
  window-Settles days hours p q a b = elim (raise_if-Settles (excludes p days) a) [
    | inl e ↦ rw e (raise_if-Settles (excludes q hours) b)
    | inr (why, e) ↦ inr (why, rw e)
  ]

  check_window-Settles :
      (s : Fields F) (clock : Clock)
      → check_calendar (dict s) ≡ ok tt
      → Settles (check_window (dict s) clock)
  unfolding check_calendar check_window
  check_window-Settles s clock e =
      let (days, days_list, e₁) =
        >>=-eq-ok (want_list (value_or (list nil) (find_field "allowed_days" s))) _ e in
      let (known, _, e₂) = >>=-eq-ok (all_weekdays days) _ e₁ in
      let (_, e₃) = >>-eq-ok (raise_if (not known) (error invalid_config)) _ e₂ in
      let (hours, hours_list, _) =
        >>=-eq-ok (want_list (value_or (list nil) (find_field "allowed_hours" s))) _ e₃ in
      rw (want_list-eq-ok _ days_list, want_list-eq-ok _ hours_list)
        (window-Settles days hours _ _ _ _)

  abbrev is_hashable : Value F → Bool
  is_hashable (list xs) = false
  is_hashable (dict fs) = false
  is_hashable _ = true

  -- The key of a whitelist rule is no list and no dict.
  abbrev HasPlainKey : Value F → Type 0
  HasPlainKey (dict fs) = is_hashable (value_or null (find_field "key" fs)) ≡ true
  HasPlainKey _ = ⊥

  abbrev pub HavePlainKeys : Items F → Type 0
  HavePlainKeys nil = Unit
  HavePlainKeys (cons rule rules) = HasPlainKey rule × HavePlainKeys rules

  get_tag_total :
      (tags : Tags) (key : Value F)
      → is_hashable key ≡ true
      → (found : Option String) × (get_tag tags key ≡ ok found)
  unfolding get_tag
  get_tag_total tags (str k) h = (_, refl)
  get_tag_total tags null h = (_, refl)
  get_tag_total tags (bool b) h = (_, refl)
  get_tag_total tags (int z) h = (_, refl)
  get_tag_total tags (float x) h = (_, refl)
  get_tag_total tags (list xs) h = cc
  get_tag_total tags (dict fs) h = cc

  rule_matches_total :
      (tags : Tags) (rule : Value F)
      → HasPlainKey rule
      → (hit : Bool) × (rule_matches tags rule ≡ ok hit)
  unfolding rule_matches
  rule_matches_total tags (dict fs) h =
      let (found, e) = get_tag_total tags (value_or null (find_field "key" fs)) h in
      (same_tag found (value_or null (find_field "value" fs)), rw e)
  rule_matches_total tags null h = absurd h
  rule_matches_total tags (bool b) h = absurd h
  rule_matches_total tags (int z) h = absurd h
  rule_matches_total tags (float x) h = absurd h
  rule_matches_total tags (str s) h = absurd h
  rule_matches_total tags (list xs) h = absurd h

  any_rule_total :
      (tags : Tags) (rules : Items F)
      → HavePlainKeys rules
      → (hit : Bool) × (any_rule tags rules ≡ ok hit)
  unfolding any_rule
  any_rule_total tags nil h = (false, refl)
  any_rule_total tags (cons rule rules) (here, later) =
      let (hit, e) = rule_matches_total tags rule here in
      let (rest, e') = any_rule_total tags rules later in
      (
        if hit then true else rest,
        elim (Bool-cases hit) [ inl yes_hit ↦ rw (e, yes_hit) | inr no_hit ↦ rw (e, no_hit) e' ],
      )

  -- The rules of a whitelist section.
  abbrev pub rules_of : Fields F → Value F
  rules_of w = value_or (list nil) (find_field "tags" w)

  is_whitelisted_total :
      (config : Value F) (w : Fields F) (rules : Items F) (id : String) (tags : Tags)
      → get config "whitelist" (dict end) ≡ ok (dict w)
      → check_whitelist (dict w) ≡ ok tt
      → rules_of w ≡ list rules
      → HavePlainKeys rules
      → (listed : Bool) × (is_whitelisted config id tags ≡ ok listed)
  unfolding is_whitelisted check_whitelist
  is_whitelisted_total config w rules id tags section e given plain =
      let (ids, ids_list, _) =
        >>=-eq-ok (want_list (value_or (list nil) (find_field "instance_ids" w))) _ e in
      let (hit, found) = any_rule_total tags rules plain in
      (
        if any_item (equals_str id) ids then true else hit,
        elim (Bool-cases (any_item (equals_str id) ids)) [
          | inl known ↦ rw (section, want_list-eq-ok _ ids_list, known)
          | inr unknown ↦ rw (section, want_list-eq-ok _ ids_list, unknown, given) found
        ],
      )

  check_schedule-Settles :
      (config : Value F) (s : Fields F) (clock : Clock)
      → get config "schedule" (dict end) ≡ ok (dict s)
      → check_calendar (dict s) ≡ ok tt
      → Settles (check_schedule config clock)
  unfolding check_schedule
  check_schedule-Settles config s clock section e =
      elim (Bool-cases (truthy (value_or (bool false) (find_field "enabled" s)))) [
        | inl on ↦ rw (section, on) (check_window-Settles s clock e)
        | inr off ↦ inl (rw (section, off))
      ]

  -- A validated configuration whose sections are dicts, with lookable keys in its whitelist.
  pub record IsLoaded (config : Value F) : Type 0 where
    pub p : Fields F
    pub w : Fields F
    pub s : Fields F
    pub a : Fields F
    pub rules : Items F
    pub protection_section : get config "protection" (dict end) ≡ ok (dict p)
    pub whitelist_section : get config "whitelist" (dict end) ≡ ok (dict w)
    pub schedule_section : get config "schedule" (dict end) ≡ ok (dict s)
    pub auto_section : get config "auto_remediation" (dict end) ≡ ok (dict a)
    pub rules_given : rules_of w ≡ list rules
    pub plain : HavePlainKeys rules
    pub validated : validate_config config ≡ ok tt

  module _ (config : Value F) (l : IsLoaded config) where
    sections_validated : (check_whitelist (dict l.w) ≡ ok tt) × (check_calendar (dict l.s) ≡ ok tt)
    unfolding validate_config
    sections_validated =
        let e =
          rw
            (
              l.protection_section,
              l.whitelist_section,
              l.schedule_section,
              or_empty-dict l.p,
              or_empty-dict l.w,
              or_empty-dict l.s,
            )
            at l.validated in
        let (_, e₁) = >>-eq-ok (check_bounds (dict l.p) protection_bounds) _ e in
        >>-eq-ok (check_whitelist (dict l.w)) _ e₁

    later_checks-Settle :
        (clock : Clock) (q : Request F) → All (λ c. Settles c.1) (later_checks config clock q)
    unfolding check_instance_age check_confidence_score check_idle_duration
        check_max_instances_limit
    later_checks-Settle clock q =
        let t = validate_config-HasThresholds config l.p l.protection_section l.validated in
        (
          bounded-Settles _ _ _ (t.age).0 (t.age).1,
          (
            bounded-Settles _ _ _ (t.confidence).0 (t.confidence).1,
            (
              bounded-Settles _ _ _ (t.idle).0 (t.idle).1,
              (
                check_schedule-Settles config l.s clock l.schedule_section (sections_validated).1,
                (bounded-Settles _ _ _ (t.limit).0 (t.limit).1, tt),
              ),
            ),
          ),
        )

-- On a validated configuration whose sections are dicts and whose whitelist rules have keys that
-- can be looked up, `validate_all` returns a report for every instance: no other exception.
pub validate_all_total :
    {F : Type 0} ⦃n : Numbers F⦄ (config : Value F) (l : IsLoaded config) (clock : Clock)
    (q : Request F)
    → (out : Report) × (validate_all config clock q ≡ ok out)
unfolding validate_all is_auto_remediation_enabled
validate_all_total config l clock q =
    let (listed, known) =
      is_whitelisted_total config l.w l.rules q.instance_id q.instance_tags l.whitelist_section
        (sections_validated config l).0 l.rules_given l.plain in
    elim (Bool-cases (truthy (value_or (bool false) (find_field "enabled" l.a)))) [
      | inr off ↦ (stopped Check.global_enabled auto_disabled start, rw (l.auto_section, off))
      | inl on ↦ elim (Bool-cases listed) [
        | inl there ↦
            (stopped Check.whitelist whitelisted start, rw (l.auto_section, on, known, there))
        | inr free ↦
            rw (l.auto_section, on, known, free)
              (run_checks_total (later_checks config clock q) (passed Check.whitelist start)
                (later_checks-Settle config l clock q))
      ]
    ]

-- `protection:` with nothing behind it is loaded just as an empty section is, since the validation
-- reads null as empty, but the checks read it as null. On every document that loads with an empty
-- section, whose sections are dicts and whose whitelist rules have plain keys: with null in its
-- place it loads, too; where automation is on and the instance is not whitelisted, `validate_all`
-- then raises an AttributeError, while with the empty section it returns a report.
pub validate_all_null_section :
    {F : Type 0} ⦃n : Numbers F⦄ (fs : Fields F)
    (l : IsLoaded (dict (field "protection" (dict end) fs))) (clock : Clock) (q : Request F)
    → let config = dict (field "protection" null fs) in
      is_auto_remediation_enabled config ≡ ok true
      → is_whitelisted config q.instance_id q.instance_tags ≡ ok false
      → (load_config config ≡ ok config)
        × (validate_all config clock q ≡ raised (error attribute_error))
        × ((out : Report) × (validate_all (dict (field "protection" (dict end) fs)) clock q
              ≡ ok out))
unfolding validate_all check_instance_age protection load_config validate_config
validate_all_null_section fs l clock q on free = (
  rw l.validated refl,
  rw (on, free) refl,
  validate_all_total (dict (field "protection" (dict end) fs)) l clock q,
)
