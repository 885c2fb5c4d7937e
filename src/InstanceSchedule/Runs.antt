-- ===== src/InstanceSchedule/Runs.antt =====
-- ui/jobs.py, `_run_instance_schedule`: what a run sends, and what becomes of each target.
use wasteless.Common.{
  or-false-left, or-false-right, String, ◌≡◌, refl, ap, ◌∙◌, inl, inr, Bool, true, false, not, ◌||◌,
  Option, none, List, [], ◌∷◌, str_eq, any, keep, All, Bool-cases, Option-cases, is_some,
  if◌then◌else◌,
}
use wasteless.Python.{Result, ok, Result-cases}
use wasteless.Store.{ActionStatus}
use wasteless.Remediators.{Write}
use wasteless.InstanceSchedule.{
  Plant, Night, Tagged, Direction, stop, start, Ran, skipped, done, wanted, is_dry, is_protected,
  targets, write, act_on, act_on_each, run_on, with_client, run_instance_schedule,
  log_schedule_action,
}

-- The requests for the instances, in their order, before those of `ws`.
abbrev pub sent : Direction → List String → List Write → List Write
sent a [] ws = ws
sent a (id ∷ ids) ws = sent a ids (write a id ∷ ws)

-- The request for an instance goes through, or there is none since the run is dry.
abbrev pub works : Plant → Direction → String → Bool
works p a id = is_dry p || not (is_some (p.answer (write a id)))

-- A request that stops or starts the instance.
abbrev pub is_about : String → Write → Bool
is_about id (Write.stop_instances j) = str_eq id j
is_about id (Write.start_instances j) = str_eq id j
is_about id _ = false

is_about-write : (id j : String) (a : Direction) → is_about id (write a j) ≡ str_eq id j
is_about-write id j stop = refl
is_about-write id j start = refl

sent_about :
    (a : Direction) (id : String) (ids : List String) (ws : List Write)
    → any (str_eq id) ids ≡ false
    → any (is_about id) (sent a ids ws) ≡ any (is_about id) ws
sent_about a id [] ws h = refl
sent_about a id (j ∷ ids) ws h =
    sent_about a id ids (write a j ∷ ws) (or-false-right (str_eq id j) _ h)
    ∙ rw (is_about-write id j a, or-false-left (str_eq id j) _ h) refl

unsent :
    (dry : Bool) (a : Direction) (id : String) (ids : List String) (ws : List Write)
    → any (str_eq id) ids ≡ false
    → any (is_about id) (if dry then ws else sent a ids ws) ≡ any (is_about id) ws
unsent true a id ids ws h = refl
unsent false a id ids ws h = sent_about a id ids ws h

nothing_sent : (dry : Bool) (ws : List Write) → ws ≡ (if dry then ws else ws)
nothing_sent true ws = refl
nothing_sent false ws = refl

sorted :
    (b : Bool) (id : String) (pair : List String × List String) (xs ys : List String)
    → pair ≡ (xs, ys)
    → ◌≡◌ {A = List String × List String}
        (if b then (id ∷ pair.0, pair.1) else (pair.0, id ∷ pair.1))
        (if b then id ∷ xs else xs, if not b then id ∷ ys else ys)
sorted true id pair xs ys h = ap (λ q. (id ∷ q.0, q.1)) h
sorted false id pair xs ys h = ap (λ q. (q.0, id ∷ q.1)) h

sorted_as :
    (c b : Bool) (id : String) (pair : List String × List String) (xs ys : List String)
    → c ≡ b
    → pair ≡ (xs, ys)
    → ◌≡◌ {A = List String × List String}
        (if c then (id ∷ pair.0, pair.1) else (pair.0, id ∷ pair.1))
        (if b then id ∷ xs else xs, if not b then id ∷ ys else ys)
sorted_as c b id pair xs ys e h = rw e (sorted b id pair xs ys h)

sent_on :
    (dry : Bool) (a : Direction) (x : Write) (ids : List String) (ws us vs : List Write)
    → us ≡ (if dry then ws else x ∷ ws)
    → vs ≡ (if dry then us else sent a ids us)
    → vs ≡ (if dry then ws else sent a ids (x ∷ ws))
sent_on true a x ids ws us vs h k = k ∙ h
sent_on false a x ids ws us vs h k = k ∙ ap (sent a ids) h

spared_ids :
    (whitelist : List String) (id : String) (is : List Tagged)
    → All (λ i. str_eq id i.id ≡ true → is_protected whitelist i ≡ true) is
    → any (str_eq id) (targets whitelist is) ≡ false
unfolding targets
spared_ids whitelist id [] spared = refl
spared_ids whitelist id (i ∷ is) spared = elim (Bool-cases (is_protected whitelist i)) [
  | inl safe ↦ rw safe (spared_ids whitelist id is spared.1)
  | inr free ↦ elim (Bool-cases (str_eq id i.id)) [
    | inl named ↦ cc (spared.0 named, free)
    | inr other ↦ rw (free, other) (spared_ids whitelist id is spared.1)
  ]
]

module _ {F : Type 0} (p : Plant) where
  logged_writes :
      (id t : String) (status : ActionStatus) (dry : Bool) (e : Option String) (w : Night F)
      → (log_schedule_action p id t status dry e w).writes ≡ w.writes
  unfolding log_schedule_action
  logged_writes id t status dry e w = elim (Bool-cases (p.logs id)) [
    | inl kept ↦ rw kept refl
    | inr lost ↦ rw lost refl
  ]

  act_on_lem :
      (a : Direction) (id : String) (w : Night F)
      → ((act_on p a id w).0 ≡ works p a id)
        × ((act_on p a id w).1.writes ≡ (if is_dry p then w.writes else write a id ∷ w.writes))
  unfolding act_on
  act_on_lem a id w = elim (Bool-cases (is_dry p)) [
    | inl dry ↦ rw dry (refl, logged_writes id _ _ _ _ w)
    | inr live ↦ elim (Option-cases (p.answer (write a id))) [
      | inl through ↦ rw (live, through) (refl, logged_writes id _ _ _ _ _)
      | inr (text, failed) ↦ rw (live, failed) (refl, logged_writes id _ _ _ _ _)
    ]
  ]

  act_on_each_lem :
      (a : Direction) (ids : List String) (w : Night F)
      → ((act_on_each p a ids w).0 ≡ (keep (works p a) ids, keep (λ id. not (works p a id)) ids))
        × ((act_on_each p a ids w).1.writes ≡ (if is_dry p then w.writes else sent a ids w.writes))
  unfolding act_on_each
  act_on_each_lem a [] w = (refl, nothing_sent (is_dry p) w.writes)
  act_on_each_lem a (id ∷ ids) w =
      let (acted, w') = act_on p a id w in
      let one = act_on_lem a id w in
      let rest = act_on_each_lem a ids w' in
      (
        sorted_as acted (works p a id) id _ _ _ (one.0) (rest.0),
        sent_on (is_dry p) a (write a id) ids _ _ _ (one.1) (rest.1),
      )

  on_enabled :
      (a : Direction) (w : Night F) (b : Bool)
      → p.schedule.enabled ≡ b
      → run_instance_schedule p a w ≡ (if b then with_client p a p.no_client w else (ok skipped, w))
  unfolding run_instance_schedule
  on_enabled a w b h = ap (λ x. if x then with_client p a p.no_client w else (ok skipped, w)) h

  run_answered :
      (a : Direction) (is : List Tagged) (w : Night F)
      → p.schedule.enabled ≡ true
      → p.no_client ≡ none
      → p.describe p.schedule.tag_key p.schedule.tag_value (wanted a) ≡ ok is
      → run_instance_schedule p a w ≡ run_on p a (ok is) w
  run_answered a is w on client answer =
      on_enabled a w true on
      ∙ ap (λ c. with_client p a c w) client
      ∙ ap (λ r. run_on p a r w) answer

  -- A run that is enabled, has a client and is answered acts on each target once, in order. In a dry
  -- run it sends nothing and counts every target as acted on; else it sends one request for each,
  -- and the targets whose request fails are those that it returns as failed.
  pub run_instance_schedule_lem :
      (a : Direction) (is : List Tagged) (w : Night F)
      → p.schedule.enabled ≡ true
      → p.no_client ≡ none
      → p.describe p.schedule.tag_key p.schedule.tag_value (wanted a) ≡ ok is
      → let ids = targets p.whitelist is in
        ((run_instance_schedule p a w).0
          ≡ ok (done (is_dry p) (keep (works p a) ids) (keep (λ id. not (works p a id)) ids)))
        × ((run_instance_schedule p a w).1.writes
            ≡ (if is_dry p then w.writes else sent a ids w.writes))
  run_instance_schedule_lem a is w on client answer =
      let each = act_on_each_lem a (targets p.whitelist is) w in
      let run = run_answered a is w on client answer in
      (
        ap (λ r. r.0) run ∙ ap (λ pair. ok (done (is_dry p) pair.0 pair.1)) (each.0),
        ap (λ r. r.1.writes) run ∙ each.1,
      )

  -- An instance that is protected wherever AWS lists it, because the whitelist names it or because it
  -- belongs to an Auto Scaling group, gets no request from a run, whatever the settings and whatever
  -- fails.
  pub run_instance_schedule_spares :
      (a : Direction) (id : String) (w : Night F)
      → ((is : List Tagged)
          → p.describe p.schedule.tag_key p.schedule.tag_value (wanted a) ≡ ok is
          → All (λ i. str_eq id i.id ≡ true → is_protected p.whitelist i ≡ true) is)
      → any (is_about id) (run_instance_schedule p a w).1.writes ≡ any (is_about id) w.writes
  run_instance_schedule_spares a id w spared = elim (Bool-cases p.schedule.enabled) [
    | inr off ↦ ap counted (on_enabled a w false off)
    | inl on ↦ elim (Option-cases p.no_client) [
      | inr (e, failed) ↦ ap counted (on_enabled a w true on ∙ ap (λ c. with_client p a c w) failed)
      | inl client ↦
          elim (Result-cases (p.describe p.schedule.tag_key p.schedule.tag_value (wanted a))) [
            | inr (e, raises) ↦ ap counted (
                on_enabled a w true on
                ∙ ap (λ c. with_client p a c w) client
                ∙ ap (λ r. run_on p a r w) raises)
            | inl (is, answer) ↦
                let ids = targets p.whitelist is in
                ap counted (run_answered a is w on client answer)
                ∙ ap (any (is_about id)) ((act_on_each_lem a ids w).1)
                ∙ unsent (is_dry p) a id ids w.writes
                    (spared_ids p.whitelist id is (spared is answer))
          ]
    ]
  ]
    where
      counted : Result Ran × Night F → Bool
      counted r = any (is_about id) r.1.writes
