-- ===== src/InstanceSchedule/Tests.antt =====
-- A run over three instances, of which one is on the whitelist and one answers with an error.
use wasteless.Common.{
  String, ◌≡◌, refl, true, false, none, some, List, [], ◌∷◌, str_eq, any, not, keep, All, subst,
}
use wasteless.Common.Int.{ℤ, pos}
use wasteless.Python.{ok, Result}
use wasteless.Remediators.{Write}
use wasteless.Store.{insert_action}
use wasteless.InstanceSchedule.{
  Plant, Night, Tagged, Schedule, Direction, stop, start, done, run_instance_schedule, act_on_each,
  act_on, log_schedule_action, targets, is_protected,
}
use wasteless.InstanceSchedule.Runs.{
  is_about, works, sent, run_instance_schedule_lem, run_instance_schedule_spares,
}
use wasteless.InstanceSchedule.Cron.{Job, job_of}

abbrev schedule : Schedule
schedule = record {
  enabled = true;
  stop_time = "19:00";
  start_time = "08:00";
  days = "mon" ∷ "tue" ∷ [];
  timezone = "Europe/Paris";
  tag_key = "wasteless:schedule";
  tag_value = "office-hours";
  dry_run = false;
}

abbrev tagged : String → Tagged
tagged i = record { id = i; tags = [] }

abbrev instances : List Tagged
instances = tagged "i-1" ∷ tagged "i-2" ∷ tagged "i-3" ∷ []

abbrev plant : Plant
plant = record {
  schedule = schedule;
  dry_run = false;
  whitelist = "i-2" ∷ [];
  no_client = none;
  describe = λ _ _ _. ok instances;
  answer = λ w. elim w [
    | Write.stop_instances i ↦ elim (str_eq i "i-3") [
      | true ↦ some "UnauthorizedOperation"
      | false ↦ none
    ]
    | _ ↦ none
  ];
  logs = λ _. true;
}

abbrev night : Night ℤ
night = record {
  store = record {
    wastes = [];
    recommendations = [];
    actions_log = [];
    rollbacks = [];
    next_action = 1;
    next_rollback = 1;
  };
  writes = [];
}

run : (run_instance_schedule plant stop night).0 ≡ ok (done false ("i-1" ∷ []) ("i-3" ∷ []))
unfolding run_instance_schedule act_on_each act_on log_schedule_action targets insert_action
run = refl

run_instance_schedule_lem_example :
    ((run_instance_schedule plant stop night).0
      ≡ ok (
          done false
            (keep (works plant stop) (targets plant.whitelist instances))
            (keep (λ id. not (works plant stop id)) (targets plant.whitelist instances))))
    × ((run_instance_schedule plant stop night).1.writes
        ≡ sent stop (targets plant.whitelist instances) [])
run_instance_schedule_lem_example =
    run_instance_schedule_lem plant stop instances night refl refl refl

whitelisted :
    (is : List Tagged)
    → ok instances ≡ ok is
    → All (λ i. str_eq "i-2" i.id ≡ true → is_protected ("i-2" ∷ []) i ≡ true) is
whitelisted is h =
    subst (All (λ i. str_eq "i-2" i.id ≡ true → is_protected ("i-2" ∷ []) i ≡ true)) (ok_inj h)
      (λ h. cc, (λ h. refl, (λ h. cc, tt)))
  where
    ok_inj : {xs ys : List Tagged} → ok xs ≡ ok ys → xs ≡ ys
    ok_inj h = cc

run_instance_schedule_spares_example :
    any (is_about "i-2") (run_instance_schedule plant stop night).1.writes ≡ false
run_instance_schedule_spares_example =
    run_instance_schedule_spares plant stop "i-2" night whitelisted

abbrev split_time : String → Result (String × String)
split_time s = elim (str_eq s "19:00") [ true ↦ ok ("19", "00") | false ↦ ok ("08", "00") ]

abbrev to_int : String → Result ℤ
to_int s = elim (str_eq s "19") [
  | true ↦ ok (pos 19)
  | false ↦ elim (str_eq s "08") [ true ↦ ok (pos 8) | false ↦ ok (pos 0) ]
]

abbrev job : String → Direction → ℤ → Job
job i a h = record {
  id = i;
  runs = a;
  days = "mon" ∷ "tue" ∷ [];
  hour = h;
  minute = pos 0;
  timezone = "Europe/Paris";
}

abbrev stop_job : Job
stop_job = job "instance_stop" stop (pos 19)

abbrev start_job : Job
start_job = job "instance_start" start (pos 8)

makes_stop : job_of split_time to_int (λ _. ok tt) schedule stop ("19", "00") ≡ ok stop_job
unfolding job_of
makes_stop = refl

makes_start : job_of split_time to_int (λ _. ok tt) schedule start ("08", "00") ≡ ok start_job
unfolding job_of
makes_start = refl
