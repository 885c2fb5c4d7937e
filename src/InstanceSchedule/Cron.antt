-- ===== src/InstanceSchedule/Cron.antt =====
-- ui/jobs.py, `reschedule_instance_jobs`: the cron jobs behind the instance schedule.
--
-- The scheduler is the list of its jobs. `int()` of a text and the checks of CronTrigger are
-- arguments.
use wasteless.Common.{
  or-false-left, or-false-right, String, ◌≡◌, refl, ap, ◌∙◌, inl, inr, Bool, true, false, not, ◌||◌,
  List, [], ◌∷◌, str_eq, keep, if◌then◌else◌, Bool-cases,
}
use wasteless.Common.Int.{ℤ}
use wasteless.Python.{Result, ok, raised, ◌>>=◌, >>=-eq-ok}
use wasteless.InstanceSchedule.{Schedule, Direction, stop, start}

pub record Job : Type 0 where
  pub id : String
  pub runs : Direction
  pub days : List String
  pub hour : ℤ
  pub minute : ℤ
  pub timezone : String

abbrev pub job_id : Direction → String
job_id stop = "instance_stop"
job_id start = "instance_start"

-- The two jobs that the schedule owns.
abbrev pub is_ours : Job → Bool
is_ours j = str_eq j.id "instance_stop" || str_eq j.id "instance_start"

-- `scheduler.remove_job`, with a job that is not there caught
unfoldable pub remove_job : String → List Job → List Job
remove_job id jobs = keep (λ j. not (str_eq j.id id)) jobs

-- `scheduler.add_job(…, replace_existing=True)`
unfoldable pub add_job : Job → List Job → List Job
add_job job jobs = job ∷ remove_job job.id jobs

module _ (split_time : String → Result (String × String)) (to_int : String → Result ℤ)
    (check_trigger : Job → Result (Unit {0})) (s : Schedule) where
  unfoldable pub job_of : Direction → String × String → Result Job
  job_of a (hour, minute) = do
    h ← to_int hour
    m ← to_int minute
    let job : Job = record {
      id = job_id a;
      runs = a;
      days = s.days;
      hour = h;
      minute = m;
      timezone = s.timezone;
    }
    check_trigger job >>= λ _. ok job

  -- A job that cannot be made raises and leaves the jobs as they are.
  abbrev pub added : Result Job → List Job → Result (Unit {0}) × List Job
  added (raised e) jobs = (raised e, jobs)
  added (ok job) jobs = (ok tt, add_job job jobs)

  abbrev pub second : String × String → Result (Unit {0}) × List Job → Result (Unit {0}) × List Job
  second time (raised e, jobs) = (raised e, jobs)
  second time (ok _, jobs) = added (job_of start time) jobs

  abbrev pub both :
      Result ((String × String) × (String × String)) → List Job → Result (Unit {0}) × List Job
  both (raised e) jobs = (raised e, jobs)
  both (ok (stop_at, start_at)) jobs = second start_at (added (job_of stop stop_at) jobs)

  unfoldable pub reschedule_instance_jobs : List Job → Result (Unit {0}) × List Job
  reschedule_instance_jobs jobs =
      let cleared = remove_job "instance_start" (remove_job "instance_stop" jobs) in
      if s.enabled
      then both
          (split_time s.stop_time >>= λ stop_at.
            split_time s.start_time >>= λ start_at. ok (stop_at, start_at))
          cleared
      else (ok tt, cleared)

keep_both :
    (jobs : List Job)
    → remove_job "instance_start" (remove_job "instance_stop" jobs)
      ≡ keep (λ j. not (is_ours j)) jobs
unfolding remove_job
keep_both [] = refl
keep_both (j ∷ jobs) = elim (Bool-cases (str_eq j.id "instance_stop")) [
  | inl hit ↦ rw hit (keep_both jobs)
  | inr other ↦ elim (Bool-cases (str_eq j.id "instance_start")) [
    | inl hit ↦ rw (other, hit) (keep_both jobs)
    | inr neither ↦ rw (other, neither) (ap (λ rest. j ∷ rest) (keep_both jobs))
  ]
]

remove_others :
    (a : Direction) (jobs : List Job)
    → remove_job (job_id a) (keep (λ j. not (is_ours j)) jobs) ≡ keep (λ j. not (is_ours j)) jobs
unfolding remove_job
remove_others a [] = refl
remove_others a (j ∷ jobs) = elim (Bool-cases (is_ours j)) [
  | inl ours ↦ rw ours (remove_others a jobs)
  | inr other ↦ rw (other, not_named a j other) (ap (λ rest. j ∷ rest) (remove_others a jobs))
]
  where
    not_named : (a : Direction) (j : Job) → is_ours j ≡ false → str_eq j.id (job_id a) ≡ false
    not_named stop j h = or-false-left _ _ h
    not_named start j h = or-false-right _ _ h

module _ (split_time : String → Result (String × String)) (to_int : String → Result ℤ)
    (check_trigger : Job → Result (Unit {0})) (s : Schedule) where
  job_of_id :
      (a : Direction) (time : String × String) (j : Job)
      → job_of split_time to_int check_trigger s a time ≡ ok j
      → j.id ≡ job_id a
  unfolding job_of
  job_of_id a (hour, minute) j h =
      let (m, _, rest) = >>=-eq-ok (to_int hour) _ h in
      let (m', _, rest') = >>=-eq-ok (to_int minute) _ rest in
      let (u, _, made) = >>=-eq-ok (check_trigger _) _ rest' in cc made

  abbrev rest : List Job → List Job
  rest jobs = keep (λ j. not (is_ours j)) jobs

  added_lem :
      (a : Direction) (time : String × String) (j : Job) (jobs rest : List Job)
      → job_of split_time to_int check_trigger s a time ≡ ok j
      → remove_job (job_id a) jobs ≡ rest
      → added split_time to_int check_trigger s
          (job_of split_time to_int check_trigger s a time)
          jobs
        ≡ (ok tt, j ∷ rest)
  unfolding add_job
  added_lem a time j jobs rest made cleared =
      ap (λ r. added split_time to_int check_trigger s r jobs) made
      ∙ ap (λ kept. (ok tt, j ∷ kept))
          (ap (λ id. remove_job id jobs) (job_of_id a time j made) ∙ cleared)

  stop_kept :
      (time : String × String) (j : Job) (jobs : List Job)
      → job_of split_time to_int check_trigger s stop time ≡ ok j
      → remove_job (job_id start) (j ∷ rest jobs) ≡ j ∷ rest jobs
  unfolding remove_job
  stop_kept time j jobs made =
      let other : str_eq j.id "instance_start" ≡ false =
        ap (λ id. str_eq id "instance_start") (job_of_id stop time j made) in
      rw other (ap (λ rest. j ∷ rest) (remove_others start jobs))

  -- Once a schedule that is on is read and its two jobs can be made, the scheduler holds just these of
  -- its own, beside the jobs that it held for others, whatever it held of its own before.
  pub reschedule_instance_jobs_set :
      (jobs : List Job) (stop_at start_at : String × String) (j k : Job)
      → s.enabled ≡ true
      → split_time s.stop_time ≡ ok stop_at
      → split_time s.start_time ≡ ok start_at
      → job_of split_time to_int check_trigger s stop stop_at ≡ ok j
      → job_of split_time to_int check_trigger s start start_at ≡ ok k
      → reschedule_instance_jobs split_time to_int check_trigger s jobs
        ≡ (ok tt, k ∷ j ∷ keep (λ x. not (is_ours x)) jobs)
  unfolding reschedule_instance_jobs
  reschedule_instance_jobs_set jobs stop_at start_at j k on stops starts made made' =
      let cleared = remove_job "instance_start" (remove_job "instance_stop" jobs) in
      let set = both split_time to_int check_trigger s in
      ap
        (λ b.
          if b
          then set (split_time s.stop_time >>= λ x. split_time s.start_time >>= λ y. ok (x, y))
              cleared
          else (ok tt, cleared))
        on
      ∙ ap
          (λ kept.
            set (split_time s.stop_time >>= λ x. split_time s.start_time >>= λ y. ok (x, y)) kept)
          (keep_both jobs)
      ∙ ap (λ r. set (r >>= λ x. split_time s.start_time >>= λ y. ok (x, y)) (rest jobs)) stops
      ∙ ap (λ r. set (r >>= λ y. ok (stop_at, y)) (rest jobs)) starts
      ∙ ap (second split_time to_int check_trigger s start_at)
          (added_lem stop stop_at j (rest jobs) (rest jobs) made (remove_others stop jobs))
      ∙ added_lem start start_at k (j ∷ rest jobs) (j ∷ rest jobs) made'
          (stop_kept stop_at j jobs made)
