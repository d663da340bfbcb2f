-- ===== src/Scheduler/Tests.antt =====
-- scheduler_engine.py: a schedule of a script on two devices, and the theorems at it.
use sphere_platform.Base.{
  ℕ, ◌+◌, String, true, none, some, [], ◌∷◌, ◌==◌, ◌≡◌, refl, arith, Bool-cases, inl, inr, subst,
  All,
}
use sphere_platform.Base.Dict.{get}
use sphere_platform.Base.Dict.Size.{IsDict}
use sphere_platform.Redis.Memory.{memory}
use sphere_platform.Tasks.Task.{Task}
use sphere_platform.Tasks.Service.{Delivery, delivered}
use sphere_platform.Scheduler.Schedule.{
  Schedule, ConflictPolicy, TargetType, Execution, triggered, Catalogue, World,
}
use sphere_platform.Scheduler.Engine.{
  Times, process_schedule, fired, tick, is_due, due_schedules, insert_by_time,
}
use sphere_platform.Scheduler.Engine.Conflict.{
  has_running_tasks, last_execution, any_row, cancel_previous_tasks,
}
use sphere_platform.Scheduler.Engine.Devices.{resolve_devices, select_ids}
use sphere_platform.Scheduler.Engine.Launch.{NewIds, scheduled_task}
use sphere_platform.Scheduler.Engine.Counts.{triggered_count, IsCounted}
use sphere_platform.Scheduler.Engine.Ticks.{Counted, Beat, ticks, ticks-Counted}
use sphere_platform.Scheduler.Engine.Outcome.{Fired, process_schedule-Fired}
use sphere_platform.Scheduler.Engine.Live.{IsReady, tick-fires}
use sphere_platform.Scheduler.Engine.Cancel.{cancel_previous_tasks-Stops, Stops}
use sphere_platform.Scheduler.Engine.Skips.{
  process_at, with_skips, IsWaiting, process_schedule-skips_again,
}

abbrev every_minute : Schedule
every_minute = record {
  org_id = "o";
  cron_expression = none;
  interval_seconds = some 60;
  one_shot_at = none;
  timezone = "UTC";
  target_type = TargetType.script;
  script_id = some "s";
  pipeline_id = none;
  webhook_url = none;
  account_id = none;
  device_ids = "d1" ∷ [];
  group_id = none;
  device_tags = "t" ∷ [];
  only_online = true;
  conflict_policy = ConflictPolicy.queue;
  is_active = true;
  active_from = none;
  active_until = some 1000;
  max_runs = some 2;
  total_runs = 0;
  next_fire_at = some 10;
  last_fired_at = none;
}

abbrev once : Schedule
once = record every_minute {
  interval_seconds = none;
  one_shot_at = some 10;
  device_ids = [];
  device_tags = [];
}

abbrev patient : Schedule
patient = record every_minute {
  conflict_policy = ConflictPolicy.skip;
  total_runs = 1;
  last_fired_at = some 10;
  next_fire_at = some 70;
}

abbrev catalogue : Catalogue
catalogue = record {
  devices =
      ("d1", record { org_id = "o"; is_active = true; tags = [] })
      ∷ ("d2", record { org_id = "o"; is_active = true; tags = "t" ∷ [] })
      ∷ [];
  group_members = [];
  scripts = ("s", some "v") ∷ [];
  versions = ("v", some 90000) ∷ [];
  pipelines = [];
  status_cache = some (λ d. some "online");
  cron = λ e z now. now + 60;
}

abbrev new_ids : NewIds
new_ids = record { batch = "b"; row = λ d. d }

abbrev start : World memory
start = record {
  schedules = ("x", every_minute) ∷ ("y", once) ∷ [];
  executions = [];
  tasks = [];
  batches = [];
  runs = [];
  task_queue = record { queues = []; running = []; meta = [] };
}

abbrev at_20 : Times
at_20 = record { fire_time = 20; now = 20 }

abbrev send : String → Delivery
send id = delivered

abbrev beat : ℕ → Beat memory
beat now = record {
  catalogue = catalogue;
  began = now;
  clock = λ id. now;
  new = λ id. new_ids;
  send = send;
}

start-Counted : Counted memory start
unfolding get triggered_count
start-Counted id s at = elim (Bool-cases ("x" == id)) [
  | inl e ↦
      let same : every_minute ≡ s = ground (arith, at, e) in
      subst (IsCounted id []) same (record { runs = refl; limit = omega arith })
  | inr e ↦ elim (Bool-cases ("y" == id)) [
    | inl f ↦
        let same : once ≡ s = ground (arith, at, e, f) in
        subst (IsCounted id []) same (record { runs = refl; limit = omega arith })
    | inr f ↦ absurd (ground (arith, at, e, f))
  ]
]

ticks-Counted_example : Counted memory (ticks memory (beat 20 ∷ beat 90 ∷ []) start)
ticks-Counted_example = ticks-Counted memory (beat 20 ∷ beat 90 ∷ []) start start-Counted

both_devices : resolve_devices catalogue every_minute ≡ "d1" ∷ "d2" ∷ []
unfolding resolve_devices select_ids
both_devices = refl

process_schedule-Fired_example :
    Fired memory catalogue at_20 start "x" every_minute new_ids
      ("d1" ∷ "d2" ∷ [])
      (process_schedule memory send catalogue at_20 start "x" every_minute new_ids)
unfolding get
process_schedule-Fired_example =
    process_schedule-Fired memory send catalogue at_20 start "x" every_minute new_ids "d1"
      ("d2" ∷ []) "s" "v" (λ y z e. e) refl refl refl refl both_devices refl refl refl

abbrev first_run : Execution
first_run = record {
  schedule_id = "x";
  org_id = "o";
  status = triggered;
  fire_time = 10;
  actual_time = 10;
  devices_targeted = 1;
  tasks_created = 1;
  batch_id = some "b";
  pipeline_batch_id = none;
  skip_reason = none;
}

abbrev waiting_task : Task
waiting_task = scheduled_task 10 every_minute new_ids "s" "v" 90 "d1"

-- The task of the first run waits, and its device runs another.
abbrev busy : World memory
busy = record start {
  schedules = ("x", patient) ∷ [];
  executions = first_run ∷ [];
  tasks = ("k", waiting_task) ∷ [];
  task_queue = record { queues = []; running = ("d1", "other") ∷ []; meta = [] };
}

abbrev at_80 : Times
at_80 = record { fire_time = 80; now = 80 }

abbrev at_110 : Times
at_110 = record { fire_time = 110; now = 110 }

patient-IsWaiting : IsWaiting patient 60 10
patient-IsWaiting = record {
  active = refl;
  left = refl;
  policy = refl;
  cron = refl;
  every = refl;
  fired = refl;
  next = refl;
}

process_schedule-skips_again_example :
    let after = process_at memory send catalogue "x" new_ids (at_80 ∷ at_110 ∷ []) busy in
    All (λ (t : Times). is_due memory t.now patient ≡ true) (at_80 ∷ at_110 ∷ [])
    × (get after.schedules "x" ≡ some patient)
    × (after.executions
        ≡ with_skips memory send catalogue "x" new_ids patient
            (at_80 ∷ at_110 ∷ [])
            busy.executions)
    × (after.tasks ≡ busy.tasks)
unfolding has_running_tasks last_execution any_row get
process_schedule-skips_again_example =
    process_schedule-skips_again memory send catalogue "x" new_ids (at_80 ∷ at_110 ∷ []) busy
      patient 60 10 refl patient-IsWaiting
      ((omega arith, refl, refl, refl), ((omega arith, refl, refl, refl), tt))

no_device : resolve_devices catalogue once ≡ []
unfolding resolve_devices select_ids
no_device = refl

every_minute-IsReady : IsReady memory catalogue 20 every_minute
unfolding resolve_devices select_ids
every_minute-IsReady = record {
  policy = refl;
  left = refl;
  from = refl;
  until = refl;
  devices = refl;
}

start-IsDict : IsDict start.schedules
unfolding get
start-IsDict = (refl, (refl, tt))

tick-fires_example :
    get (tick memory send catalogue 20 (λ id. 20) (λ id. new_ids) start).schedules "x"
    ≡ some (fired catalogue 20 every_minute)
unfolding get due_schedules insert_by_time
tick-fires_example =
    tick-fires memory (beat 20) start "x" every_minute start-IsDict refl refl every_minute-IsReady

cancel_previous_tasks-Stops_example :
    let after = cancel_previous_tasks memory send 80 busy "x" in
    Stops memory send 80 "b" busy.tasks after.tasks after.task_queue
unfolding last_execution
cancel_previous_tasks-Stops_example =
    cancel_previous_tasks-Stops memory send 80 busy "x" "b" first_run refl refl
