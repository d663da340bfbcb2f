-- ===== src/Scheduler/Engine.antt =====
-- backend/services/scheduler/scheduler_engine.py: `_process_schedule` and `_tick`, and what they
-- create. The ids of new rows are an argument; exceptions of the database are left out.
pub mod Devices
pub mod Conflict
pub mod Launch
pub mod Counts
pub mod Ticks
pub mod Counted
pub mod Outcome
pub mod Skips
pub mod Live
pub mod Cancel
use sphere_platform.Base.{
  ℕ, suc, String, Bool, true, false, not, ◌&&◌, Option, none, some, List, [], ◌∷◌, ◌++◌, ◌==◌, ltb,
  leb, nat_eq, if◌then◌else◌, length, take, map,
}
use sphere_platform.Base.Dict.{Dict, get, put}
use sphere_platform.Redis.{SortedSet}
use sphere_platform.Tasks.Queue.{enqueue}
use sphere_platform.Tasks.Service.{Delivery}
use sphere_platform.Scheduler.Schedule.{
  Schedule, ConflictPolicy, skip, queue, cancel_previous, Execution, ExecutionStatus, triggered,
  skipped, SkipReason, still_running, no_devices, Catalogue, World,
}
use sphere_platform.Scheduler.Service.{advance_fire_time, deactivated, set_number}
use sphere_platform.Scheduler.Engine.Devices.{resolve_devices}
use sphere_platform.Scheduler.Engine.Conflict.{has_running_tasks, cancel_previous_tasks}
use sphere_platform.Scheduler.Engine.Launch.{NewIds, Pending, Launched, launch}

abbrev pub reached_runs : Option ℕ → ℕ → Bool
reached_runs none n = false
reached_runs (some m) n = leb m n

-- `if schedule.max_runs and schedule.total_runs >= schedule.max_runs`
abbrev pub out_of_runs : Schedule → Bool
out_of_runs s = reached_runs (set_number s.max_runs) s.total_runs

abbrev pub too_early : ℕ → Option ℕ → Bool
too_early now none = false
too_early now (some t) = ltb now t

abbrev pub too_late : ℕ → Option ℕ → Bool
too_late now none = false
too_late now (some t) = ltb t now

abbrev pub skips : ConflictPolicy → Bool
skips skip = true
skips _ = false

abbrev pub cancels : ConflictPolicy → Bool
cancels cancel_previous = true
cancels _ = false

-- What the clocks say of a tick: when it began, and now.
pub record Times : Type 0 where
  pub fire_time : ℕ
  pub now : ℕ

abbrev pub skipped_run : Times → String → Schedule → SkipReason → Execution
skipped_run t id s why = record {
  schedule_id = id;
  org_id = s.org_id;
  status = skipped;
  fire_time = t.fire_time;
  actual_time = t.now;
  devices_targeted = 0;
  tasks_created = 0;
  batch_id = none;
  pipeline_batch_id = none;
  skip_reason = some why;
}

-- A one-shot schedule is done.
abbrev pub after_fire : Catalogue → ℕ → Option ℕ → Schedule → Schedule
after_fire c now (some t) s = deactivated s
after_fire c now none s = advance_fire_time c now s

abbrev pub fired : Catalogue → ℕ → Schedule → Schedule
fired c now s =
    after_fire c now s.one_shot_at
      (record s { total_runs = suc s.total_runs; last_fired_at = some now })

module _ (S : SortedSet) where
  -- The world, and what is to be enqueued after the commit.
  pub record Ticked : Type 0 where
    pub world : World S
    pub pending : List Pending

  abbrev pub save : World S → String → Schedule → World S
  save w id s = record w { schedules = put w.schedules id s }

  abbrev pub log : World S → Execution → World S
  log w e = record w { executions = e ∷ w.executions }

  abbrev pub skip_run : Catalogue → Times → World S → String → Schedule → SkipReason → Ticked
  skip_run c t w id s why = record {
    world = save (log w (skipped_run t id s why)) id (advance_fire_time c t.now s);
    pending = [];
  }

  abbrev pub triggered_run : Times → String → Schedule → ℕ → Launched S → Execution
  triggered_run t id s devices l = record {
    schedule_id = id;
    org_id = s.org_id;
    status = triggered;
    fire_time = t.fire_time;
    actual_time = t.now;
    devices_targeted = devices;
    tasks_created = l.tasks_created;
    batch_id = l.batch_id;
    pipeline_batch_id = l.pipeline_batch_id;
    skip_reason = none;
  }

  abbrev pub fire : Catalogue → Times → World S → String → Schedule → NewIds → List String → Ticked
  fire c t w id s new devices =
      let l = launch S c t.now w s new devices in
      record {
        world = save (log l.world (triggered_run t id s (length devices) l)) id (fired c t.now s);
        pending = l.pending;
      }

  abbrev pub fire_on :
      Catalogue → Times → World S → String → Schedule → NewIds → List String → Ticked
  fire_on c t w id s new [] = skip_run c t w id s no_devices
  fire_on c t w id s new (x ∷ xs) = fire c t w id s new (x ∷ xs)

  abbrev pub fire_after :
      (String → Delivery) → Catalogue → Times → World S → String → Schedule → NewIds → Ticked
  fire_after send c t w id s new =
      fire_on c t (if cancels s.conflict_policy then cancel_previous_tasks S send t.now w id else w)
        id s new (resolve_devices c s)

  abbrev pub is_blocked : ℕ → World S → String → Schedule → Bool
  is_blocked now w id s =
      skips s.conflict_policy && has_running_tasks now w.tasks w.runs w.executions id

  unfoldable pub process_schedule :
      (String → Delivery) → Catalogue → Times → World S → String → Schedule → NewIds → Ticked
  process_schedule send c t w id s new =
      if out_of_runs s
      then record { world = save w id (deactivated s); pending = [] }
      else if too_early t.now s.active_from
      then record { world = w; pending = [] }
      else if too_late t.now s.active_until
      then record { world = save w id (deactivated s); pending = [] }
      else if is_blocked t.now w id s
      then skip_run c t w id s still_running
      else fire_after send c t w id s new

  abbrev pub due_at : ℕ → Option ℕ → Bool
  due_at now none = false
  due_at now (some t) = leb t now

  -- `is_active` and `next_fire_at <= now`.
  abbrev pub is_due : ℕ → Schedule → Bool
  is_due now s = s.is_active && due_at now s.next_fire_at

  abbrev pub before : Option ℕ → Option ℕ → Bool
  before none t = true
  before (some a) none = false
  before (some a) (some b) = leb a b

  -- ORDER BY next_fire_at, as insertion into a sorted list.
  unfoldable pub insert_by_time : String × Schedule → Dict Schedule → Dict Schedule
  insert_by_time x [] = x ∷ []
  insert_by_time x (y ∷ ys) =
      let rest = insert_by_time x ys in
      if before x.1.next_fire_at y.1.next_fire_at then x ∷ y ∷ ys else y ∷ rest

  unfoldable pub due_schedules : ℕ → Dict Schedule → Dict Schedule
  unfolding insert_by_time
  due_schedules now [] = []
  due_schedules now ((id, s) ∷ d) =
      let rest = due_schedules now d in if is_due now s then insert_by_time (id, s) rest else rest

  abbrev pub process_row :
      (String → Delivery) → Catalogue → Times → NewIds → String → Ticked → Option Schedule → Ticked
  process_row send c t new id k none = k
  process_row send c t new id k (some s) =
      let one = process_schedule send c t k.world id s new in
      record { world = one.world; pending = k.pending ++ one.pending }

  -- The rows that the query returned, in turn; `times` and `new` are those of each schedule.
  unfoldable pub process_all :
      (String → Delivery)
      → Catalogue
      → (String → Times)
      → (String → NewIds)
      → List String
      → Ticked
      → Ticked
  process_all send c times new [] k = k
  process_all send c times new (id ∷ ids) k =
      process_all send c times new ids
        (process_row send c (times id) (new id) id k (get k.world.schedules id))

  -- After the commit, in the order in which the tasks were created.
  unfoldable pub enqueue_all : ℕ → List Pending → World S → World S
  enqueue_all now [] w = w
  enqueue_all now (p ∷ ps) w = enqueue_all now ps (record w {
    task_queue = enqueue S now w.task_queue p.task_id p.device_id p.org_id p.priority;
  })

  unfoldable pub tick :
      (String → Delivery) → Catalogue → ℕ → (String → ℕ) → (String → NewIds) → World S → World S
  unfolding process_all due_schedules enqueue_all
  tick send c now clock new w =
      let k =
        process_all send c (λ id. record { fire_time = now; now = clock id }) new
          (take 50 (map (λ row. row.0) (due_schedules now w.schedules)))
          (record { world = w; pending = [] }) in
      enqueue_all now k.pending k.world
