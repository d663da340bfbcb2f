-- ===== src/Tasks/Watchdog/Tests.antt =====
-- task_heartbeat_watchdog.py: a cycle that finds a running task, whose lock another task holds, and a
-- task that waited too long.
use sphere_platform.Base.{ℕ, false, Option, none, some, [], ◌∷◌, ◌≡◌, refl, arith}
use sphere_platform.Base.Dict.{get}
use sphere_platform.Redis.Memory.{memory}
use sphere_platform.Tasks.Task.{
  Task, TaskStatus, queued, running, watchdog_running, watchdog_queued,
}
use sphere_platform.Tasks.Batch.{BatchStatus}
use sphere_platform.Tasks.Queue.{is_device_busy}
use sphere_platform.Tasks.Service.{Store}
use sphere_platform.Tasks.Watchdog.{
  Limits, stale_running, verdict, stale_rows, is_stale, expire_stale_tasks,
}
use sphere_platform.Tasks.Watchdog.Counts.{number_in, failed_more, expire_stale_tasks-batches}
use sphere_platform.Tasks.Watchdog.Rows.{expire_stale_tasks-rows, IsOverdue, IsForgotten, timed_out}

abbrev task : TaskStatus → Option ℕ → Task
task s started = record {
  org_id = "o";
  device_id = "d";
  script_id = "s";
  batch_id = some "b";
  script_version_id = some "v";
  status = s;
  priority = 5;
  created_at = 10;
  updated_at = none;
  started_at = started;
  finished_at = none;
  timeout_seconds = 300;
  webhook_url = none;
  account_id = none;
  result = none;
  error_message = none;
  wave_index = none;
}

abbrev limits : Limits
limits = record { buffer = 300; minutes = 60 }

abbrev store : Store memory
store = record {
  queue = record { queues = []; running = ("d", "z") ∷ []; meta = [] };
  tasks =
      ("x", task running (some 20))
      ∷ ("y", task queued none)
      ∷ ("z", task running (some 5000))
      ∷ [];
  batches =
      ("b", record { status = BatchStatus.running; total = 3; succeeded = 0; failed = 0 }) ∷ [];
}

x-IsOverdue : IsOverdue 5000 limits (task running (some 20))
x-IsOverdue = (20, refl, refl, omega arith)

expire_stale_tasks-rows_example :
    let after = expire_stale_tasks memory 5000 limits store in
    let x = task running (some 20) in
    (IsOverdue 5000 limits x
      → (get after.tasks "x" ≡ some (timed_out 5000 (watchdog_running 300 300) x))
        × (is_device_busy memory after.queue "d" ≡ false))
    × (IsForgotten 5000 limits x
        → get after.tasks "x" ≡ some (timed_out 5000 (watchdog_queued 60) x))
    × (¬ IsOverdue 5000 limits x → ¬ IsForgotten 5000 limits x → get after.tasks "x" ≡ some x)
    × ((u : Task)
        → get after.tasks "x" ≡ some u
        → (¬ IsOverdue 5000 limits u) × (¬ IsForgotten 5000 limits u))
unfolding get
expire_stale_tasks-rows_example =
    expire_stale_tasks-rows memory 5000 limits store "x" (task running (some 20)) refl

expire_stale_tasks-batches_example :
    get (expire_stale_tasks memory 5000 limits store).batches "b"
    ≡ failed_more
        (number_in "b" (stale_rows is_stale 5000 limits store.tasks))
        (get store.batches "b")
expire_stale_tasks-batches_example = expire_stale_tasks-batches memory 5000 limits store "b"

two_failed : number_in "b" (stale_rows is_stale 5000 limits store.tasks) ≡ 2
unfolding number_in stale_rows verdict
two_failed = refl

x_is_stale : verdict 5000 limits (task running (some 20)) ≡ stale_running
unfolding verdict
x_is_stale = refl
