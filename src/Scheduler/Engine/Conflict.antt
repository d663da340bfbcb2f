-- ===== src/Scheduler/Engine/Conflict.antt =====
-- backend/services/scheduler/scheduler_engine.py: `_has_running_tasks` and `_cancel_previous_tasks`.
use sphere_platform.Base.{
  ℕ, suc, ◌+◌, ◌*◌, String, Bool, true, false, not, ◌&&◌, ◌||◌, Option, none, some, List, [], ◌∷◌,
  ◌==◌, ltb, leb, if◌then◌else◌,
}
use sphere_platform.Base.Dict.{Dict}
use sphere_platform.Redis.{SortedSet}
use sphere_platform.Pipeline.Run.{RunStatus}
use sphere_platform.Tasks.Task.{
  Task, TaskStatus, cancelled, is_active_status, is_waiting, cancelled_by_scheduler,
}
use sphere_platform.Tasks.Queue.{TaskQueue, cancel_task, mark_completed}
use sphere_platform.Tasks.Service.{Delivery, broken, finish_task}
use sphere_platform.Scheduler.Schedule.{
  Execution, ExecutionStatus, triggered, skipped, PipelineRow, World,
}

abbrev pub is_triggered : ExecutionStatus → Bool
is_triggered triggered = true
is_triggered skipped = false

abbrev pub later : Execution → Option Execution → Option Execution
later e none = some e
later e (some f) = if leb f.fire_time e.fire_time then some e else some f

-- The triggered execution of the schedule with the latest `fire_time`.
unfoldable pub last_execution : String → List Execution → Option Execution
last_execution id [] = none
last_execution id (e ∷ es) =
    let rest = last_execution id es in
    if (e.schedule_id == id) && is_triggered e.status then later e rest else rest

abbrev pub in_batch : String → Option String → Bool
in_batch b none = false
in_batch b (some c) = c == b

-- A task that is not done and not stuck: 600 is _STALE_BUFFER_SECONDS.
abbrev pub is_running_task : ℕ → String → Task → Bool
is_running_task now b t =
    in_batch b t.batch_id
    && is_active_status t.status
    && ltb now (t.created_at + (t.timeout_seconds + 600))

abbrev pub is_active_run : RunStatus → Bool
is_active_run RunStatus.queued = true
is_active_run RunStatus.running = true
is_active_run RunStatus.waiting = true
is_active_run _ = false

-- 120 minutes are _PIPELINE_STALE_MINUTES.
abbrev pub is_running_run : ℕ → String → PipelineRow → Bool
is_running_run now b r =
    (r.batch_id == b) && is_active_run r.status && ltb now (r.created_at + 120 * 60)

-- `count(...) > 0`
unfoldable pub any_row {ℓ} : {V : Type ℓ} → (V → Bool) → Dict V → Bool
any_row p [] = false
any_row p ((id, v) ∷ d) = p v || any_row p d

abbrev pub runs_in : ℕ → Dict Task → Dict PipelineRow → Option String → Option String → Bool
runs_in now tasks runs (some b) p = any_row (is_running_task now b) tasks
runs_in now tasks runs none (some p) = any_row (is_running_run now p) runs
runs_in now tasks runs none none = false

abbrev pub has_running_after : ℕ → Dict Task → Dict PipelineRow → Option Execution → Bool
has_running_after now tasks runs none = false
has_running_after now tasks runs (some e) = runs_in now tasks runs e.batch_id e.pipeline_batch_id

unfoldable pub has_running_tasks : ℕ → Dict Task → Dict PipelineRow → List Execution → String → Bool
has_running_tasks now tasks runs executions id =
    has_running_after now tasks runs (last_execution id executions)

module _ (S : SortedSet) where
  -- The rows and the queue that a cancelling leaves, and how many it has cancelled.
  pub record Cancelled : Type 0 where
    pub rows : Dict Task
    pub queue : TaskQueue S
    pub count : ℕ

  abbrev pub is_running : TaskStatus → Bool
  is_running TaskStatus.running = true
  is_running _ = false

  abbrev pub is_broken : Delivery → Bool
  is_broken broken = true
  is_broken _ = false

  -- An exception of the publisher leaves the row and the queue as they are.
  abbrev pub is_cancelled : (String → Delivery) → String → String → Task → Bool
  is_cancelled send b id t =
      in_batch b t.batch_id
      && is_active_status t.status
      && not (is_running t.status && is_broken (send id))

  abbrev pub off_queue : TaskQueue S → String → Task → TaskQueue S
  off_queue q id t =
      if is_waiting t.status then (cancel_task S q id t.org_id (some t.device_id)).1 else q

  -- Whoever holds the device's lock.
  abbrev pub cancel_in_queue : TaskQueue S → String → Task → TaskQueue S
  cancel_in_queue q id t = mark_completed S (off_queue q id t) id t.device_id

  abbrev pub stop : ℕ → Task → Task
  stop now t = record (finish_task cancelled now t) { error_message = some cancelled_by_scheduler }

  unfoldable pub cancel_rows :
      (String → Delivery) → ℕ → String → Dict Task → TaskQueue S → Cancelled
  cancel_rows send now b [] q = record { rows = []; queue = q; count = 0 }
  cancel_rows send now b ((id, t) ∷ d) q =
      let on = is_cancelled send b id t in
      let rest = cancel_rows send now b d (if on then cancel_in_queue q id t else q) in
      record {
        rows = (id, if on then stop now t else t) ∷ rest.rows;
        queue = rest.queue;
        count = if on then suc rest.count else rest.count;
      }

  abbrev pub stop_run : ℕ → String → PipelineRow → PipelineRow
  stop_run now b r =
      if (r.batch_id == b) && is_active_run r.status
      then record r { status = RunStatus.cancelled; finished_at = some now }
      else r

  unfoldable pub cancel_runs : ℕ → String → Dict PipelineRow → Dict PipelineRow
  cancel_runs now b [] = []
  cancel_runs now b ((id, r) ∷ d) = (id, stop_run now b r) ∷ cancel_runs now b d

  abbrev pub cancel_batch : (String → Delivery) → ℕ → World S → Option String → World S
  cancel_batch send now w none = w
  cancel_batch send now w (some b) =
      let c = cancel_rows send now b w.tasks w.task_queue in
      record w { tasks = c.rows; task_queue = c.queue }

  abbrev pub cancel_pipelines : ℕ → World S → Option String → World S
  cancel_pipelines now w none = w
  cancel_pipelines now w (some b) = record w { runs = cancel_runs now b w.runs }

  abbrev pub cancel_after : (String → Delivery) → ℕ → World S → Option Execution → World S
  cancel_after send now w none = w
  cancel_after send now w (some e) =
      cancel_pipelines now (cancel_batch send now w e.batch_id) e.pipeline_batch_id

  unfoldable pub cancel_previous_tasks : (String → Delivery) → ℕ → World S → String → World S
  unfolding last_execution cancel_rows cancel_runs
  cancel_previous_tasks send now w id = cancel_after send now w (last_execution id w.executions)
