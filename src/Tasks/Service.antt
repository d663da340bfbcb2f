-- ===== src/Tasks/Service.antt =====
-- backend/services/task_service.py: `TaskService`. The rows of tasks and batches are dicts from ids;
-- scripts, devices and versions are read only. The clock is an argument in seconds. What the command
-- to an agent holds, the events and the webhooks are left out.
pub mod Results
pub mod Stop
use sphere_platform.Base.{
  ℕ, ◌+◌, ◌-◌, String, Bool, true, false, not, ◌&&◌, Option, none, some, List, [], ◌∷◌, ◌==◌, ltb,
  has, if◌then◌else◌, truthy,
}
use sphere_platform.Base.Dict.{Dict, get, put}
use sphere_platform.Redis.{SortedSet}
use sphere_platform.Tasks.Task.{
  Task, TaskStatus, queued, assigned, running, completed, failed, timeout, cancelled, TaskResult,
  Script, Device, is_active_status, is_waiting, ErrorMessage, version_not_found, stale_offline,
  stale_day, force_stopped, from_agent,
}
use sphere_platform.Tasks.Queue.{
  TaskQueue, enqueue, dequeue_for_device, mark_completed, cancel_task,
}
use sphere_platform.Tasks.Batch.{TaskBatch, aggregate_batch}

pub data Reply {ℓ} (A : Type ℓ) : Type ℓ where
  ok : A → Reply A
  http_error : ℕ → Reply A
  raised : Reply A

-- The tables that the service only reads, and the cache of device states.
pub record Catalogue : Type 0 where
  pub scripts : Dict Script
  pub devices : Dict Device
  pub versions : List String
  -- `status_cache`: None, or the live status of a device.
  pub status_cache : Option (String → Option String)

-- What `publisher.send_command_live` does; without a publisher, nothing is delivered.
pub data Delivery : Type 0 where
  delivered offline broken : Delivery

abbrev pub set_status : TaskStatus → ℕ → Task → Task
set_status s now t = record t { status = s; updated_at = some now }

abbrev pub finish_task : TaskStatus → ℕ → Task → Task
finish_task s now t = record t { status = s; finished_at = some now; updated_at = some now }

module _ (S : SortedSet) where
  pub record Store : Type 0 where
    pub queue : TaskQueue S
    pub tasks : Dict Task
    pub batches : Dict TaskBatch

  abbrev pub save : Store → String → Task → Store
  save st id t = record st { tasks = put st.tasks id t }

  -- `_safe_mark_completed`
  unfoldable pub safe_mark_completed : TaskQueue S → String → String → TaskQueue S
  safe_mark_completed q task device = elim (get q.running device) [
    | none ↦ q
    | some current ↦ if current == task then mark_completed S q task device else q
  ]

  -- `_get_task`
  unfoldable pub get_task : Store → String → String → Option Task
  get_task st id org = elim (get st.tasks id) [
    | none ↦ none
    | some t ↦ if t.org_id == org then some t else none
  ]

  unfoldable pub cancel : ℕ → Store → String → String → Reply Store
  unfolding get_task
  cancel now st id org = elim (get_task st id org) [
    | none ↦ http_error 404
    | some t ↦
        if is_waiting t.status
        then ok (record st {
          queue = (cancel_task S st.queue id org (some t.device_id)).1;
          tasks = put st.tasks id (finish_task cancelled now t);
        })
        else http_error 409
  ]

  abbrev pub stopped : ℕ → Store → String → Task → Store
  stopped now st id t = record st {
    queue = mark_completed S st.queue id t.device_id;
    tasks =
        put st.tasks id
          (record (finish_task cancelled now t) { error_message = some force_stopped });
  }

  abbrev pub is_running : TaskStatus → Bool
  is_running running = true
  is_running _ = false

  -- The agent is told first.
  abbrev pub stop_running : Delivery → ℕ → Store → String → Task → Reply Store
  stop_running broken now st id t = raised
  stop_running _ now st id t = ok (stopped now st id t)

  unfoldable pub force_stop_task : Delivery → ℕ → Store → String → String → Reply Store
  unfolding get_task
  force_stop_task sent now st id org = elim (get_task st id org) [
    | none ↦ http_error 404
    | some t ↦
        if is_waiting t.status
        then ok (record st {
          queue = (cancel_task S st.queue id org (some t.device_id)).1;
          tasks = put st.tasks id (finish_task cancelled now t);
        })
        else if is_running t.status
        then stop_running sent now st id t
        else http_error 409
  ]

  -- The statuses that a late result leaves as they are.
  abbrev pub keeps_status : TaskStatus → Bool
  keeps_status cancelled = true
  keeps_status completed = true
  keeps_status failed = true
  keeps_status _ = false

  abbrev pub status_of : Bool → TaskStatus
  status_of success = if success then completed else failed

  abbrev pub aggregate : Dict TaskBatch → Option String → Bool → Dict TaskBatch
  aggregate batches none success = batches
  aggregate batches (some id) success = elim (get batches id) [
    | none ↦ batches
    | some b ↦ put batches id (aggregate_batch b success)
  ]

  abbrev pub result_in : ℕ → TaskResult → Task → Task
  result_in now r t = record (finish_task (status_of r.success) now t) {
    result = some r;
    error_message = elim r.error [ none ↦ none | some e ↦ some (from_agent e) ];
  }

  abbrev pub take_result : ℕ → Store → String → String → TaskResult → Task → Store
  take_result now st id device r t =
      if keeps_status t.status
      then record st {
        queue = safe_mark_completed st.queue id device;
        tasks = put st.tasks id (record t { result = some r; updated_at = some now });
      }
      else record st {
        queue = safe_mark_completed st.queue id device;
        tasks = put st.tasks id (result_in now r t);
        batches = aggregate st.batches t.batch_id r.success;
      }

  unfoldable pub handle_task_result : ℕ → Store → String → String → TaskResult → Store
  unfolding safe_mark_completed
  handle_task_result now st id device r = elim (get st.tasks id) [
    | none ↦ st
    | some t ↦ take_result now st id device r t
  ]
