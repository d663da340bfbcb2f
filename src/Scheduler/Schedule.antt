-- ===== src/Scheduler/Schedule.antt =====
-- backend/models/schedule.py, and the rows that the engine reads and writes with it. Of a schedule's
-- `input_params` two fields are kept, as in a task. Times are seconds.
use sphere_platform.Base.{ℕ, String, Bool, Option, List}
use sphere_platform.Base.Dict.{Dict}
use sphere_platform.Redis.{SortedSet}
use sphere_platform.Pipeline.Run.{RunStatus}
use sphere_platform.Tasks.Task.{Task}
use sphere_platform.Tasks.Batch.{TaskBatch}
use sphere_platform.Tasks.Queue.{TaskQueue}

pub data ConflictPolicy : Type 0 where
  skip queue cancel_previous : ConflictPolicy

pub data TargetType : Type 0 where
  script pipeline : TargetType

pub data ExecutionStatus : Type 0 where
  triggered skipped : ExecutionStatus

pub data SkipReason : Type 0 where
  still_running no_devices : SkipReason

pub record Schedule : Type 0 where
  pub org_id : String
  pub cron_expression : Option String
  pub interval_seconds : Option ℕ
  pub one_shot_at : Option ℕ
  pub timezone : String
  pub target_type : TargetType
  pub script_id : Option String
  pub pipeline_id : Option String
  pub webhook_url : Option String
  pub account_id : Option String
  pub device_ids : List String
  pub group_id : Option String
  pub device_tags : List String
  pub only_online : Bool
  pub conflict_policy : ConflictPolicy
  pub is_active : Bool
  pub active_from : Option ℕ
  pub active_until : Option ℕ
  pub max_runs : Option ℕ
  pub total_runs : ℕ
  pub next_fire_at : Option ℕ
  pub last_fired_at : Option ℕ

pub record Execution : Type 0 where
  pub schedule_id : String
  pub org_id : String
  pub status : ExecutionStatus
  pub fire_time : ℕ
  pub actual_time : ℕ
  pub devices_targeted : ℕ
  pub tasks_created : ℕ
  pub batch_id : Option String
  pub pipeline_batch_id : Option String
  pub skip_reason : Option SkipReason

-- The columns of a `PipelineRun` that the engine reads or writes; `batch_id` stands in its context.
pub record PipelineRow : Type 0 where
  pub org_id : String
  pub pipeline_id : String
  pub device_id : String
  pub status : RunStatus
  pub batch_id : String
  pub created_at : ℕ
  pub finished_at : Option ℕ

pub record Device : Type 0 where
  pub org_id : String
  pub is_active : Bool
  pub tags : List String

-- What the engine only reads. A version has the `timeout_ms` of its DAG, where that is a number.
pub record Catalogue : Type 0 where
  pub devices : Dict Device
  pub group_members : Dict (List String)
  pub scripts : Dict (Option String)
  pub versions : Dict (Option ℕ)
  pub pipelines : List String
  -- The live status of a device, where the cache can be asked.
  pub status_cache : Option (String → Option String)
  -- `croniter(expression, now).get_next()`, in a timezone.
  pub cron : String → String → ℕ → ℕ

module _ (S : SortedSet) where
  -- Executions stand newest first.
  pub record World : Type 0 where
    pub schedules : Dict Schedule
    pub executions : List Execution
    pub tasks : Dict Task
    pub batches : Dict TaskBatch
    pub runs : Dict PipelineRow
    pub task_queue : TaskQueue S
