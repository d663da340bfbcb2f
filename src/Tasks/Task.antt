-- ===== src/Tasks/Task.antt =====
-- backend/models/task.py, and what the task service reads of scripts and devices. `input_params` is
-- two fields; the result of an agent is its verdict and its error.
use sphere_platform.Base.{ℕ, String, Bool, true, false, Option}

pub data TaskStatus : Type 0 where
  queued assigned running completed failed timeout cancelled : TaskStatus

pub data ErrorMessage : Type 0 where
  version_not_found stale_offline stale_day force_stopped cancelled_by_scheduler : ErrorMessage
  -- The timeout and the buffer in seconds; the minutes in the queue.
  watchdog_running : ℕ → ℕ → ErrorMessage
  watchdog_queued : ℕ → ErrorMessage
  from_agent : String → ErrorMessage

pub record TaskResult : Type 0 where
  pub success : Bool
  pub error : Option String

pub record Task : Type 0 where
  pub org_id : String
  pub device_id : String
  pub script_id : String
  pub batch_id : Option String
  pub script_version_id : Option String
  pub status : TaskStatus
  pub priority : ℕ
  pub created_at : ℕ
  pub updated_at : Option ℕ
  pub started_at : Option ℕ
  pub finished_at : Option ℕ
  pub timeout_seconds : ℕ
  pub webhook_url : Option String
  pub account_id : Option String
  pub result : Option TaskResult
  pub error_message : Option ErrorMessage
  pub wave_index : Option ℕ

pub record Script : Type 0 where
  pub org_id : String
  pub is_archived : Bool
  pub current_version_id : Option String

pub record Device : Type 0 where
  pub org_id : String
  pub is_active : Bool

-- status IN (QUEUED, RUNNING, ASSIGNED)
abbrev pub is_active_status : TaskStatus → Bool
is_active_status queued = true
is_active_status running = true
is_active_status assigned = true
is_active_status _ = false

-- status IN (QUEUED, ASSIGNED)
abbrev pub is_waiting : TaskStatus → Bool
is_waiting queued = true
is_waiting assigned = true
is_waiting _ = false
