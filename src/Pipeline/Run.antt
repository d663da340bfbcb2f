-- ===== src/Pipeline/Run.antt =====
-- backend/models/pipeline.py: `PipelineRunStatus` and the columns of `PipelineRun` that the
-- executor reads or writes; backend/schemas/pipeline.py: `PipelineStepSchema`. Times are
-- milliseconds. `_append_step_log` of pipeline_executor.py.
use sphere_platform.Base.{ℕ, String, Bool, Option, List, [], ◌∷◌, ◌++◌}
use sphere_platform.Base.Dict.{Dict, put}
use sphere_platform.Pipeline.Value.{Value}

pub data RunStatus : Type 0 where
  queued running paused waiting completed failed cancelled timed_out : RunStatus

pub RunStatus-discrete : Discrete RunStatus
RunStatus-discrete = hlevel

-- `step.get("retries", 0)`, `step.get("on_success")` and so on read these keys.
pub record Step : Type 0 where
  pub id : String
  pub type : String
  pub params : Dict Value
  pub on_success : Option String
  pub on_failure : Option String
  pub timeout_ms : ℕ
  pub retries : ℕ

-- `StepResult.status` is a text: two values have a meaning.
pub data StepStatus : Type 0 where
  success failure : StepStatus
  other : String → StepStatus

-- The `output` of a step, as far as its shape is fixed by the handler.
pub data Output : Type 0 where
  no_output : Output
  condition_was : Bool → Output
  delayed_ms : ℕ → Output
  parallel_of : List (String × StepStatus) → ℕ → ℕ → Output
  loop_stopped : List StepStatus → ℕ → Output
  looped : List StepStatus → ℕ → Output
  external : Value → Output

pub record StepResult : Type 0 where
  pub status : StepStatus
  pub output : Output
  pub context_updates : Dict Value

pub data LogEntry : Type 0 where
  executor_error : LogEntry
  step_not_found : String → LogEntry
  global_timeout : String → ℕ → ℕ → LogEntry
  step_done : String → String → StepStatus → Output → LogEntry

pub record Run : Type 0 where
  pub id : String
  pub device_id : String
  pub status : RunStatus
  pub current_step_id : Option String
  pub current_task_id : Option String
  pub context : Dict Value
  pub steps_snapshot : List Step
  pub step_logs : List LogEntry
  pub started_at : Option ℕ
  pub finished_at : Option ℕ

unfoldable pub append_step_log : Run → LogEntry → Run
append_step_log run entry = record run { step_logs = run.step_logs ++ entry ∷ [] }

-- `{s["id"]: s for s in steps}`: the last step of an id stays.
unfoldable pub index_steps : List Step → Dict Step → Dict Step
index_steps [] index = index
index_steps (s ∷ ss) index = index_steps ss (put index s.id s)
