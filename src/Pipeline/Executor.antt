-- ===== src/Pipeline/Executor.antt =====
-- backend/services/orchestrator/pipeline_executor.py: `_execute_run` and `_execute_run_safe`.
-- A round is one turn of the `while` loop. What the loop does not decide is a `World`: the clock,
-- the pipeline's timeout, the requests that other sessions write to the row, and the handler.
pub mod Ends
pub mod Idle
pub mod Retries
pub mod Races
pub mod History
use sphere_platform.Base.{
  ℕ, zero, suc, ◌+◌, ◌-◌, String, Bool, true, false, Option, none, some, List, [], ◌∷◌, ◌++◌, ltb,
  if◌then◌else◌, truthy,
}
use sphere_platform.Base.Dict.{Dict, get, put}
use sphere_platform.Pipeline.Value.{Value, num, as_number}
use sphere_platform.Pipeline.Run.{
  Run, RunStatus, Step, StepStatus, LogEntry, queued, running, paused, completed, failed, cancelled,
  timed_out, success, failure, other, executor_error, step_not_found, global_timeout, step_done,
  append_step_log, index_steps, StepResult,
}
use sphere_platform.Pipeline.Requests.{Request, apply_all}

-- The columns of the run that a step handler assigns.
pub record Patch : Type 0 where
  pub context : Dict Value
  pub current_task_id : Option String

pub record World : Type 0 where
  pub now : ℕ → ℕ
  pub global_timeout_ms : Option ℕ
  pub before : ℕ → List Request
  pub during : ℕ → List Request
  pub handler : ℕ → Step → Run → StepResult × Patch

pub data Next : Type 0 where
  go : Option String → Run → Next
  stop crash : Run → Next

pub data Outcome : Type 0 where
  ended raised : Run → Outcome
  unfinished : Outcome

-- `ctx.update(updates)`
unfoldable pub update : Dict Value → Dict Value → Dict Value
update ctx [] = ctx
update ctx ((k, v) ∷ updates) = update (put ctx k v) updates

abbrev pub retry_key : String → String
retry_key id = Prim.Native.String.◌++◌ "_retry_" id

-- `ctx.get(retry_key, 0)`; comparing what is no number raises TypeError.
abbrev pub retry_count : Option Value → Option ℕ
retry_count none = some 0
retry_count (some v) = as_number v

abbrev pub finish_with : RunStatus → ℕ → Run → Run
finish_with s now run = record run { status = s; finished_at = some now }

-- The branch of a failed step.
unfoldable pub on_failed_step : ℕ → String → Step → Run → Next
on_failed_step now cur step run = elim (retry_count (get run.context (retry_key cur))) [
  | none ↦ crash run
  | some current ↦
      if ltb current step.retries
      then go (some cur)
          (record run { context = put run.context (retry_key cur) (num (current + 1)) })
      else elim (truthy step.on_failure) [
        | some next ↦ go (some next) run
        | none ↦ stop (finish_with failed now run)
      ]
]

abbrev pub next_step : ℕ → String → Step → StepStatus → Run → Next
next_step now cur step success run = go (truthy step.on_success) run
next_step now cur step failure run = on_failed_step now cur step run
next_step now cur step (other s) run = stop (finish_with failed now run)

module _ (w : World) where
  -- The row after the handler's call: the step is logged and its updates are in the context.
  unfoldable pub after_handler : ℕ → String → Step → Run → Run
  unfolding append_step_log
  after_handler i cur step run =
      let (result, patch) = w.handler i step run in
      let handled = record run {
        context = patch.context;
        current_task_id = patch.current_task_id;
      } in
      let logged = append_step_log handled (step_done cur step.type result.status result.output) in
      record logged { context = update logged.context result.context_updates }

  -- The step's status decides; other sessions may have written to the row in the meantime.
  unfoldable pub execute_step : ℕ → String → Step → Run → Next
  execute_step i cur step run =
      next_step (w.now i) cur step (w.handler i step run).0.status
        (apply_all (w.during i) (after_handler i cur step run))

  abbrev pub timeout_of : Option ℕ → ℕ
  timeout_of none = 86400000
  timeout_of (some ms) = ms

  abbrev pub elapsed : ℕ → Option ℕ → Option ℕ
  elapsed i none = none
  elapsed i (some started) =
      if ltb (timeout_of w.global_timeout_ms) (w.now i - started)
      then some (w.now i - started)
      else none

  unfoldable pub run_step : ℕ → String → Step → Run → Next
  unfolding execute_step append_step_log
  run_step i cur step run = elim (elapsed i run.started_at) [
    | some ms ↦ stop (
        append_step_log (finish_with timed_out (w.now i) run)
          (global_timeout cur ms (timeout_of w.global_timeout_ms)))
    | none ↦ execute_step i cur step run
  ]

  unfoldable pub at_step : ℕ → Dict Step → String → Run → Next
  unfolding append_step_log
  at_step i index cur run = elim (get index cur) [
    | none ↦ stop (append_step_log (finish_with failed (w.now i) run) (step_not_found cur))
    | some step ↦ run_step i cur step (record run { current_step_id = some cur })
  ]

  -- The branches on the status that the refresh has loaded.
  abbrev pub by_status : ℕ → Dict Step → String → RunStatus → Run → Next
  by_status i index cur paused run = stop (record run { current_step_id = some cur })
  by_status i index cur cancelled run = stop run
  by_status i index cur timed_out run = stop run
  by_status i index cur _ run = at_step i index cur run

  unfoldable pub round : ℕ → Dict Step → String → Run → Next
  round i index cur run =
      let row = apply_all (w.before i) run in by_status i index cur row.status row

  abbrev complete : RunStatus → ℕ → Run → Run
  complete running now run = record run {
    status = completed;
    finished_at = some now;
    current_step_id = none;
  }
  complete _ now run = run

  -- After the last step.
  unfoldable pub finish : ℕ → Run → Run
  finish i run = let row = apply_all (w.before i) run in complete row.status (w.now i) row

  -- The `while` loop; one unit of fuel for each round.
  unfoldable pub loop : ℕ → ℕ → Dict Step → Option String → Run → Outcome
  loop zero i index cur run = unfinished
  loop (suc fuel) i index none run = ended (finish i run)
  loop (suc fuel) i index (some cur) run = elim (round i index cur run) [
    | go next r ↦ loop fuel (suc i) index next r
    | stop r ↦ ended r
    | crash r ↦ raised r
  ]

  -- `run.current_step_id or steps[0]["id"]`
  abbrev pub start_step : Option String → Step → Option String
  start_step current first = elim (truthy current) [
    | some id ↦ some id
    | none ↦ truthy (some first.id)
  ]

  abbrev pub over_steps : ℕ → List Step → Run → Outcome
  over_steps fuel [] run = ended (finish_with completed (w.now 0) run)
  over_steps fuel (s ∷ ss) run =
      loop fuel 0 (index_steps (s ∷ ss) []) (start_step run.current_step_id s) run

  abbrev pub when_running : RunStatus → ℕ → Run → Outcome
  when_running running fuel run = over_steps fuel run.steps_snapshot run
  when_running _ fuel run = ended run

  unfoldable pub execute_run : ℕ → Run → Outcome
  execute_run fuel run = when_running run.status fuel run

  -- The handler of the exceptions that `_execute_run` raises.
  abbrev pub mark_failed : RunStatus → ℕ → Run → Run
  mark_failed running now run = append_step_log (finish_with failed now run) executor_error
  mark_failed _ now run = run

  unfoldable pub settle : ℕ → Outcome → Option Run
  settle now (ended r) = some r
  settle now (raised r) = some (mark_failed r.status now r)
  settle now unfinished = none

  -- `now` is the clock when the exception is handled.
  unfoldable pub execute_run_safe : ℕ → ℕ → Run → Option Run
  unfolding execute_run settle append_step_log
  execute_run_safe fuel now run = settle now (execute_run fuel run)
