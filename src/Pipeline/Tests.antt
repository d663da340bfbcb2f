-- ===== src/Pipeline/Tests.antt =====
-- pipeline_executor.py and step_handlers.py: runs on small pipelines, and the theorems at them.
use sphere_platform.Base.{
  ◌+◌, ◌*◌, String, Option, none, some, List, [], ◌∷◌, length, ◌≡◌, ◌≢◌, refl, arith,
}
use sphere_platform.Base.Dict.{Dict, get, put}
use sphere_platform.Pipeline.Value.{Value, num}
use sphere_platform.Pipeline.Run.{
  Run, Step, StepStatus, StepResult, success, failure, no_output, running, paused, failed,
  completed, cancelled, timed_out, index_steps, step_done, global_timeout,
}
use sphere_platform.Pipeline.Requests.{
  cancel, pause, resume, apply_all, poll, row_after, resume_run,
}
use sphere_platform.Pipeline.Executor.{
  World, stop, ended, loop, round, execute_run_safe, execute_step, execute_run, after_handler,
  finish_with, at_step, run_step, update, finish,
}
use sphere_platform.Pipeline.Executor.Idle.{execute_run_safe-settles}
use sphere_platform.Pipeline.Executor.Retries.{retries_exhausted}
use sphere_platform.Pipeline.Executor.History.{Extends, execute_run_safe-Extends}
use sphere_platform.Pipeline.Executor.Races.{cancellation_overwritten, pause_keeps_position}

abbrev step : String → String → Dict Value → Option String → Step
step id type params next = record {
  id = id;
  type = type;
  params = params;
  on_success = next;
  on_failure = none;
  timeout_ms = 60000;
  retries = 2;
}

abbrev run_of : List Step → Run
run_of steps = record {
  id = "r";
  device_id = "d";
  status = running;
  current_step_id = none;
  current_task_id = none;
  context = ("level", num 7) ∷ [];
  steps_snapshot = steps;
  step_logs = [];
  started_at = some 0;
  finished_at = none;
}

abbrev tap : Step
tap = step "tap" "action" [] none

abbrev outcome : StepStatus → StepResult
outcome s = record { status = s; output = no_output; context_updates = [] }

-- Every step ends with the same status; a round takes a second; nobody writes to the row.
abbrev steady : StepStatus → World
steady s = record {
  now = λ i. 1000 * i;
  global_timeout_ms = some 60000;
  before = λ i. [];
  during = λ i. [];
  handler =
      λ i x r. (outcome s, record { context = r.context; current_task_id = r.current_task_id });
}

abbrev slow : World
slow = record (steady failure) { now = λ i. 100000 * (i + 1) }

abbrev frozen : World
frozen = record (steady failure) { now = λ i. 0 }

-- A pipeline of two steps that follow one another for ever.
abbrev cyclic : List Step
cyclic = step "a" "delay" [] (some "b") ∷ step "b" "delay" [] (some "a") ∷ []

one_step_completes :
    execute_run_safe (steady success) 9 0 (run_of (tap ∷ []))
    ≡ some (record (run_of (tap ∷ [])) {
      status = completed;
      step_logs = step_done "tap" "action" success no_output ∷ [];
      finished_at = some 1000;
    })
unfolding execute_run_safe loop round at_step run_step execute_step after_handler update finish
    apply_all index_steps put get
one_step_completes = refl

execute_run_safe-settles_example :
    (r : Run) × (execute_run_safe (steady success) 62 0 (run_of cyclic) ≡ some r)
    × (r.status ≢ running)
execute_run_safe-settles_example =
    execute_run_safe-settles (steady success) 61 62 0 0 (run_of cyclic) refl (omega arith)
      (omega arith)

retries_exhausted_example :
    (r : Run) × (loop frozen 3 0 (index_steps (tap ∷ []) []) (some "tap") (run_of (tap ∷ []))
      ≡ ended r)
    × (r.status ≡ failed)
    × (length r.step_logs ≡ 3)
unfolding index_steps put get
retries_exhausted_example =
    retries_exhausted frozen tap (index_steps (tap ∷ []) []) "tap" (run_of (tap ∷ []))
      (record {
        no_request_before = λ i. refl;
        no_request_during = λ i. refl;
        in_time = λ i. refl;
        fails = λ i r. refl;
        no_updates = λ i r. refl;
        same_context = λ i r. refl;
      })
      refl refl refl refl

abbrev out_of_time : Run
out_of_time = record (run_of (tap ∷ [])) {
  status = timed_out;
  current_step_id = some "tap";
  step_logs = global_timeout "tap" 100000 60000 ∷ [];
  finished_at = some 100000;
}

times_out : execute_run_safe slow 3 0 (run_of (tap ∷ [])) ≡ some out_of_time
unfolding execute_run_safe loop round at_step run_step execute_step after_handler update finish
    apply_all index_steps put get
times_out = refl

execute_run_safe-Extends_example : Extends (run_of (tap ∷ [])) out_of_time
execute_run_safe-Extends_example =
    execute_run_safe-Extends slow 3 0 (run_of (tap ∷ [])) out_of_time times_out

abbrev last_try : Step
last_try = record tap { retries = 0 }

abbrev cancelling : World
cancelling = record frozen { during = λ i. cancel 5 ∷ [] }

cancellation_overwritten_example :
    let after = after_handler cancelling 0 "tap" last_try (run_of (last_try ∷ [])) in
    (row : Run) × (apply_all (cancel 5 ∷ []) after ≡ row)
    × (row.status ≡ cancelled)
    × (execute_step cancelling 0 "tap" last_try (run_of (last_try ∷ []))
        ≡ stop (finish_with failed 0 row))
unfolding after_handler update get
cancellation_overwritten_example =
    cancellation_overwritten cancelling 0 5 "tap" last_try (run_of (last_try ∷ [])) refl refl refl
      refl refl

abbrev pausing : World
pausing = record frozen { before = λ i. pause ∷ [] }

pause_keeps_position_example :
    (r : Run) × (round pausing 0 (index_steps cyclic []) "b" (run_of cyclic) ≡ stop r)
    × (r.status ≡ paused)
    × (r.step_logs ≡ [])
    × (let taken = poll 7 (row_after r (resume_run r)) in
        execute_run frozen 9 taken ≡ loop frozen 9 0 (index_steps cyclic []) (some "b") taken)
pause_keeps_position_example =
    pause_keeps_position pausing 0 "b" (run_of cyclic) (index_steps cyclic []) frozen 7 9
      (step "a" "delay" [] (some "b")) (step "b" "delay" [] (some "a") ∷ []) refl refl refl refl

abbrev flicker : World
flicker = record frozen { before = λ i. pause ∷ resume ∷ [] }
