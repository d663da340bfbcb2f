-- ===== src/Pipeline/Steps/Tests.antt =====
-- step_handlers.py: runs of the handlers, and their theorems at small inputs.
use sphere_platform.Base.{String, true, none, some, [], ◌∷◌, ◌≡◌, refl}
use sphere_platform.Base.Dict.{Dict, get, put}
use sphere_platform.Pipeline.Value.{Value, num, str, bool, items, nil, cons}
use sphere_platform.Pipeline.Condition.{evaluate_condition, value_eq, order, among}
use sphere_platform.Pipeline.Run.{
  Run, Step, StepStatus, StepResult, success, failure, no_output, running, index_steps, looped,
}
use sphere_platform.Pipeline.Executor.{World}
use sphere_platform.Pipeline.Steps.{Outside, returned, handler, handle_loop, result}
use sphere_platform.Pipeline.Steps.Loop.{Report, handle_loop-Report}

abbrev step : String → String → Dict Value → Step
step id type params = record {
  id = id;
  type = type;
  params = params;
  on_success = some "next";
  on_failure = none;
  timeout_ms = 60000;
  retries = 0;
}

abbrev tap : Step
tap = step "tap" "action" []

abbrev looping : Step
looping = step "again" "loop" (("iterations", num 3) ∷ ("sub_step_id", str "tap") ∷ [])

abbrev both : String → Step
both mode =
    step "both" "parallel"
      (("mode", str mode) ∷ ("sub_steps", items (cons (str "tap") (cons (str "again") nil))) ∷ [])

abbrev check : Step
check = step "check" "condition" (
    ("context_key", str "level")
    ∷ ("operator", str "gt")
    ∷ ("expected_value", num 5)
    ∷ ("on_true", str "reward")
    ∷ [])

abbrev run : Run
run = record {
  id = "r";
  device_id = "d";
  status = running;
  current_step_id = none;
  current_task_id = none;
  context = ("level", num 7) ∷ [];
  steps_snapshot = tap ∷ looping ∷ [];
  step_logs = [];
  started_at = some 0;
  finished_at = none;
}

-- Each call of a sub-step ends with the status `s`.
abbrev always : StepStatus → Step → Run → StepResult × Run
always s x r = (result s no_output, r)

abbrev outside : Outside
outside = record { others = λ x r. none; timed_out = λ x r. none }

abbrev world : World
world = record {
  now = λ i. 0;
  global_timeout_ms = none;
  before = λ i. [];
  during = λ i. [];
  handler = λ i x r. handler outside 1 x r;
}

in_list :
    evaluate_condition (num 2) "in" (items (cons (num 1) (cons (bool true) (cons (num 2) nil))))
    ≡ some true
unfolding evaluate_condition among value_eq
in_list = refl

uncomparable : evaluate_condition (num 2) "gt" (str "1") ≡ none
unfolding evaluate_condition order
uncomparable = refl

three_rounds :
    handle_loop (always success) looping run
    ≡ returned
        (result success (looped (success ∷ success ∷ success ∷ []) 3))
        (record run { context = ("level", num 7) ∷ ("_loop_iteration", num 2) ∷ [] })
unfolding handle_loop index_steps put get
three_rounds = refl

handle_loop-Report_example :
    Report (always failure) tap run 3 (handle_loop (always failure) looping run)
unfolding index_steps put get
handle_loop-Report_example =
    handle_loop-Report (always failure) looping tap run 3 refl refl refl refl
