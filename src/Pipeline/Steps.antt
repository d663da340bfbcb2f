-- ===== src/Pipeline/Steps.antt =====
-- backend/services/orchestrator/step_handlers.py: `StepHandlerRegistry.execute` and the handlers of
-- condition, delay, parallel and loop steps. The handlers that wait for other systems
-- (execute_script, action, wait_for_event, n8n_workflow, sub_pipeline, assign_account,
-- release_account) are the argument `others` of an `Outside`. `depth` is Python's recursion limit:
-- a parallel or loop step calls `execute` on its sub-steps. The `sub_steps` of a parallel step are
-- taken to be a list of texts, as its docstring says.
pub mod Loop
pub mod Parallel
pub mod Branch
mod Tests
use sphere_platform.Base.{
  ℕ, zero, suc, ◌+◌, String, Bool, true, false, not, ◌&&◌, ◌||◌, Option, none, some, List, [], ◌∷◌,
  ◌++◌, ◌==◌, if◌then◌else◌, ltb, nat_eq, min, max, length,
}
use sphere_platform.Base.Dict.{Dict, get, put, get_or}
use sphere_platform.Pipeline.Value.{
  Value, Items, null, bool, num, str, items, object, nil, cons, as_number, is_truthy,
}
use sphere_platform.Pipeline.Condition.{evaluate_condition}
use sphere_platform.Pipeline.Run.{
  Run, Step, StepStatus, StepResult, Output, success, failure, other, no_output, condition_was,
  delayed_ms, parallel_of, loop_stopped, looped, index_steps,
}
use sphere_platform.Pipeline.Executor.{Patch}

-- What a handler call comes to: a result, or an exception; and the run as it stands then.
pub data Call : Type 0 where
  returned : StepResult → Run → Call
  raises : Run → Call

pub record Outside : Type 0 where
  pub others : Step → Run → Option Call
  -- The run as a handler leaves it that is cancelled by the step's timeout; `none` is no timeout.
  pub timed_out : Step → Run → Option Run

abbrev pub failed_step : StepResult
failed_step = record { status = failure; output = no_output; context_updates = [] }

abbrev pub result : StepStatus → Output → StepResult
result s o = record { status = s; output = o; context_updates = [] }

-- `params.get(key)`
abbrev pub param : Step → String → Value
param step key = get_or step.params key null

abbrev pub str_or : Value → String → Option String
str_or (str s) d = some s
str_or v d = none

-- `params.get(key, default)` where the code goes on with a text.
abbrev pub text_param : Step → String → String → Option String
text_param step key d = elim (get step.params key) [ none ↦ some d | some v ↦ str_or v d ]

-- `params.get(key, default)` where the code goes on with a number.
abbrev pub number_param : Step → String → ℕ → Option ℕ
number_param step key d = elim (get step.params key) [ none ↦ some d | some v ↦ as_number v ]

abbrev pub flag_param : Step → String → Bool → Bool
flag_param step key d = elim (get step.params key) [ none ↦ d | some v ↦ is_truthy v ]

-- A key that is a list or a dict raises TypeError; one that is no text is not found.
pub data Lookup : Type 0 where
  found : Step → Lookup
  missing unhashable : Lookup

abbrev pub of_option : Option Step → Lookup
of_option none = missing
of_option (some s) = found s

abbrev pub look_up : Dict Step → Value → Lookup
look_up index (str s) = of_option (get index s)
look_up index (items xs) = unhashable
look_up index (object fs) = unhashable
look_up index _ = missing

-- handle_condition: `on_true` only adds a key to the context, and `on_false` does nothing.
abbrev pub next_override : Value → Dict Value
next_override v = if is_truthy v then ("_next_step_override", v) ∷ [] else []

-- `run.context.get(context_key)`
abbrev pub context_value : Dict Value → Option Value → Option Value
context_value ctx none = some (get_or ctx "" null)
context_value ctx (some (str k)) = some (get_or ctx k null)
context_value ctx (some (items xs)) = none
context_value ctx (some (object fs)) = none
context_value ctx (some _) = some null

abbrev pub condition_result : Value → Option Bool → Run → Call
condition_result on_true none run = raises run
condition_result on_true (some true) run =
    returned
      (record {
        status = success;
        output = condition_was true;
        context_updates = ("_condition_result", bool true) ∷ next_override on_true;
      })
      run
condition_result on_true (some false) run =
    returned
      (record {
        status = failure;
        output = condition_was false;
        context_updates = ("_condition_result", bool false) ∷ [];
      })
      run

abbrev pub operator_of : Step → String
operator_of step = elim (text_param step "operator" "eq") [ none ↦ "" | some o ↦ o ]

unfoldable pub handle_condition : Step → Run → Call
handle_condition step run = elim (context_value run.context (get step.params "context_key")) [
  | none ↦ raises run
  | some actual ↦
      condition_result (param step "on_true")
        (evaluate_condition actual (operator_of step) (param step "expected_value")) run
]

-- handle_delay: from 100 ms to 5 minutes.
unfoldable pub handle_delay : Step → Run → Call
handle_delay step run = elim (number_param step "delay_ms" 1000) [
  | none ↦ raises run
  | some ms ↦ returned (result success (delayed_ms (max 100 (min ms 300000)))) run
]

module _ (execute : Step → Run → StepResult × Run) where
  abbrev pub is_failure : StepStatus → Bool
  is_failure failure = true
  is_failure _ = false

  abbrev pub is_success : StepStatus → Bool
  is_success success = true
  is_success _ = false

  -- The `for` loop of handle_loop: `left` iterations from `i` on.
  unfoldable pub iterate : Step → Bool → ℕ → ℕ → ℕ → List StepStatus → Run → Call
  iterate sub break total zero i results run = returned (result success (looped results total)) run
  iterate sub break total (suc left) i results run =
      let counted : Run = record run { context = put run.context "_loop_iteration" (num i) } in
      let (res, after) = execute sub counted in
      let results' = results ++ res.status ∷ [] in
      elim (is_failure res.status && break) [
        | true ↦ returned (result failure (loop_stopped results' i)) after
        | false ↦ iterate sub break total left (i + 1) results' after
      ]

  abbrev pub loop_over : Lookup → Bool → ℕ → Run → Call
  loop_over missing break total run = returned failed_step run
  loop_over unhashable break total run = raises run
  loop_over (found sub) break total run = iterate sub break total total 0 [] run

  unfoldable pub handle_loop : Step → Run → Call
  unfolding iterate
  handle_loop step run = elim (number_param step "iterations" 1) [
    | none ↦ raises run
    | some n ↦
        if is_truthy (param step "sub_step_id")
        then loop_over (look_up (index_steps run.steps_snapshot []) (param step "sub_step_id"))
            (flag_param step "break_on_failure" true) (min n 1000) run
        else returned failed_step run
  ]

  -- handle_parallel: the sub-steps that the snapshot has, in the order of their ids. Their calls
  -- are made one after another: no interleaving of their awaits is modelled.
  unfoldable pub run_all : List Step → Run → List StepStatus × Run
  run_all [] run = ([], run)
  run_all (s ∷ ss) run =
      let (res, after) = execute s run in
      let (rest, last) = run_all ss after in (res.status ∷ rest, last)

abbrev pub texts : Items → List String
texts nil = []
texts (cons (str s) vs) = s ∷ texts vs
texts (cons v vs) = texts vs

abbrev pub id_list : Value → List String
id_list (items vs) = texts vs
id_list _ = []

-- `[step_index[sid] for sid in sub_step_ids if sid in step_index]`
unfoldable pub known_steps : Dict Step → List String → List Step
known_steps index [] = []
known_steps index (id ∷ ids) =
    let rest = known_steps index ids in elim (get index id) [ none ↦ rest | some s ↦ s ∷ rest ]

-- The i-th result is reported under the i-th of all ids.
unfoldable pub label : List String → List StepStatus → List (String × StepStatus)
label (id ∷ ids) (s ∷ ss) = (id, s) ∷ label ids ss
label [] ss = []
label ids [] = []

unfoldable pub count_if : (StepStatus → Bool) → List StepStatus → ℕ
count_if p [] = 0
count_if p (s ∷ ss) = let rest = count_if p ss in if p s then suc rest else rest

abbrev pub succeeded : StepStatus → Bool
succeeded success = true
succeeded _ = false

unfoldable pub judge : String → List String → List StepStatus → StepResult
unfolding count_if label
judge mode ids results =
    let successes = count_if succeeded results in
    let failures = count_if (λ s. not (succeeded s)) results in
    let output = parallel_of (label ids results) successes failures in
    if mode == "all" && ltb 0 failures then result failure output else result success output

module _ (execute : Step → Run → StepResult × Run) where
  abbrev pub parallel_over : String → List String → List Step → Run → Call
  parallel_over mode ids [] run = returned failed_step run
  parallel_over mode ids (s ∷ ss) run =
      let (results, after) = run_all execute (s ∷ ss) run in returned (judge mode ids results) after

  abbrev pub parallel_ids : List String → Step → Run → Call
  parallel_ids [] step run = returned (result success (parallel_of [] 0 0)) run
  parallel_ids (id ∷ ids) step run =
      parallel_over (elim (text_param step "mode" "all") [ none ↦ "" | some m ↦ m ]) (id ∷ ids)
        (known_steps (index_steps run.steps_snapshot []) (id ∷ ids)) run

  unfoldable pub handle_parallel : Step → Run → Call
  unfolding run_all known_steps judge
  handle_parallel step run = parallel_ids (id_list (param step "sub_steps")) step run

-- The exceptions of a handler become failures.
abbrev pub settle : Call → StepResult × Run
settle (returned r run) = (r, run)
settle (raises run) = (failed_step, run)

module _ (o : Outside) where
  unfoldable pub dispatch : (Step → Run → StepResult × Run) → Step → Run → Call
  unfolding handle_condition handle_delay handle_parallel handle_loop
  dispatch execute step run =
      if step.type == "condition"
      then handle_condition step run
      else if step.type == "delay"
      then handle_delay step run
      else if step.type == "parallel"
      then handle_parallel execute step run
      else if step.type == "loop"
      then handle_loop execute step run
      else elim (o.others step run) [ none ↦ returned failed_step run | some call ↦ call ]

  unfoldable pub execute : ℕ → Step → Run → StepResult × Run
  unfolding dispatch
  execute zero step run = (failed_step, run)
  execute (suc depth) step run = elim (o.timed_out step run) [
    | some left ↦ (failed_step, left)
    | none ↦ settle (dispatch (execute depth) step run)
  ]

  -- What the executor calls: the columns that the handlers assign go back to the row.
  unfoldable pub handler : ℕ → Step → Run → StepResult × Patch
  unfolding execute
  handler depth step run =
      let (res, after) = execute depth step run in
      (res, record { context = after.context; current_task_id = after.current_task_id })
