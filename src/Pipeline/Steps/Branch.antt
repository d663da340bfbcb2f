-- ===== src/Pipeline/Steps/Branch.antt =====
-- step_handlers.py, `handle_condition`, under the executor: where a condition step leads.
use sphere_platform.Base.{
  ℕ, suc, String, true, false, none, some, [], ◌∷◌, ◌≡◌, ap, ◌∙◌, ◌==◌, ◌++◌, truthy,
}
use sphere_platform.Base.Dict.{Dict, get, put, get-put}
use sphere_platform.Pipeline.Value.{Value, str, bool}
use sphere_platform.Pipeline.Condition.{evaluate_condition}
use sphere_platform.Pipeline.Run.{Run, Step, StepResult, success, condition_was, step_done}
use sphere_platform.Pipeline.Requests.{apply_all}
use sphere_platform.Pipeline.Executor.{World, go, execute_step, after_handler, update}
use sphere_platform.Pipeline.Steps.{
  Outside, returned, handle_condition, dispatch, execute, handler, context_value, operator_of,
  param, condition_result, settle,
}

overriding :
    (target : String)
    → (target == "") ≡ false
    → (run : Run)
    → condition_result (str target) (some true) run
      ≡ returned
          (record {
            status = success;
            output = condition_was true;
            context_updates =
                ("_condition_result", bool true) ∷ ("_next_step_override", str target) ∷ [];
          })
          run
overriding target ne run = rw ne

module _ (o : Outside) (depth : ℕ) (step : Step) (run : Run) (actual : Value)
    (target : String) where
  -- The condition of `step` holds of the run's context, and its `on_true` names a step.
  pub record Holds : Type 0 where
    pub type_ok : step.type ≡ "condition"
    pub in_time : o.timed_out step run ≡ none
    pub reads : context_value run.context (get step.params "context_key") ≡ some actual
    pub holds :
        evaluate_condition actual (operator_of step) (param step "expected_value") ≡ some true
    pub on_true : param step "on_true" ≡ str target
    pub named : (target == "") ≡ false

  abbrev said : StepResult
  said = record {
    status = success;
    output = condition_was true;
    context_updates = ("_condition_result", bool true) ∷ ("_next_step_override", str target) ∷ [];
  }

  condition_said : Holds → handle_condition step run ≡ returned said run
  unfolding handle_condition
  condition_said h =
      rw (h.reads, handle_condition)
        (rw h.holds
          (ap (λ v. condition_result v (some true) run) h.on_true ∙ overriding target h.named run))

  dispatched : Holds → dispatch o (execute o depth) step run ≡ returned said run
  unfolding dispatch
  dispatched h = rw (h.type_ok) (condition_said h)

  executed : Holds → execute o (suc depth) step run ≡ (said, run)
  unfolding execute
  executed h = rw (h.in_time, execute) (ap settle (dispatched h))

  handled :
      Holds
      → handler o (suc depth) step run
        ≡ (said, record { context = run.context; current_task_id = run.current_task_id })
  unfolding handler
  handled h = rw (executed h)

-- The docs of the step say that `on_true` overrides `on_success`. When the condition of a step holds
-- and its `on_true` names a step, the target is stored in the context, and the executor goes on
-- with `on_success` all the same.
on_true_ignored :
    (o : Outside) (w : World) (i depth : ℕ) (cur target : String) (step : Step) (run : Run)
    (actual : Value)
    → Holds o depth step run actual target
    → w.handler i step run ≡ handler o (suc depth) step run
    → w.during i ≡ []
    → (row : Run) × (execute_step w i cur step run ≡ go (truthy step.on_success) row)
      × (get row.context "_next_step_override" ≡ some (str target))
unfolding execute_step after_handler update apply_all
on_true_ignored o w i depth cur target step run actual h by quiet =
    let e = by ∙ handled o depth step run actual target h in
    let stored : Dict Value =
      put (put run.context "_condition_result" (bool true)) "_next_step_override" (str target) in
    (
      record run {
        context = stored;
        step_logs = run.step_logs ++ step_done cur step.type success (condition_was true) ∷ [];
      },
      rw (quiet, e),
      rw get-put,
    )
