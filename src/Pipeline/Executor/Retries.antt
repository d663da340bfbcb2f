-- ===== src/Pipeline/Executor/Retries.antt =====
-- pipeline_executor.py: how often a failing step is attempted.
use sphere_platform.Base.{
  ℕ, zero, suc, ◌+◌, ◌<◌, String, Option, none, some, [], length, length-append, ltb, lt→ltb,
  ltb_self, ◌≡◌, refl, ap, arith, ◌∙◌, eq_refl, truthy,
}
use sphere_platform.Base.Dict.{Dict, get, put, get-put}
use sphere_platform.Pipeline.Value.{num}
use sphere_platform.Pipeline.Run.{Run, Step, failure, running, failed}
use sphere_platform.Pipeline.Requests.{apply_all}
use sphere_platform.Pipeline.Executor.{
  World, go, stop, ended, after_handler, execute_step, run_step, round, at_step, loop, elapsed,
  on_failed_step, retry_key, retry_count, finish_with, update, by_status,
}

-- Nothing but the step itself acts on the run: no request, no timeout, and each attempt fails
-- without touching the context.
pub record Alone (w : World) (started : Option ℕ) (step : Step) : Type 0 where
  pub no_request_before : (i : ℕ) → w.before i ≡ []
  pub no_request_during : (i : ℕ) → w.during i ≡ []
  pub in_time : (i : ℕ) → elapsed w i started ≡ none
  pub fails : (i : ℕ) (r : Run) → (w.handler i step r).0.status ≡ failure
  pub no_updates : (i : ℕ) (r : Run) → (w.handler i step r).0.context_updates ≡ []
  pub same_context : (i : ℕ) (r : Run) → (w.handler i step r).1.context ≡ r.context

module _ (w : World) (started : Option ℕ) (step : Step) (alone : Alone w started step) where
  attempted : ℕ → String → Run → Run
  attempted i cur run = after_handler w i cur step (record run { current_step_id = some cur })

  found_step :
      (i : ℕ) (index : Dict Step) (cur : String) (run : Run)
      → get index cur ≡ some step
      → at_step w i index cur run
        ≡ run_step w i cur step (record run { current_step_id = some cur })
  unfolding at_step
  found_step i index cur run e = rw (e, at_step)

  run_step_in_time :
      (i : ℕ) (cur : String) (run : Run)
      → run.started_at ≡ started
      → run_step w i cur step run
        ≡ on_failed_step (w.now i) cur step (after_handler w i cur step run)
  unfolding run_step execute_step apply_all
  run_step_in_time i cur run st =
      rw (ap (elapsed w i) st ∙ alone.in_time i, run_step)
        (rw (alone.fails i run, alone.no_request_during i))

  round_of_failure :
      (i : ℕ) (index : Dict Step) (cur : String) (run : Run)
      → run.started_at ≡ started
      → run.status ≡ running
      → get index cur ≡ some step
      → round w i index cur run ≡ on_failed_step (w.now i) cur step (attempted i cur run)
  unfolding round apply_all attempted
  round_of_failure i index cur run st ru found =
      ap (λ rs. by_status w i index cur (apply_all rs run).status (apply_all rs run))
        (alone.no_request_before i)
      ∙ ap (λ s. by_status w i index cur s run) ru
      ∙ found_step i index cur run found
      ∙ run_step_in_time i cur (record run { current_step_id = some cur }) st

  attempted-context :
      (i : ℕ) (cur : String) (run : Run) → (attempted i cur run).context ≡ run.context
  unfolding attempted after_handler update
  attempted-context i cur run = rw (alone.no_updates, update) (alone.same_context i _)

  attempted-logs :
      (i : ℕ) (cur : String) (run : Run)
      → length (attempted i cur run).step_logs ≡ length run.step_logs + 1
  unfolding attempted after_handler
  attempted-logs i cur run = length-append run.step_logs _

  attempted-started_at :
      (i : ℕ) (cur : String) (run : Run) → (attempted i cur run).started_at ≡ run.started_at
  unfolding attempted after_handler
  attempted-started_at i cur run = refl

  attempted-status : (i : ℕ) (cur : String) (run : Run) → (attempted i cur run).status ≡ run.status
  unfolding attempted after_handler
  attempted-status i cur run = refl

  abbrev Counted : Run → String → ℕ → Type 0
  Counted row cur k = retry_count (get row.context (retry_key cur)) ≡ some k

  attempted-Counted :
      (i k : ℕ) (cur : String) (run : Run) → Counted run cur k → Counted (attempted i cur run) cur k
  attempted-Counted i k cur run c =
      ap (λ ctx. retry_count (get ctx (retry_key cur))) (attempted-context i cur run) ∙ c

  -- One failure, with k retries used up.
  retried :
      (now k : ℕ) (cur : String) (row : Run)
      → Counted row cur k
      → k < step.retries
      → on_failed_step now cur step row
        ≡ go (some cur) (record row { context = put row.context (retry_key cur) (num (k + 1)) })
  unfolding on_failed_step
  retried now k cur row c h = rw (c, on_failed_step) (rw (lt→ltb _ _ h))

  given_up :
      (now k : ℕ) (cur : String) (row : Run)
      → Counted row cur k
      → k ≡ step.retries
      → truthy step.on_failure ≡ none
      → on_failed_step now cur step row ≡ stop (finish_with failed now row)
  unfolding on_failed_step
  given_up now k cur row c h f =
      rw (c, on_failed_step)
        (rw (ap (λ n. ltb n step.retries) h ∙ ltb_self step.retries) (rw (f, on_failed_step)))

  -- From k used retries, m more are made before the run fails.
  attempts :
      (m k i : ℕ) (index : Dict Step) (cur : String) (run : Run)
      → k + m ≡ step.retries
      → run.started_at ≡ started
      → run.status ≡ running
      → get index cur ≡ some step
      → truthy step.on_failure ≡ none
      → Counted run cur k
      → (r : Run) × (loop w (suc m) i index (some cur) run ≡ ended r)
        × (r.status ≡ failed)
        × (length r.step_logs ≡ length run.step_logs + (m + 1))
  unfolding loop
  attempts zero k i index cur run sum st ru found f c =
      let row : Run = attempted i cur run in
      (
        finish_with failed (w.now i) row,
        rw (
          round_of_failure i index cur run st ru found
              ∙ given_up (w.now i) k cur row (attempted-Counted i k cur run c) (omega arith) f,
          loop,
        ),
        refl,
        omega (arith, attempted-logs i cur run),
      )
  attempts (suc m) k i index cur run sum st ru found f c =
      let row : Run = attempted i cur run in
      let next : Run = record row { context = put row.context (retry_key cur) (num (k + 1)) } in
      let (r, e, s, l) =
        attempts m (k + 1) (suc i) index cur next (omega arith)
          (attempted-started_at i cur run ∙ st) (attempted-status i cur run ∙ ru) found f
          (rw (get-put row.context (retry_key cur) (retry_key cur), eq_refl)) in
      (
        r,
        rw
            (
              round_of_failure i index cur run st ru found
                  ∙ retried (w.now i) k cur row (attempted-Counted i k cur run c) (omega arith),
              loop,
            )
            e,
        s,
        omega (arith, l, attempted-logs i cur run),
      )

-- A step of a running run that always fails, with no `on_failure` and nothing else acting on the
-- run, is attempted exactly `retries + 1` times: then the run has failed, and the log has grown by
-- one entry for each attempt.
pub retries_exhausted :
    (w : World) (step : Step) (index : Dict Step) (cur : String) (run : Run)
    → Alone w run.started_at step
    → run.status ≡ running
    → get index cur ≡ some step
    → truthy step.on_failure ≡ none
    → get run.context (retry_key cur) ≡ none
    → (r : Run) × (loop w (suc step.retries) 0 index (some cur) run ≡ ended r)
      × (r.status ≡ failed)
      × (length r.step_logs ≡ length run.step_logs + (step.retries + 1))
retries_exhausted w step index cur run alone ru found f c =
    attempts w run.started_at step alone step.retries 0 0 index cur run (omega arith) refl ru found
      f (rw (c, retry_count))
