-- ===== src/Pipeline/Executor/Idle.antt =====
-- pipeline_executor.py: a run that was taken is not left in the status `running`.
use sphere_platform.Base.{
  ℕ, zero, suc, ◌-◌, ◌<◌, String, Option, none, some, List, [], ◌∷◌, ◌≡◌, ◌≢◌, inl, inr, refl,
  Option-cases, arith,
}
use sphere_platform.Base.Dict.{Dict, get}
use sphere_platform.Pipeline.Run.{
  Run, RunStatus, Step, StepStatus, success, failure, other, queued, running, paused, cancelled,
  timed_out, append_step_log,
}
use sphere_platform.Pipeline.Requests.{apply_all}
use sphere_platform.Pipeline.Executor.{
  World, Next, go, stop, crash, Outcome, ended, raised, unfinished, execute_step, run_step, round,
  finish, complete, loop, over_steps, when_running, execute_run, settle, mark_failed,
  execute_run_safe, timeout_of, elapsed, next_step, on_failed_step, by_status, at_step,
}
use sphere_platform.Pipeline.Executor.Ends.{execute_run_ends}

abbrev IsIdle : Run → Type 0
IsIdle r = r.status ≢ running

abbrev Stops : (Run → Type 0) → Next → Type 0
Stops P (go next r) = Unit
Stops P (stop r) = P r
Stops P (crash r) = Unit

next_step-IsIdle :
    (now : ℕ) (cur : String) (step : Step) (s : StepStatus) (run : Run)
    → Stops IsIdle (next_step now cur step s run)
unfolding on_failed_step
next_step-IsIdle now cur step success run = tt
next_step-IsIdle now cur step failure run = ground arith
next_step-IsIdle now cur step (other s) run = λ e. cc

module _ (w : World) where
  run_step-IsIdle :
      (i : ℕ) (cur : String) (step : Step) (run : Run) → Stops IsIdle (run_step w i cur step run)
  unfolding run_step execute_step append_step_log
  run_step-IsIdle i cur step run = elim (Option-cases (elapsed w i run.started_at)) [
    | inl e ↦
        rw (e, run_step) (next_step-IsIdle (w.now i) cur step (w.handler i step run).0.status _)
    | inr (ms, e) ↦ rw (e, run_step) (λ h. cc)
  ]

  at_step-IsIdle :
      (i : ℕ) (index : Dict Step) (cur : String) (run : Run)
      → Stops IsIdle (at_step w i index cur run)
  unfolding at_step append_step_log
  at_step-IsIdle i index cur run = elim (Option-cases (get index cur)) [
    | inl e ↦ rw (e, at_step) (λ h. cc)
    | inr (step, e) ↦
        rw (e, at_step) (run_step-IsIdle i cur step (record run { current_step_id = some cur }))
  ]

  by_status-IsIdle :
      (i : ℕ) (index : Dict Step) (cur : String) (s : RunStatus) (run : Run)
      → run.status ≡ s
      → Stops IsIdle (by_status w i index cur s run)
  by_status-IsIdle i index cur paused run h = λ e. cc
  by_status-IsIdle i index cur cancelled run h = λ e. cc
  by_status-IsIdle i index cur timed_out run h = λ e. cc
  by_status-IsIdle i index cur _ run h = at_step-IsIdle i index cur run

  round-IsIdle :
      (i : ℕ) (index : Dict Step) (cur : String) (run : Run)
      → Stops IsIdle (round w i index cur run)
  unfolding round
  round-IsIdle i index cur run =
      by_status-IsIdle i index cur (apply_all (w.before i) run).status (apply_all (w.before i) run)
        refl

  complete-IsIdle :
      (s : RunStatus) (now : ℕ) (run : Run) → run.status ≡ s → IsIdle (complete w s now run)
  complete-IsIdle running now run h = λ e. cc
  complete-IsIdle queued now run h = λ e. cc
  complete-IsIdle _ now run h = λ e. cc

  abbrev Results : (Run → Type 0) → Outcome → Type 0
  Results P (ended r) = P r
  Results P (raised r) = Unit
  Results P unfinished = Unit

  loop-IsIdle :
      (fuel i : ℕ) (index : Dict Step) (cur : Option String) (run : Run)
      → Results IsIdle (loop w fuel i index cur run)
  unfolding loop
  loop-IsIdle zero i index cur run = tt
  loop-IsIdle (suc fuel) i index none run =
      unfold finish in
      complete-IsIdle (apply_all (w.before i) run).status (w.now i) (apply_all (w.before i) run)
        refl
  loop-IsIdle (suc fuel) i index (some cur) run =
      turn (round w i index cur run) refl (round-IsIdle i index cur run)
        (λ next r. loop-IsIdle fuel (suc i) index next r)
    where
      turn :
          (x : Next)
          → round w i index cur run ≡ x
          → Stops IsIdle (round w i index cur run)
          → ((next : Option String) (r : Run) → Results IsIdle (loop w fuel (suc i) index next r))
          → Results IsIdle (loop w (suc fuel) i index (some cur) run)
      turn (go next r) e h rest = rw (e, loop) (rest next r)
      turn (stop r) e h rest = rw (e, loop) (rw e at h)
      turn (crash r) e h rest = rw (e, loop) tt

  over_steps-IsIdle :
      (fuel : ℕ) (steps : List Step) (run : Run) → Results IsIdle (over_steps w fuel steps run)
  over_steps-IsIdle fuel [] run = λ e. cc
  over_steps-IsIdle fuel (s ∷ ss) run = loop-IsIdle fuel 0 _ _ run

  when_running-IsIdle :
      (fuel : ℕ) (s : RunStatus) (run : Run)
      → run.status ≡ s
      → Results IsIdle (when_running w s fuel run)
  when_running-IsIdle fuel running run h = over_steps-IsIdle fuel run.steps_snapshot run
  when_running-IsIdle fuel queued run h = λ e. cc
  when_running-IsIdle fuel _ run h = λ e. cc

  mark_failed-IsIdle :
      (s : RunStatus) (now : ℕ) (run : Run) → run.status ≡ s → IsIdle (mark_failed w s now run)
  unfolding append_step_log
  mark_failed-IsIdle running now run h = λ e. cc
  mark_failed-IsIdle queued now run h = λ e. cc
  mark_failed-IsIdle _ now run h = λ e. cc

  settle-IsIdle :
      (now : ℕ) (o : Outcome)
      → o ≢ unfinished
      → Results IsIdle o
      → (r : Run) × (settle w now o ≡ some r) × IsIdle r
  unfolding settle
  settle-IsIdle now (ended r) e h = (r, refl, h)
  settle-IsIdle now (raised r) e h =
      (mark_failed w r.status now r, refl, mark_failed-IsIdle r.status now r refl)
  settle-IsIdle now unfinished e h = absurd (e refl)

-- Let a run have been taken at time `t`, and let the clock at the n-th round stand past the
-- pipeline's timeout. Then with fuel for n + 1 rounds `_execute_run_safe` returns, whatever the
-- step handlers answer and whatever requests other sessions write to the row, and the row that it
-- leaves is not in the status `running`.
pub execute_run_safe-settles :
    (w : World) (n fuel t now : ℕ) (run : Run)
    → run.started_at ≡ some t
    → timeout_of w w.global_timeout_ms < w.now n - t
    → n < fuel
    → (r : Run) × (execute_run_safe w fuel now run ≡ some r) × (r.status ≢ running)
unfolding execute_run_safe execute_run
execute_run_safe-settles w n fuel t now run h late f =
    settle-IsIdle w now (when_running w run.status fuel run)
      (unfold execute_run in execute_run_ends w n fuel t run h late f)
      (when_running-IsIdle w fuel run.status run refl)
