-- ===== src/Pipeline/Executor/Ends.antt =====
-- pipeline_executor.py: the loop ends at the latest when the pipeline's timeout has passed, and a
-- run that was taken is not left in the status `running`.
use sphere_platform.Base.{
  ℕ, zero, suc, ◌+◌, ◌-◌, ◌<◌, String, Option, none, some, List, [], ◌∷◌, lt→ltb, ◌≡◌, ◌≢◌, inl,
  inr, refl, Option-cases, arith, ◌∙◌, subst,
}
use sphere_platform.Base.Dict.{Dict, get}
use sphere_platform.Pipeline.Run.{
  Run, RunStatus, Step, running, paused, cancelled, timed_out, StepStatus, success, failure, other,
  index_steps,
}
use sphere_platform.Pipeline.Requests.{Request, cancel, pause, resume, apply, apply_all}
use sphere_platform.Pipeline.Executor.{
  World, Next, go, stop, crash, Outcome, unfinished, execute_step, run_step, round, loop,
  execute_run, timeout_of, elapsed, next_step, on_failed_step, after_handler, by_status, at_step,
  over_steps, when_running, start_step,
}
use native.Mathlib.Nat.{add-zero}

apply-started_at : (r : Request) (run : Run) → (apply r run).started_at ≡ run.started_at
unfolding apply
apply-started_at (cancel now) run = ground arith
apply-started_at pause run = ground arith
apply-started_at resume run = ground arith

apply_all-started_at :
    (rs : List Request) (run : Run) → (apply_all rs run).started_at ≡ run.started_at
unfolding apply_all
apply_all-started_at [] run = refl
apply_all-started_at (r ∷ rs) run =
    ground (arith, apply-started_at r run, apply_all-started_at rs (apply r run))

-- A property of the rows with which a round goes on.
abbrev Continues : (Run → Type 0) → Next → Type 0
Continues P (go next r) = P r
Continues P (stop r) = Unit
Continues P (crash r) = Unit

abbrev Started : Option ℕ → Run → Type 0
Started t r = r.started_at ≡ t

on_failed_step-Started :
    {t : Option ℕ} (now : ℕ) (cur : String) (step : Step) (run : Run)
    → Started t run
    → Continues (Started t) (on_failed_step now cur step run)
unfolding on_failed_step
on_failed_step-Started now cur step run h = ground arith

next_step-Started :
    {t : Option ℕ} (now : ℕ) (cur : String) (step : Step) (s : StepStatus) (run : Run)
    → Started t run
    → Continues (Started t) (next_step now cur step s run)
next_step-Started now cur step success run h = h
next_step-Started now cur step failure run h = on_failed_step-Started now cur step run h
next_step-Started now cur step (other s) run h = tt

module _ (w : World) where
  after_handler-started_at :
      (i : ℕ) (cur : String) (step : Step) (run : Run)
      → (after_handler w i cur step run).started_at ≡ run.started_at
  unfolding after_handler
  after_handler-started_at i cur step run = refl

  run_step-Started :
      {t : Option ℕ} (i : ℕ) (cur : String) (step : Step) (run : Run)
      → Started t run
      → Continues (Started t) (run_step w i cur step run)
  unfolding run_step execute_step
  run_step-Started i cur step run h = elim (Option-cases (elapsed w i run.started_at)) [
    | inl e ↦
        rw (e, run_step)
          (next_step-Started (w.now i) cur step (w.handler i step run).0.status _
            (apply_all-started_at (w.during i) _ ∙ after_handler-started_at i cur step run ∙ h))
    | inr (ms, e) ↦ rw (e, run_step) tt
  ]

  at_step-Started :
      {t : Option ℕ} (i : ℕ) (index : Dict Step) (cur : String) (run : Run)
      → Started t run
      → Continues (Started t) (at_step w i index cur run)
  unfolding at_step
  at_step-Started i index cur run h = elim (Option-cases (get index cur)) [
    | inl e ↦ rw (e, at_step) tt
    | inr (step, e) ↦
        rw (e, at_step) (run_step-Started i cur step (record run { current_step_id = some cur }) h)
  ]

  by_status-Started :
      {t : Option ℕ} (i : ℕ) (index : Dict Step) (cur : String) (s : RunStatus) (run : Run)
      → Started t run
      → Continues (Started t) (by_status w i index cur s run)
  by_status-Started i index cur paused run h = tt
  by_status-Started i index cur cancelled run h = tt
  by_status-Started i index cur timed_out run h = tt
  by_status-Started i index cur _ run h = at_step-Started i index cur run h

  round-Started :
      {t : Option ℕ} (i : ℕ) (index : Dict Step) (cur : String) (run : Run)
      → Started t run
      → Continues (Started t) (round w i index cur run)
  unfolding round
  round-Started i index cur run h =
      by_status-Started i index cur (apply_all (w.before i) run).status (apply_all (w.before i) run)
        (apply_all-started_at (w.before i) run ∙ h)

  -- A round that begins after the timeout does not go on.
  at_step_late :
      (i ms : ℕ) (index : Dict Step) (cur : String) (run : Run)
      → elapsed w i run.started_at ≡ some ms
      → Continues (λ r. ⊥) (at_step w i index cur run)
  unfolding at_step run_step
  at_step_late i ms index cur run h = elim (Option-cases (get index cur)) [
    | inl e ↦ rw (e, at_step) tt
    | inr (step, e) ↦ rw (e, at_step) (rw (h, run_step) tt)
  ]

  by_status_late :
      (i ms : ℕ) (index : Dict Step) (cur : String) (s : RunStatus) (run : Run)
      → elapsed w i run.started_at ≡ some ms
      → Continues (λ r. ⊥) (by_status w i index cur s run)
  by_status_late i ms index cur paused run h = tt
  by_status_late i ms index cur cancelled run h = tt
  by_status_late i ms index cur timed_out run h = tt
  by_status_late i ms index cur _ run h = at_step_late i ms index cur run h

  abbrev IsLate : ℕ → ℕ → Type 0
  IsLate i t = timeout_of w w.global_timeout_ms < w.now i - t

  elapsed_late : (i t : ℕ) → IsLate i t → elapsed w i (some t) ≡ some (w.now i - t)
  elapsed_late i t h = rw (lt→ltb _ _ h)

  round_late :
      (i t : ℕ) (index : Dict Step) (cur : String) (run : Run)
      → Started (some t) run
      → IsLate i t
      → Continues (λ r. ⊥) (round w i index cur run)
  unfolding round
  round_late i t index cur run h late =
      by_status_late i (w.now i - t) index cur (apply_all (w.before i) run).status
        (apply_all (w.before i) run)
        (rw (apply_all-started_at (w.before i) run, h) (elapsed_late i t late))

  abbrev Ends : Outcome → Type 0
  Ends o = o ≢ unfinished

  -- One turn of the loop, given what the round has returned.
  turn-Ends :
      (P : Run → Type 0) (fuel i : ℕ) (index : Dict Step) (cur : String) (run : Run) (x : Next)
      → round w i index cur run ≡ x
      → Continues P x
      → ((next : Option String) (r : Run) → P r → Ends (loop w fuel (suc i) index next r))
      → Ends (loop w (suc fuel) i index (some cur) run)
  unfolding loop
  turn-Ends P fuel i index cur run (go next r) e p rest = rw (e, loop) (rest next r p)
  turn-Ends P fuel i index cur run (stop r) e p rest = rw (e, loop) (λ h. cc)
  turn-Ends P fuel i index cur run (crash r) e p rest = rw (e, loop) (λ h. cc)

  loop-Ends :
      (n fuel i t : ℕ) (index : Dict Step) (cur : Option String) (run : Run)
      → Started (some t) run
      → IsLate (i + n) t
      → n < fuel
      → Ends (loop w fuel i index cur run)
  unfolding loop
  loop-Ends n zero i t index cur run h late f = absurd (omega arith)
  loop-Ends n (suc fuel) i t index none run h late f = λ e. cc
  loop-Ends zero (suc fuel) i t index (some cur) run h late f =
      turn-Ends (λ r. ⊥) fuel i index cur run (round w i index cur run) refl
        (round_late i t index cur run h (rw add-zero at late)) (λ next r p. absurd p)
  loop-Ends (suc n) (suc fuel) i t index (some cur) run h late f =
      turn-Ends (Started (some t)) fuel i index cur run (round w i index cur run) refl
        (round-Started i index cur run h)
        (λ next r p.
          loop-Ends n fuel (suc i) t index next r p (subst (λ k. IsLate k t) (omega arith) late)
            (omega arith))

  over_steps-Ends :
      (n fuel t : ℕ) (steps : List Step) (run : Run)
      → Started (some t) run
      → IsLate n t
      → n < fuel
      → Ends (over_steps w fuel steps run)
  over_steps-Ends n fuel t [] run h late f = λ e. cc
  over_steps-Ends n fuel t (s ∷ ss) run h late f =
      loop-Ends n fuel 0 t (index_steps (s ∷ ss) []) (start_step w run.current_step_id s) run h
        (subst (λ k. IsLate k t) (omega arith) late) f

  when_running-Ends :
      (n fuel t : ℕ) (s : RunStatus) (run : Run)
      → Started (some t) run
      → IsLate n t
      → n < fuel
      → Ends (when_running w s fuel run)
  when_running-Ends n fuel t running run h late f =
      over_steps-Ends n fuel t run.steps_snapshot run h late f
  when_running-Ends n fuel t _ run h late f = λ e. cc

pub execute_run_ends :
    (w : World) (n fuel t : ℕ) (run : Run)
    → run.started_at ≡ some t
    → timeout_of w w.global_timeout_ms < w.now n - t
    → n < fuel
    → execute_run w fuel run ≢ unfinished
unfolding execute_run
execute_run_ends w n fuel t run h late f = when_running-Ends w n fuel t run.status run h late f
