-- ===== src/Pipeline/Executor/Races.antt =====
-- pipeline_executor.py and pipeline_service.py: requests of users while the executor is at work.
use sphere_platform.Base.{
  ℕ, String, none, some, List, [], ◌∷◌, ◌≡◌, refl, ap, arith, ◌∙◌, ◌==◌, false, ltb_self, truthy,
}
use sphere_platform.Base.Dict.{Dict, get}
use sphere_platform.Pipeline.Run.{
  Run, Step, running, paused, queued, failed, failure, cancelled, index_steps,
}
use sphere_platform.Pipeline.Requests.{
  pause, resume, apply, apply_all, resume_run, row_after, poll, cancel,
}
use sphere_platform.Pipeline.Executor.{
  World, stop, execute_step, execute_run, after_handler, round, at_step, by_status, run_step, loop,
  elapsed, on_failed_step, retry_key, retry_count, finish_with, next_step, over_steps, start_step,
}
use sphere_platform.Pipeline.Requests.Laws.{pause-running, cancel-running, poll-queued}

-- When a step fails for the last time and has no `on_failure`, the run ends as failed even if it
-- was cancelled while the step was at work: the row is cancelled when the result comes, and the
-- executor overwrites it.
pub cancellation_overwritten :
    (w : World) (i t : ℕ) (cur : String) (step : Step) (run : Run)
    → run.status ≡ running
    → w.during i ≡ cancel t ∷ []
    → (w.handler i step run).0.status ≡ failure
    → retry_count (get (after_handler w i cur step run).context (retry_key cur)) ≡ some step.retries
    → truthy step.on_failure ≡ none
    → (row : Run) × (apply_all (w.during i) (after_handler w i cur step run) ≡ row)
      × (row.status ≡ cancelled)
      × (execute_step w i cur step run ≡ stop (finish_with failed (w.now i) row))
unfolding execute_step on_failed_step apply_all after_handler
cancellation_overwritten w i t cur step run ru d f k n =
    let after : Run = after_handler w i cur step run in
    let row : Run = record after { status = cancelled; finished_at = some t } in
    let e : apply_all (w.during i) after ≡ row =
      ap (λ rs. apply_all rs after) d ∙ cancel-running after t ru in
    (
      row,
      e,
      refl,
      ap (λ r. next_step (w.now i) cur step (w.handler i step run).0.status r) e
          ∙ ap (λ s. next_step (w.now i) cur step s row) f
          ∙ rw (k, on_failed_step) (rw (ltb_self step.retries) (rw (n, on_failed_step))),
    )

start_at :
    (w : World) (cur : String) (s : Step)
    → (cur == "") ≡ false
    → start_step w (some cur) s ≡ some cur
start_at w cur s ne = ground arith

module _ (w : World) (i : ℕ) (cur : String) (run : Run) where
  -- A pause that arrives before a round stops it, and keeps the position and the log: when the run
  -- has been resumed and taken again, the executor starts at the step at which it stopped.
  pub pause_keeps_position :
      (index : Dict Step) (later : World) (t fuel : ℕ) (s : Step) (ss : List Step)
      → run.status ≡ running
      → w.before i ≡ pause ∷ []
      → run.steps_snapshot ≡ s ∷ ss
      → (cur == "") ≡ false
      → (r : Run) × (round w i index cur run ≡ stop r)
        × (r.status ≡ paused)
        × (r.step_logs ≡ run.step_logs)
        × (let taken = poll t (row_after r (resume_run r)) in
            execute_run later fuel taken
            ≡ loop later fuel 0 (index_steps (s ∷ ss) []) (some cur) taken)
  unfolding round apply_all execute_run
  pause_keeps_position index later t fuel s ss ru b sn ne =
      let row : Run = record run { status = paused; current_step_id = some cur } in
      let queue : Run = record run { status = queued; current_step_id = some cur } in
      (
        row,
        ap (λ rs. by_status w i index cur (apply_all rs run).status (apply_all rs run)) b
            ∙ ap (λ r. by_status w i index cur r.status r) (pause-running run ru),
        refl,
        refl,
        rw (poll-queued queue t refl) (
            ap
              (λ steps.
                over_steps later fuel steps
                  (record queue { status = running; started_at = some t }))
              sn
            ∙ ap
                (λ c.
                  loop later fuel 0 (index_steps (s ∷ ss) []) c
                    (record queue { status = running; started_at = some t }))
                (start_at later cur s ne)),
      )

  -- A pause and a resume that both arrive during one step do not stop the executor: the next round
  -- attempts its step although the row is queued, and so a poll takes the row a second time.
  resumed_run_taken_twice :
      (index : Dict Step) (step : Step) (t : ℕ)
      → run.status ≡ running
      → w.before i ≡ pause ∷ resume ∷ []
      → get index cur ≡ some step
      → elapsed w i run.started_at ≡ none
      → (row : Run) × (round w i index cur run ≡ execute_step w i cur step row)
        × (row.status ≡ queued)
        × ((poll t row).status ≡ running)
  unfolding round apply_all
  resumed_run_taken_twice index step t ru b found e =
      let queue : Run = record run { status = queued } in
      let row : Run = record queue { current_step_id = some cur } in
      (
        row,
        ap (λ rs. by_status w i index cur (apply_all rs run).status (apply_all rs run)) b
            ∙ ap (λ r. by_status w i index cur (apply resume r).status (apply resume r))
                (pause-running run ru)
            ∙ attempt index step queue found e,
        refl,
        ap (λ (r : Run). r.status) (poll-queued row t refl),
      )
    where
      attempt :
          (index : Dict Step) (step : Step) (queue : Run)
          → get index cur ≡ some step
          → elapsed w i queue.started_at ≡ none
          → at_step w i index cur queue
            ≡ execute_step w i cur step (record queue { current_step_id = some cur })
      attempt index step queue found e =
          unfold at_step run_step in rw (found, at_step) (rw (e, run_step))
