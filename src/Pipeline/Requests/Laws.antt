-- ===== src/Pipeline/Requests/Laws.antt =====
-- pipeline_service.py: what a request does to a row of a known status.
use sphere_platform.Base.{ℕ, some, List, [], ◌∷◌, ◌≡◌, refl, ap, arith, ◌∙◌}
use sphere_platform.Pipeline.Run.{Run, queued, running, paused, cancelled}
use sphere_platform.Pipeline.Requests.{
  Request, cancel, pause, resume, final, finality, apply, apply_all, if_running, if_paused,
  if_queued, row_after, done, refused, poll, resume_run,
}

module _ (run : Run) where
  pub pause-running : run.status ≡ running → apply pause run ≡ record run { status = paused }
  unfolding apply
  pause-running h =
      ap
        (λ s.
          row_after run (if_running s (done (record run { status = paused })) (refused run.status)))
        h

  pub resume-paused : run.status ≡ paused → resume_run run ≡ done (record run { status = queued })
  unfolding resume_run
  resume-paused h =
      ap (λ s. if_paused s (done (record run { status = queued })) (refused run.status)) h

  pub cancel-running :
      (now : ℕ)
      → run.status ≡ running
      → apply (cancel now) run ≡ record run { status = cancelled; finished_at = some now }
  unfolding apply
  cancel-running now h = ground arith

  pub poll-queued :
      (t : ℕ)
      → run.status ≡ queued
      → poll t run ≡ record run { status = running; started_at = some t }
  unfolding poll
  poll-queued t h =
      ap (λ s. if_queued s (record run { status = running; started_at = some t }) run) h

apply_final : (r : Request) (run : Run) → finality run.status ≡ final → apply r run ≡ run
unfolding apply
apply_final (cancel now) run h = ground arith
apply_final pause run h = ground arith
apply_final resume run h = ground arith

-- No sequence of requests, and no poll, changes a row whose run has completed, failed, timed out
-- or been cancelled.
pub final_absorbs :
    (rs : List Request) (t : ℕ) (run : Run)
    → finality run.status ≡ final
    → (apply_all rs run ≡ run) × (poll t run ≡ run)
unfolding apply_all poll
final_absorbs [] t run h = (refl, ground arith)
final_absorbs (r ∷ rs) t run h = (
  ap (apply_all rs) (apply_final r run h) ∙ (final_absorbs rs t run h).0,
  (final_absorbs rs t run h).1,
)
