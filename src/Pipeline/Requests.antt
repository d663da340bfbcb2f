-- ===== src/Pipeline/Requests.antt =====
-- backend/services/orchestrator/pipeline_service.py: `cancel_run`, `pause_run`, `resume_run`, on
-- the row of a run; pipeline_executor.py: what `_poll_and_dispatch` writes to a queued row.
-- A request that is refused (HTTP 400) changes nothing.
pub mod Laws
use sphere_platform.Base.{ℕ, Option, none, some, List, [], ◌∷◌}
use sphere_platform.Pipeline.Run.{
  Run, RunStatus, queued, running, paused, waiting, completed, failed, cancelled, timed_out,
}

pub data Reply : Type 0 where
  done : Run → Reply
  refused : RunStatus → Reply

abbrev pub row_after : Run → Reply → Run
row_after run (done r) = r
row_after run (refused s) = run

pub data Finality : Type 0 where
  final open_ended : Finality

-- `terminal_statuses`
abbrev pub finality : RunStatus → Finality
finality completed = final
finality failed = final
finality cancelled = final
finality timed_out = final
finality _ = open_ended

unfoldable pub cancel_run : ℕ → Run → Reply
cancel_run now run = elim (finality run.status) [
  | final ↦ refused run.status
  | open_ended ↦ done (record run { status = cancelled; finished_at = some now })
]

abbrev if_running {ℓ} : {A : Type ℓ} → RunStatus → A → A → A
if_running running x y = x
if_running _ x y = y

abbrev if_paused {ℓ} : {A : Type ℓ} → RunStatus → A → A → A
if_paused paused x y = x
if_paused _ x y = y

abbrev if_queued {ℓ} : {A : Type ℓ} → RunStatus → A → A → A
if_queued queued x y = x
if_queued _ x y = y

unfoldable pub pause_run : Run → Reply
pause_run run = if_running run.status (done (record run { status = paused })) (refused run.status)

unfoldable pub resume_run : Run → Reply
resume_run run = if_paused run.status (done (record run { status = queued })) (refused run.status)

-- The row of a queued run is taken, and its clock starts.
unfoldable pub poll : ℕ → Run → Run
poll now run = if_queued run.status (record run { status = running; started_at = some now }) run

pub data Request : Type 0 where
  cancel : ℕ → Request
  pause resume : Request

unfoldable pub apply : Request → Run → Run
unfolding cancel_run pause_run resume_run
apply (cancel now) run = row_after run (cancel_run now run)
apply pause run = row_after run (pause_run run)
apply resume run = row_after run (resume_run run)

unfoldable pub apply_all : List Request → Run → Run
unfolding apply
apply_all [] run = run
apply_all (r ∷ rs) run = apply_all rs (apply r run)
