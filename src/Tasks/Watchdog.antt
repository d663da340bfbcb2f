-- ===== src/Tasks/Watchdog.antt =====
-- backend/tasks/task_heartbeat_watchdog.py: `_process_stale_tasks`, `_aggregate_batches` and one
-- cycle of `_expire_stale_tasks`. Redis answers, and no other instance has locked a row.
pub mod Counts
pub mod Rows
mod Tests
use sphere_platform.Base.{
  ℕ, suc, ◌+◌, ◌*◌, String, Bool, true, false, not, ◌&&◌, Option, none, some, List, [], ◌∷◌, ◌++◌,
  ◌==◌, ltb, leb, if◌then◌else◌, truthy,
}
use sphere_platform.Base.Dict.{Dict, get, put, get_or}
use sphere_platform.Redis.{SortedSet}
use sphere_platform.Tasks.Task.{
  Task, TaskStatus, queued, assigned, running, timeout, ErrorMessage, watchdog_running,
  watchdog_queued,
}
use sphere_platform.Tasks.Queue.{TaskQueue, mark_completed, cancel_task}
use sphere_platform.Tasks.Batch.{TaskBatch, final_status}
use sphere_platform.Tasks.Service.{Store, finish_task}

-- _STALE_BUFFER_SECONDS and _QUEUED_STALE_MINUTES.
pub record Limits : Type 0 where
  pub buffer : ℕ
  pub minutes : ℕ

pub data Verdict : Type 0 where
  fine stale_running stale_queued : Verdict

abbrev pub overdue : ℕ → Limits → ℕ → Option ℕ → Verdict
overdue now l seconds none = fine
overdue now l seconds (some started) =
    if ltb now (started + (seconds + l.buffer)) then fine else stale_running

abbrev pub too_old : ℕ → Limits → ℕ → Verdict
too_old now l created = if ltb (created + l.minutes * 60) now then stale_queued else fine

abbrev pub verdict_of : ℕ → Limits → TaskStatus → Task → Verdict
verdict_of now l running t = overdue now l t.timeout_seconds t.started_at
verdict_of now l queued t = too_old now l t.created_at
verdict_of now l assigned t = too_old now l t.created_at
verdict_of now l _ t = fine

-- The two queries of a cycle, and the test that follows the first.
unfoldable pub verdict : ℕ → Limits → Task → Verdict
verdict now l t = verdict_of now l t.status t

abbrev pub judged : ℕ → Limits → Verdict → Task → Task
judged now l fine t = t
judged now l stale_running t = record (finish_task timeout now t) {
  error_message = some (watchdog_running t.timeout_seconds l.buffer);
}
judged now l stale_queued t = record (finish_task timeout now t) {
  error_message = some (watchdog_queued l.minutes);
}

unfoldable pub expire_task : ℕ → Limits → Task → Task
unfolding verdict
expire_task now l t = judged now l (verdict now l t) t

unfoldable pub expire_rows : ℕ → Limits → Dict Task → Dict Task
unfolding expire_task
expire_rows now l [] = []
expire_rows now l ((id, t) ∷ d) = (id, expire_task now l t) ∷ expire_rows now l d

abbrev pub is_stale : Verdict → Bool
is_stale fine = false
is_stale _ = true

abbrev pub is_stale_running : Verdict → Bool
is_stale_running stale_running = true
is_stale_running _ = false

abbrev pub is_stale_queued : Verdict → Bool
is_stale_queued stale_queued = true
is_stale_queued _ = false

-- `expired_running`, `expired_queued` and `all_timed`, with the ids.
unfoldable pub stale_rows : (Verdict → Bool) → ℕ → Limits → Dict Task → Dict Task
unfolding verdict
stale_rows p now l [] = []
stale_rows p now l ((id, t) ∷ d) =
    let rest = stale_rows p now l d in if p (verdict now l t) then (id, t) ∷ rest else rest

abbrev pub count_batch : Option String → Dict ℕ → Dict ℕ
count_batch none counts = counts
count_batch (some b) counts = put counts b (suc (get_or counts b 0))

-- `batch_ids_counts`
unfoldable pub count_batches : Dict Task → Dict ℕ → Dict ℕ
count_batches [] counts = counts
count_batches ((id, t) ∷ d) counts = count_batches d (count_batch t.batch_id counts)

abbrev pub settle : TaskBatch → TaskBatch
settle b = if leb b.total (b.succeeded + b.failed) then record b { status = final_status b } else b

abbrev pub add_failed : ℕ → TaskBatch → TaskBatch
add_failed n b = settle (record b { failed = b.failed + n })

abbrev pub fail_batch : Dict TaskBatch → String → ℕ → Option TaskBatch → Dict TaskBatch
fail_batch batches id n none = batches
fail_batch batches id n (some b) = put batches id (add_failed n b)

unfoldable pub fail_batches : Dict ℕ → Dict TaskBatch → Dict TaskBatch
fail_batches [] batches = batches
fail_batches ((id, n) ∷ counts) batches =
    fail_batches counts (fail_batch batches id n (get batches id))

unfoldable pub aggregate_batches : Dict Task → Dict TaskBatch → Dict TaskBatch
unfolding count_batches fail_batches
aggregate_batches timed batches = fail_batches (count_batches timed []) batches

module _ (S : SortedSet) where
  -- The lock goes, whichever task it names.
  unfoldable pub free_locks : Dict Task → TaskQueue S → TaskQueue S
  free_locks [] q = q
  free_locks ((id, t) ∷ d) q = free_locks d (mark_completed S q id t.device_id)

  unfoldable pub drop_queued : Dict Task → TaskQueue S → TaskQueue S
  drop_queued [] q = q
  drop_queued ((id, t) ∷ d) q = drop_queued d (cancel_task S q id t.org_id (some t.device_id)).1

  -- The database first, then the queue.
  unfoldable pub expire_stale_tasks : ℕ → Limits → Store S → Store S
  unfolding expire_rows stale_rows aggregate_batches free_locks drop_queued
  expire_stale_tasks now l st = record st {
    tasks = expire_rows now l st.tasks;
    batches = aggregate_batches (stale_rows is_stale now l st.tasks) st.batches;
    queue =
        drop_queued (stale_rows is_stale_queued now l st.tasks)
          (free_locks (stale_rows is_stale_running now l st.tasks) st.queue);
  }
