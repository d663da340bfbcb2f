-- ===== src/Tasks/Service/Stop.antt =====
-- backend/services/task_service.py: `force_stop_task`.
use sphere_platform.Base.{ℕ, String, false, some, ◌≡◌, ◌≢◌, arith, eq_iff, refl, eq_refl}
use sphere_platform.Base.Dict.{get, get-remove, get-put_same}
use sphere_platform.Redis.{SortedSet}
use sphere_platform.Tasks.Task.{Task, running, cancelled, force_stopped}
use sphere_platform.Tasks.Queue.{mark_completed, is_device_busy}
use sphere_platform.Tasks.Service.{
  Store, ok, offline, force_stop_task, get_task, stopped, safe_mark_completed, finish_task,
}

module _ (S : SortedSet) where
  -- Stopping a running task of the organisation, told to an agent that is not reached, succeeds: it
  -- frees the task's device and cancels the row, also when the device's lock names
  -- another task by then, whose lock a result of this task would have left alone.
  force_stop_frees_any_lock :
      (now : ℕ) (st : Store S) (id org u : String) (t : Task)
      → get st.tasks id ≡ some t
      → t.org_id ≡ org
      → t.status ≡ running
      → get st.queue.running t.device_id ≡ some u
      → u ≢ id
      → (st' : Store S) × (force_stop_task S offline now st id org ≡ ok st')
        × (is_device_busy S st'.queue t.device_id ≡ false)
        × ((t' : Task) × (get st'.tasks id ≡ some t') × (t'.status ≡ cancelled))
        × (safe_mark_completed S st.queue id t.device_id ≡ st.queue)
  unfolding force_stop_task get_task safe_mark_completed is_device_busy mark_completed
  force_stop_frees_any_lock now st id org u t e o r l ne = (
    stopped S now st id t,
    rw (e, force_stop_task, get_task, o, eq_refl org, r) refl,
    ground (arith, get-remove st.queue.running t.device_id t.device_id, eq_refl t.device_id),
    (
      record (finish_task cancelled now t) { error_message = some force_stopped },
      get-put_same st.tasks id _,
      refl,
    ),
    ground (arith, l, ne, eq_iff u id),
  )
