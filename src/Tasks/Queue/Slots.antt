-- ===== src/Tasks/Queue/Slots.antt =====
-- backend/services/task_queue.py: the keys task_queue:{org_id}:{device_id} do not overlap.
use sphere_platform.Base.{String, ◌==◌, ◌&&◌, ◌≡◌, if◌then◌else◌, arith, eq_iff, eq_refl, []}
use sphere_platform.Base.Dict.{put, get_or, get-put}
use sphere_platform.Redis.{SortedSet}
use sphere_platform.Tasks.Queue.{TaskQueue, queue_at, set_queue}

module _ (S : SortedSet) where
  pub queue_at-set_queue :
      (q : TaskQueue S) (o d o' d' : String) (z : S.Z)
      → queue_at S (set_queue S q o d z) o' d'
        ≡ (if (o == o') && (d == d') then z else queue_at S q o' d')
  unfolding queue_at set_queue
  queue_at-set_queue q o d o' d' z = ground (
    arith,
    get-put q.queues o o' (put (get_or q.queues o []) d z),
    get-put (get_or q.queues o []) d d' z,
    eq_iff o o',
  )

  -- What was just stored.
  pub queue_at_same :
      (q : TaskQueue S) (o d : String) (z : S.Z) → queue_at S (set_queue S q o d z) o d ≡ z
  queue_at_same q o d z = ground (arith, queue_at-set_queue q o d o d z, eq_refl o, eq_refl d)
