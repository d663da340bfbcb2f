-- ===== src/Tasks/Queue/Depth.antt =====
-- backend/services/task_queue.py: `get_queue_depth` counts what was enqueued, cancelled and taken.
use sphere_platform.Base.{
  ℕ, suc, ◌+◌, String, none, some, [], ◌∷◌, ◌≡◌, if◌then◌else◌, arith, refl, eq_refl, ap, ◌∙◌,
  truthy,
}
use sphere_platform.Base.Dict.{Dict, get, put, get_or, get-put}
use sphere_platform.Base.Dict.Size.{is_some}
use sphere_platform.Redis.{SortedSet}
use sphere_platform.Tasks.Queue.{
  TaskQueue, queue_at, set_queue, score, enqueue, get_queue_depth, total,
}
use sphere_platform.Tasks.Queue.Slots.{queue_at_same}

module _ (S : SortedSet) where
  -- One queue of an organisation replaced.
  pub total-put :
      (d : Dict S.Z) (k : String) (z : S.Z)
      → total S (put d k z) + S.zcard (get_or d k S.empty) ≡ total S d + S.zcard z
  unfolding put get
  total-put [] k z = ground (arith, S.zcard-empty)
  total-put ((j, w) ∷ d) k z = ground (arith, total-put d k z)

  depth-set_queue :
      (q : TaskQueue S) (org device : String) (z : S.Z)
      → get_queue_depth S (set_queue S q org device z) org none + S.zcard (queue_at S q org device)
        ≡ get_queue_depth S q org none + S.zcard z
  unfolding get_queue_depth set_queue queue_at
  depth-set_queue q org device z = ground (
    arith,
    total-put (get_or q.queues org []) device z,
    eq_refl org,
    get-put q.queues org org (put (get_or q.queues org []) device z),
  )

  depth_at :
      (q : TaskQueue S) (org device : String)
      → truthy (some device) ≡ some device
      → get_queue_depth S q org (some device) ≡ S.zcard (queue_at S q org device)
  unfolding get_queue_depth
  depth_at q org device t = rw (t, get_queue_depth) refl

  -- For a device id that is not empty, enqueuing makes the depth of the device's queue, and that of all queues of the organisation,
  -- larger by one, unless the task stood in that queue already: then both stay.
  depth-enqueue :
      (now : ℕ) (q : TaskQueue S) (task device org : String) (priority : ℕ)
      → truthy (some device) ≡ some device
      → let q' = enqueue S now q task device org priority in
        let queued = is_some (S.zscore (queue_at S q org device) task) in
        let more : ℕ → ℕ = λ n. if queued then n else suc n in
        (get_queue_depth S q' org (some device) ≡ more (get_queue_depth S q org (some device)))
        × (get_queue_depth S q' org none ≡ more (get_queue_depth S q org none))
  unfolding enqueue get_queue_depth
  depth-enqueue now q task device org priority t =
      let z = queue_at S q org device in
      let z' = S.zadd z task (score priority now) in
      let added = S.zcard-zadd z task (score priority now) in
      (
        rw
            (
              depth_at q org device t,
              depth_at (enqueue S now q task device org priority) org device t,
            )
            (ap S.zcard (queue_at_same S q org device z') ∙ added),
        ground (arith, depth-set_queue q org device z', added),
      )
