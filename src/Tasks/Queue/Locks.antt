-- ===== src/Tasks/Queue/Locks.antt =====
-- backend/services/task_queue.py: the lock task_running:{device_id}, and cancelling a queued task.
use sphere_platform.Base.{
  String, Bool, false, none, some, ◌==◌, ◌&&◌, ◌≡◌, ◌≢◌, if◌then◌else◌, arith, eq_iff, refl,
  eq_refl, Bool-cases, ap, ◌∙◌, truthy, inl, inr, subst, sym, Option, Option-cases,
}
use sphere_platform.Base.Dict.{get}
use sphere_platform.Base.Dict.Size.{is_some}
use sphere_platform.Redis.{SortedSet}
use sphere_platform.Tasks.Queue.{
  TaskQueue, queue_at, set_queue, pop_and_lock, dequeue_for_device, is_device_busy, cancel_task,
  device_of, cancel_at,
}
use sphere_platform.Tasks.Queue.Slots.{queue_at-set_queue, queue_at_same}
use sphere_platform.Tasks.Queue.Order.{Taken, pop_and_lock-Taken}

module _ (S : SortedSet) where
  -- Between the test of the device's lock and the script that pops, another dispatcher can run the
  -- same script: if two calls have both seen the device free and its queue gives tasks twice, they
  -- hand out two different tasks for one device, and the lock names the second only. Had the second
  -- call made its test after the first script, it would have handed out nothing.
  pub overlapping_dequeues :
      (q : TaskQueue S) (device org a b : String) (q1 q2 : TaskQueue S)
      → is_device_busy S q device ≡ false
      → pop_and_lock S q device org ≡ (some a, q1)
      → pop_and_lock S q1 device org ≡ (some b, q2)
      → (a ≢ b)
        × (get q2.running device ≡ some b)
        × (dequeue_for_device S q1 device org ≡ (none, q1))
  unfolding dequeue_for_device is_device_busy
  overlapping_dequeues q device org a b q1 q2 f h h' =
      let first : Taken S q device org a q1 = pop_and_lock-Taken S q device org a q1 h in
      let second : Taken S q1 device org b q2 = pop_and_lock-Taken S q1 device org b q2 h' in
      let (s, at) = second.queued in
      (
        λ e. ground (arith, e, at, first.left b, eq_iff a b),
        ground (arith, second.locked device, eq_refl device),
        ground (arith, first.locked device, eq_refl device),
      )

  abbrev pub Removes : TaskQueue S → String → String → String → Bool × TaskQueue S → Type 0
  Removes q task org device (removed, q') =
      (removed ≡ is_some (S.zscore (queue_at S q org device) task))
      × ((u : String)
          → S.zscore (queue_at S q' org device) u
            ≡ (if task == u then none else S.zscore (queue_at S q org device) u))
      × ((o d : String)
          → ((org == o) && (device == d)) ≡ false
          → queue_at S q' o d ≡ queue_at S q o d)
      × (q'.running ≡ q.running)

  cancel_at-Removes :
      (q : TaskQueue S) (task org device : String)
      → Removes q task org device (cancel_at S q task org device)
  unfolding queue_at set_queue
  cancel_at-Removes q task org device =
      let z = queue_at S q org device in
      let rest = (S.zrem z task).0 in
      elim (Bool-cases (S.zrem z task).1) [
        | inl e ↦ rw (e) (
          sym e ∙ S.zrem_flag z task,
          (λ u.
              ap (λ x. S.zscore x u) (queue_at_same S q org device rest) ∙ S.zscore-zrem z task u),
          (λ o d ne. ground (arith, ne, queue_at-set_queue S q org device o d rest)),
          refl,
        )
        | inr e ↦ rw (e) (
          sym e ∙ S.zrem_flag z task,
          (λ u. ground (arith, e, S.zrem_flag z task, eq_iff task u)),
          (λ o d ne. refl),
          refl,
        )
      ]

  -- Cancelling touches no lock.
  pub cancel_task-running :
      (q : TaskQueue S) (task org : String) (device : Option String)
      → (cancel_task S q task org device).1.running ≡ q.running
  unfolding cancel_task
  cancel_task-running q task org device = elim (Option-cases (device_of S q task device)) [
    | inl e ↦ rw (e, cancel_task) refl
    | inr (d, e) ↦ rw (e, cancel_task) (cancel_at-Removes q task org d).3
  ]

  cancel_named :
      (q : TaskQueue S) (task org device : String)
      → truthy (some device) ≡ some device
      → cancel_task S q task org (some device) ≡ cancel_at S q task org device
  unfolding cancel_task device_of
  cancel_named q task org device t = rw (t, cancel_task, device_of) refl

  -- Cancelling with a device id that is not empty answers true just when the task stood in that device's queue. Afterwards it does not
  -- stand there, the other tasks and the other queues are as before, and so are all locks.
  pub cancel_task-Removes :
      (q : TaskQueue S) (task org device : String)
      → truthy (some device) ≡ some device
      → Removes q task org device (cancel_task S q task org (some device))
  cancel_task-Removes q task org device t =
      subst (Removes q task org device) (sym (cancel_named q task org device t))
        (cancel_at-Removes q task org device)
