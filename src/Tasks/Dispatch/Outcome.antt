-- ===== src/Tasks/Dispatch/Outcome.antt =====
-- backend/services/task_service.py: what a dispatch to one device does to queue, lock and row.
use sphere_platform.Base.{
  ℕ, String, true, false, Option, none, some, ◌==◌, ◌≡◌, ◌⊎◌, inl, inr, if◌then◌else◌, arith, refl,
  eq_refl, ◌∙◌, subst, sym,
}
use sphere_platform.Base.Dict.{get, get-remove, get-put, get-put_same}
use sphere_platform.Redis.{SortedSet}
use sphere_platform.Tasks.Task.{Task, Device, running, failed, version_not_found}
use sphere_platform.Tasks.Queue.{
  TaskQueue, queue_at, score, enqueue, dequeue_for_device, mark_completed, is_device_busy,
  set_queue,
}
use sphere_platform.Tasks.Service.{
  Catalogue, Delivery, delivered, offline, broken, Store, save, set_status,
}
use sphere_platform.Tasks.Dispatch.{
  dispatch_device, dispatch_taken, dispatch_row, deliver, known_version, start,
}
use sphere_platform.Tasks.Queue.Order.{Taken, Takes, dequeue_for_device-Takes, order-enqueue}

module _ (S : SortedSet) where
  -- The device is active, and its queue has just handed out this task of its own.
  pub record Handed (c : Catalogue) (st : Store S) (device : String) (d : Device) (id : String)
      (t : Task) (q : TaskQueue S) : Type 0 where
    pub known : get c.devices device ≡ some d
    pub active : d.is_active ≡ true
    pub handed : dequeue_for_device S st.queue device d.org_id ≡ (some id, q)
    pub row : get st.tasks id ≡ some t
    pub own : (t.device_id == device) ≡ true

  dispatch-Handed :
      (send : String → Delivery) (now : ℕ) (c : Catalogue) (st : Store S) (device : String)
      (d : Device) (id : String) (t : Task) (q : TaskQueue S)
      → Handed c st device d id t q
      → dispatch_device S send now c st device
        ≡ dispatch_row S send now c (record st { queue = q }) id device d.org_id t
  unfolding dispatch_device
  dispatch-Handed send now c st device d id t q h =
      rw (h.known, dispatch_device, h.active, h.handed, dispatch_taken, h.row) refl

  abbrev order_at : Store S → String → String → String → Option ℕ
  order_at st org device u = S.zscore (queue_at S st.queue org device) u

  requeued :
      (now : ℕ) (st : Store S) (q : TaskQueue S) (device org id : String) (priority : ℕ)
      (u : String)
      → Taken S st.queue device org id q
      → S.zscore
          (queue_at S
            (enqueue S now (mark_completed S q id device) id device org priority)
            org
            device)
          u
        ≡ (if id == u then some (score priority now) else order_at st org device u)
  unfolding mark_completed queue_at
  requeued now st q device org id priority u k =
      ground (
        arith,
        k.left u,
        order-enqueue S now (mark_completed S q id device) id device org priority u,
      )

  -- What a task that does not reach its device leaves behind.
  pub record Requeued (now : ℕ) (st : Store S) (device org id : String) (priority : ℕ)
      (st' : Store S) : Type 0 where
    pub free : is_device_busy S st'.queue device ≡ false
    pub rows : st'.tasks ≡ st.tasks
    pub order :
        (u : String)
        → order_at st' org device u
          ≡ (if id == u then some (score priority now) else order_at st org device u)

  taken :
      (c : Catalogue) (st : Store S) (device : String) (d : Device) (id : String) (t : Task)
      (q : TaskQueue S)
      → Handed c st device d id t q
      → Taken S st.queue device d.org_id id q
  taken c st device d id t q h =
      (subst (Takes S st.queue device d.org_id) h.handed
        (dequeue_for_device-Takes S st.queue device d.org_id)).1

  offline-Requeued :
      (now : ℕ) (st : Store S) (device org id : String) (t : Task) (q : TaskQueue S)
      → Taken S st.queue device org id q
      → Requeued now st device org id t.priority
          (deliver S offline now (record st { queue = q }) id device org t)
  unfolding is_device_busy enqueue mark_completed set_queue
  offline-Requeued now st device org id t q k = record {
    free = ground (arith, get-remove q.running device device, eq_refl device);
    rows = refl;
    order = λ u. requeued now st q device org id t.priority u k;
  }

  -- If the command does not reach the device, the device is free again and its queue is as before,
  -- but the task has the score of a task that is enqueued now; no row changes.
  offline_requeues :
      (send : String → Delivery) (now : ℕ) (c : Catalogue) (st : Store S) (device : String)
      (d : Device) (id : String) (t : Task) (q : TaskQueue S)
      → Handed c st device d id t q
      → known_version S c t.script_version_id ≡ true
      → send id ≡ offline
      → Requeued now st device d.org_id id t.priority (dispatch_device S send now c st device)
  offline_requeues send now c st device d id t q h v o =
      subst (Requeued now st device d.org_id id t.priority)
        (sym (dispatch-Handed send now c st device d id t q h ∙ rw (h.own, v, o) refl))
        (offline-Requeued now st device d.org_id id t q (taken c st device d id t q h))

  -- The device keeps a lock for a task that it was not told of.
  pub record Blocked (c : Catalogue) (device org id : String) (st : Store S) : Type 0 where
    pub locked : get st.queue.running device ≡ some id
    pub lost : order_at st org device id ≡ none
    pub stuck : (send : String → Delivery) (now : ℕ) → dispatch_device S send now c st device ≡ st

  busy_dispatch :
      (send : String → Delivery) (now : ℕ) (c : Catalogue) (st : Store S) (device id : String)
      (d : Device)
      → get c.devices device ≡ some d
      → d.is_active ≡ true
      → get st.queue.running device ≡ some id
      → dispatch_device S send now c st device ≡ st
  unfolding dispatch_device dequeue_for_device is_device_busy
  busy_dispatch send now c st device id d k a l =
      rw (k, dispatch_device, a, dequeue_for_device, is_device_busy, l) refl

  locked-Blocked :
      (c : Catalogue) (st st' : Store S) (device : String) (d : Device) (id : String) (t : Task)
      → Handed c st device d id t st'.queue
      → Blocked c device d.org_id id st'
  locked-Blocked c st st' device d id t h =
      let k = taken c st device d id t st'.queue h in
      let l : get st'.queue.running device ≡ some id =
        ground (arith, k.locked device, eq_refl device) in
      record {
        locked = l;
        lost = ground (arith, k.left id, eq_refl id);
        stuck = λ send now. busy_dispatch send now c st' device id d h.known h.active l;
      }

  -- A task is handed out for which the dispatch then fails, because its version is gone or sending
  -- raises: it has left the queue, and the device holds the lock for it; as long as the lock stands,
  -- further dispatches to the device change nothing.
  failed_dispatch_blocks_device :
      (send : String → Delivery) (now : ℕ) (c : Catalogue) (st : Store S) (device : String)
      (d : Device) (id : String) (t : Task) (q : TaskQueue S)
      → Handed c st device d id t q
      → (known_version S c t.script_version_id ≡ false)
        ⊎ ((known_version S c t.script_version_id ≡ true) × (send id ≡ broken))
      → Blocked c device d.org_id id (dispatch_device S send now c st device)
  failed_dispatch_blocks_device send now c st device d id t q h (inl v) =
      subst (Blocked c device d.org_id id)
        (sym (dispatch-Handed send now c st device d id t q h ∙ rw (h.own, v) refl))
        (locked-Blocked c st
          (save S (record st { queue = q }) id
            (record (set_status failed now t) { error_message = some version_not_found }))
          device d id t h)
  failed_dispatch_blocks_device send now c st device d id t q h (inr (v, b)) =
      subst (Blocked c device d.org_id id)
        (sym (dispatch-Handed send now c st device d id t q h ∙ rw (h.own, v, b) refl))
        (locked-Blocked c st (record st { queue = q }) device d id t h)

  pub record Started (now : ℕ) (st : Store S) (device org id : String) (st' : Store S)
      : Type 0 where
    pub locked : get st'.queue.running device ≡ some id
    pub order :
        (u : String)
        → order_at st' org device u ≡ (if id == u then none else order_at st org device u)
    pub row :
        (t' : Task) × (get st'.tasks id ≡ some t')
        × (t'.status ≡ running)
        × (t'.started_at ≡ some now)
    pub others : (u : String) → (id == u) ≡ false → get st'.tasks u ≡ get st.tasks u

  delivered-Started :
      (now : ℕ) (st : Store S) (device org id : String) (t : Task) (q : TaskQueue S)
      → Taken S st.queue device org id q
      → Started now st device org id
          (deliver S delivered now (record st { queue = q }) id device org t)
  delivered-Started now st device org id t q k = record {
    locked = ground (arith, k.locked device, eq_refl device);
    order = k.left;
    row = (start S now t, get-put_same st.tasks id (start S now t), refl, refl);
    others = λ u ne. ground (arith, ne, get-put st.tasks id u (start S now t));
  }

  -- When the command reaches the device, the task runs from now on, whatever its status was: also a
  -- task that was timed out while it stood in the queue. It has left the queue, the device's lock
  -- names it, and the other tasks' places and rows are as before.
  delivered_starts :
      (send : String → Delivery) (now : ℕ) (c : Catalogue) (st : Store S) (device : String)
      (d : Device) (id : String) (t : Task) (q : TaskQueue S)
      → Handed c st device d id t q
      → known_version S c t.script_version_id ≡ true
      → send id ≡ delivered
      → Started now st device d.org_id id (dispatch_device S send now c st device)
  delivered_starts send now c st device d id t q h v o =
      subst (Started now st device d.org_id id)
        (sym (dispatch-Handed send now c st device d id t q h ∙ rw (h.own, v, o) refl))
        (delivered-Started now st device d.org_id id t q (taken c st device d id t q h))
