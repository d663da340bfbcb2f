-- ===== src/Scheduler/Engine/Cancel.antt =====
-- backend/services/scheduler/scheduler_engine.py: what `_cancel_previous_tasks` leaves of the rows and
-- of the locks.
use sphere_platform.Base.{
  ℕ, String, Bool, true, false, Option, none, some, [], ◌∷◌, ◌==◌, if◌then◌else◌, arith, ◌≡◌, refl,
  ◌∙◌, ap, eq_refl, Bool-cases, inl, inr, eq_true, eq_iff, ◌≢◌, ◌⊎◌,
}
use sphere_platform.Base.Dict.{Dict, get, get-remove}
use sphere_platform.Redis.{SortedSet}
use sphere_platform.Tasks.Task.{
  Task, TaskStatus, queued, assigned, running, completed, failed, timeout, cancelled,
  cancelled_by_scheduler, is_waiting,
}
use sphere_platform.Tasks.Queue.{TaskQueue, cancel_task, mark_completed, is_device_busy}
use sphere_platform.Tasks.Service.{Delivery, delivered, offline, broken}
use sphere_platform.Scheduler.Schedule.{Execution, World}
use sphere_platform.Scheduler.Engine.Conflict.{
  last_execution, is_cancelled, is_broken, off_queue, cancel_in_queue, stop, cancel_rows,
  cancel_batch, cancel_pipelines, cancel_previous_tasks,
}
use sphere_platform.Tasks.Queue.Locks.{cancel_task-running}
use sphere_platform.Base.Dict.Size.{is_some}

-- A task of the batch that is not done, but for a running one whose publisher raised.
abbrev pub IsToStop : (String → Delivery) → String → String → Task → Type 0
IsToStop send b id t =
    (t.batch_id ≡ some b)
    × ((t.status ≡ queued) ⊎ (t.status ≡ assigned) ⊎ ((t.status ≡ running) × (send id ≢ broken)))

-- The row of a task that the policy has cancelled.
abbrev pub cancelled_row : ℕ → Task → Task
cancelled_row now t = record t {
  status = cancelled;
  finished_at = some now;
  updated_at = some now;
  error_message = some cancelled_by_scheduler;
}

module _ (S : SortedSet) where
  is_broken-no : (d : Delivery) → d ≢ broken → is_broken S d ≡ false
  is_broken-no delivered h = refl
  is_broken-no offline h = refl
  is_broken-no broken h = absurd (h refl)

  is_cancelled-stops :
      (send : String → Delivery) (b id : String) (t : Task)
      → IsToStop send b id t
      → is_cancelled S send b id t ≡ true
  is_cancelled-stops send b id t (of_b, inl q) = rw (of_b, q, eq_refl b) refl
  is_cancelled-stops send b id t (of_b, inr (inl a)) = rw (of_b, a, eq_refl b) refl
  is_cancelled-stops send b id t (of_b, inr (inr (r, heard))) =
      rw (of_b, r, eq_refl b, is_broken-no (send id) heard) refl

  stops-is_cancelled :
      (send : String → Delivery) (b id : String) (t : Task)
      → is_cancelled S send b id t ≡ true
      → IsToStop send b id t
  stops-is_cancelled send b id t h = (of_batch t.batch_id refl, of_status t.status refl)
    where
      of_batch : (o : Option String) → t.batch_id ≡ o → t.batch_id ≡ some b
      of_batch none e = ground (arith, h, e)
      of_batch (some c) e = ground (arith, h, e, eq_iff c b)

      of_status :
          (s : TaskStatus)
          → t.status ≡ s
          → (t.status ≡ queued)
            ⊎ (t.status ≡ assigned)
            ⊎ ((t.status ≡ running) × (send id ≢ broken))
      of_status queued e = inl e
      of_status assigned e = inr (inl e)
      of_status running e = inr (inr (e, λ b. ground (arith, h, e, b)))
      of_status completed e = ground (arith, h, e)
      of_status failed e = ground (arith, h, e)
      of_status timeout e = ground (arith, h, e)
      of_status cancelled e = ground (arith, h, e)

  abbrev pub row_after : (String → Delivery) → ℕ → String → String → Option Task → Option Task
  row_after send now b id none = none
  row_after send now b id (some t) = some (if is_cancelled S send b id t then stop S now t else t)

  cancel_rows-rows :
      (send : String → Delivery) (now : ℕ) (b : String) (d : Dict Task) (q : TaskQueue S)
      (i : String)
      → get (cancel_rows S send now b d q).rows i ≡ row_after send now b i (get d i)
  unfolding cancel_rows get
  cancel_rows-rows send now b [] q i = refl
  cancel_rows-rows send now b ((id, t) ∷ d) q i = elim (Bool-cases (id == i)) [
    | inl e ↦ rw (e, eq_true id i e) refl
    | inr e ↦ rw e (cancel_rows-rows send now b d _ i)
  ]

  -- A cancelled task leaves its device without a lock, and puts no lock on another.
  cancel_in_queue-running :
      (q : TaskQueue S) (id : String) (t : Task) (d : String)
      → get (cancel_in_queue S q id t).running d
        ≡ (if t.device_id == d then none else get q.running d)
  unfolding mark_completed
  cancel_in_queue-running q id t d =
      get-remove (off_queue S q id t).running t.device_id d
      ∙ ap (λ (r : Dict String). if t.device_id == d then none else get r d)
          (off (is_waiting t.status))
    where
      off :
          (b : Bool)
          → (if b then (cancel_task S q id t.org_id (some t.device_id)).1 else q).running
            ≡ q.running
      off true = cancel_task-running S q id t.org_id (some t.device_id)
      off false = refl

  cancel_rows-unlocked :
      (send : String → Delivery) (now : ℕ) (b : String) (d : Dict Task) (q : TaskQueue S)
      (device : String)
      → get q.running device ≡ none
      → get (cancel_rows S send now b d q).queue.running device ≡ none
  unfolding cancel_rows
  cancel_rows-unlocked send now b [] q device h = h
  cancel_rows-unlocked send now b ((id, t) ∷ d) q device h =
      elim (Bool-cases (is_cancelled S send b id t)) [
        | inr e ↦ rw e (cancel_rows-unlocked send now b d q device h)
        | inl e ↦ rw e (
            cancel_rows-unlocked send now b d (cancel_in_queue S q id t) device
              (ground (arith, h, cancel_in_queue-running q id t device)))
      ]

  cancel_rows-frees :
      (send : String → Delivery) (now : ℕ) (b : String) (d : Dict Task) (q : TaskQueue S)
      (i : String) (t : Task)
      → get d i ≡ some t
      → is_cancelled S send b i t ≡ true
      → get (cancel_rows S send now b d q).queue.running t.device_id ≡ none
  unfolding cancel_rows get
  cancel_rows-frees send now b [] q i t h k = ground (arith, h)
  cancel_rows-frees send now b ((id, u) ∷ d) q i t h k = elim (Bool-cases (id == i)) [
    | inr e ↦ cancel_rows-frees send now b d _ i t (rw e at h) k
    | inl e ↦ turn (eq_true id i e) (ground (arith, h, e))
  ]
    where
      turn :
          id ≡ i
          → u ≡ t
          → get (cancel_rows S send now b ((id, u) ∷ d) q).queue.running t.device_id ≡ none
      turn same is =
          rw (same, is)
            (rw k (
              cancel_rows-unlocked send now b d (cancel_in_queue S q i t) t.device_id
                (ground (arith, cancel_in_queue-running q i t t.device_id, eq_refl t.device_id))))

  -- What the policy leaves of the rows and the locks, for the batch of the last run.
  abbrev pub Stops : (String → Delivery) → ℕ → String → Dict Task → Dict Task → TaskQueue S → Type 0
  Stops send now b before after queue =
      (i : String) (t : Task)
      → get before i ≡ some t
      → (IsToStop send b i t
          → (get after i ≡ some (cancelled_row now t))
            × (is_device_busy S queue t.device_id ≡ false))
        × (¬ IsToStop send b i t → get after i ≡ some t)

  cancel_rows-Stops :
      (send : String → Delivery) (now : ℕ) (b : String) (d : Dict Task) (q : TaskQueue S)
      → let c = cancel_rows S send now b d q in Stops send now b d c.rows c.queue
  unfolding is_device_busy
  cancel_rows-Stops send now b d q i t at = (
    λ to_stop.
        let k = is_cancelled-stops send b i t to_stop in
        (row ∙ rw (k) refl, ap is_some (cancel_rows-frees send now b d q i t at k)),
    λ stays. elim (Bool-cases (is_cancelled S send b i t)) [
      | inl k ↦ absurd (stays (stops-is_cancelled send b i t k))
      | inr k ↦ row ∙ rw (k) refl
    ],
  )
    where
      row : get (cancel_rows S send now b d q).rows i ≡ row_after send now b i (some t)
      row = cancel_rows-rows send now b d q i ∙ ap (row_after send now b i) at

  -- Under the policy that cancels, each task of the last run's batch that is not done is marked as
  -- cancelled by the scheduler, with the time, and its other columns stay, but for a running one whose
  -- publisher raised. All other rows stay. The device of a cancelled task has no lock then, whoever
  -- held it: a device that runs another task counts as free.
  pub cancel_previous_tasks-Stops :
      (send : String → Delivery) (now : ℕ) (w : World S) (id b : String) (e : Execution)
      → last_execution id w.executions ≡ some e
      → e.batch_id ≡ some b
      → let after = cancel_previous_tasks S send now w id in
        Stops send now b w.tasks after.tasks after.task_queue
  unfolding cancel_previous_tasks
  cancel_previous_tasks-Stops send now w id b e last in_b =
      rw (cancel_previous_tasks, last, in_b) (pipelines e.pipeline_batch_id)
    where
      pipelines :
          (p : Option String)
          → let after = cancel_pipelines S now (cancel_batch S send now w (some b)) p in
            Stops send now b w.tasks after.tasks after.task_queue
      pipelines none = cancel_rows-Stops send now b w.tasks w.task_queue
      pipelines (some p) = cancel_rows-Stops send now b w.tasks w.task_queue
