-- ===== src/Tasks/Watchdog/Rows.antt =====
-- backend/tasks/task_heartbeat_watchdog.py: the rows, the locks and the queues after a cycle.
use sphere_platform.Base.{
  ℕ, String, false, Option, none, some, [], ◌∷◌, ◌==◌, arith, ◌≡◌, refl, ◌∙◌, ap, eq_refl,
  Bool-cases, inl, inr, ◌+◌, ◌*◌, ◌<◌, ◌≤◌, ◌⊎◌, ltb, ltb→lt, subst,
}
use sphere_platform.Base.Dict.{Dict, get, get-remove}
use sphere_platform.Base.Dict.Size.{is_some}
use sphere_platform.Redis.{SortedSet}
use sphere_platform.Tasks.Task.{
  Task, TaskStatus, queued, assigned, running, completed, failed, timeout, cancelled, ErrorMessage,
  watchdog_running, watchdog_queued,
}
use sphere_platform.Tasks.Queue.{TaskQueue, mark_completed, is_device_busy}
use sphere_platform.Tasks.Queue.Locks.{cancel_task-running}
use sphere_platform.Tasks.Service.{Store}
use sphere_platform.Tasks.Watchdog.{
  Limits, Verdict, fine, stale_running, stale_queued, verdict, verdict_of, judged, expire_task,
  expire_rows, stale_rows, is_stale_running, is_stale_queued, free_locks, drop_queued,
  expire_stale_tasks, overdue, too_old,
}

abbrev pub map_row : (Task → Task) → Option Task → Option Task
map_row f none = none
map_row f (some t) = some (f t)

expire_rows-get :
    (now : ℕ) (l : Limits) (d : Dict Task) (i : String)
    → get (expire_rows now l d) i ≡ map_row (expire_task now l) (get d i)
unfolding expire_rows get
expire_rows-get now l [] i = refl
expire_rows-get now l ((id, t) ∷ d) i = elim (Bool-cases (id == i)) [
  | inl e ↦ rw e refl
  | inr e ↦ rw e (expire_rows-get now l d i)
]

-- A task that a cycle has judged is fine for the next.
judged-fine :
    (now : ℕ) (l : Limits) (v : Verdict) (t : Task)
    → verdict now l t ≡ v
    → verdict now l (judged now l v t) ≡ fine
unfolding verdict
judged-fine now l fine t h = h
judged-fine now l stale_running t h = refl
judged-fine now l stale_queued t h = refl

-- The tasks that the watchdog is to time out: one that runs and has had its time and the buffer, and
-- one that was created more than so many minutes ago and still waits.
abbrev pub IsOverdue : ℕ → Limits → Task → Type 0
IsOverdue now l t =
    (started : ℕ) × (t.status ≡ running)
    × (t.started_at ≡ some started)
    × (started + (t.timeout_seconds + l.buffer) ≤ now)

abbrev pub IsForgotten : ℕ → Limits → Task → Type 0
IsForgotten now l t =
    ((t.status ≡ queued) ⊎ (t.status ≡ assigned)) × (t.created_at + l.minutes * 60 < now)

-- The row of a task that timed out.
abbrev pub timed_out : ℕ → ErrorMessage → Task → Task
timed_out now message t = record t {
  status = timeout;
  finished_at = some now;
  updated_at = some now;
  error_message = some message;
}

verdict-IsOverdue :
    (now : ℕ) (l : Limits) (t : Task) → IsOverdue now l t → verdict now l t ≡ stale_running
unfolding verdict
verdict-IsOverdue now l t (started, status, at, late) = rw (status, at) (ground (arith, late))

verdict-IsForgotten :
    (now : ℕ) (l : Limits) (t : Task) → IsForgotten now l t → verdict now l t ≡ stale_queued
unfolding verdict
verdict-IsForgotten now l t (inl status, late) = rw (status) (ground (arith, late))
verdict-IsForgotten now l t (inr status, late) = rw (status) (ground (arith, late))

too_old-cases :
    (now : ℕ) (l : Limits) (t : Task)
    → (t.status ≡ queued) ⊎ (t.status ≡ assigned)
    → (too_old now l t.created_at ≡ fine) ⊎ IsForgotten now l t
too_old-cases now l t waits = elim (Bool-cases (ltb (t.created_at + l.minutes * 60) now)) [
  | inl e ↦ inr (waits, ltb→lt _ _ e)
  | inr e ↦ inl (rw (e) refl)
]

overdue-cases :
    (now : ℕ) (l : Limits) (t : Task) (o : Option ℕ)
    → t.status ≡ running
    → t.started_at ≡ o
    → (overdue now l t.timeout_seconds o ≡ fine) ⊎ IsOverdue now l t
overdue-cases now l t none runs at = inl refl
overdue-cases now l t (some started) runs at =
    elim (Bool-cases (ltb now (started + (t.timeout_seconds + l.buffer)))) [
      | inl e ↦ inl (rw (e) refl)
      | inr e ↦ inr (started, runs, at, ground (arith, e))
    ]

verdict-cases :
    (now : ℕ) (l : Limits) (t : Task)
    → (verdict now l t ≡ fine) ⊎ IsOverdue now l t ⊎ IsForgotten now l t
unfolding verdict
verdict-cases now l t = turn t.status refl
  where
    turn :
        (s : TaskStatus)
        → t.status ≡ s
        → (verdict_of now l s t ≡ fine) ⊎ IsOverdue now l t ⊎ IsForgotten now l t
    turn running e = elim (overdue-cases now l t t.started_at e refl) [
      | inl f ↦ inl f
      | inr late ↦ inr (inl late)
    ]
    turn queued e = elim (too_old-cases now l t (inl e)) [
      | inl f ↦ inl f
      | inr late ↦ inr (inr late)
    ]
    turn assigned e = elim (too_old-cases now l t (inr e)) [
      | inl f ↦ inl f
      | inr late ↦ inr (inr late)
    ]
    turn completed e = inl refl
    turn failed e = inl refl
    turn timeout e = inl refl
    turn cancelled e = inl refl

fine-left :
    (now : ℕ) (l : Limits) (t : Task)
    → verdict now l t ≡ fine
    → (¬ IsOverdue now l t) × (¬ IsForgotten now l t)
fine-left now l t f = (
  λ late. ground (arith, f, verdict-IsOverdue now l t late),
  λ late. ground (arith, f, verdict-IsForgotten now l t late),
)

module _ (S : SortedSet) where
  drop_queued-running : (d : Dict Task) (q : TaskQueue S) → (drop_queued S d q).running ≡ q.running
  unfolding drop_queued
  drop_queued-running [] q = refl
  drop_queued-running ((id, t) ∷ d) q =
      drop_queued-running d _ ∙ cancel_task-running S q id t.org_id (some t.device_id)

  free_locks-unlocked :
      (d : Dict Task) (q : TaskQueue S) (device : String)
      → get q.running device ≡ none
      → get (free_locks S d q).running device ≡ none
  unfolding free_locks mark_completed
  free_locks-unlocked [] q device h = h
  free_locks-unlocked ((id, t) ∷ d) q device h =
      free_locks-unlocked d (mark_completed S q id t.device_id) device
        (ground (arith, h, get-remove q.running t.device_id device))

  free_locks-frees :
      (now : ℕ) (l : Limits) (d : Dict Task) (q : TaskQueue S) (i : String) (t : Task)
      → get d i ≡ some t
      → verdict now l t ≡ stale_running
      → get (free_locks S (stale_rows is_stale_running now l d) q).running t.device_id ≡ none
  unfolding free_locks stale_rows get mark_completed
  free_locks-frees now l [] q i t h k = ground (arith, h)
  free_locks-frees now l ((id, u) ∷ d) q i t h k = elim (Bool-cases (id == i)) [
    | inr e ↦ elim (Bool-cases (is_stale_running (verdict now l u))) [
      | inl f ↦
          rw f (free_locks-frees now l d (mark_completed S q id u.device_id) i t (rw e at h) k)
      | inr f ↦ rw f (free_locks-frees now l d q i t (rw e at h) k)
    ]
    | inl e ↦ first (ground (arith, h, e))
  ]
    where
      first :
          u ≡ t
          → get
              (free_locks S (stale_rows is_stale_running now l ((id, u) ∷ d)) q).running
              t.device_id
            ≡ none
      first same = rw (same) (
          rw (ap is_stale_running k) (
            free_locks-unlocked (stale_rows is_stale_running now l d)
              (mark_completed S q id t.device_id) t.device_id
              (ground (arith, get-remove q.running t.device_id t.device_id, eq_refl t.device_id))))

  -- A cycle of the watchdog times out every task that has run for its time and the buffer, and every
  -- task that has waited for too many minutes: the row of each says so, with the time and the reason,
  -- and keeps its other columns. The device of one that ran has no lock then, whichever task held it.
  -- All other tasks stay as they are, and the next cycle at that time finds none.
  pub expire_stale_tasks-rows :
      (now : ℕ) (l : Limits) (st : Store S) (i : String) (t : Task)
      → get st.tasks i ≡ some t
      → let after = expire_stale_tasks S now l st in
        (IsOverdue now l t
          → (get after.tasks i
              ≡ some (timed_out now (watchdog_running t.timeout_seconds l.buffer) t))
            × (is_device_busy S after.queue t.device_id ≡ false))
        × (IsForgotten now l t
            → get after.tasks i ≡ some (timed_out now (watchdog_queued l.minutes) t))
        × (¬ IsOverdue now l t → ¬ IsForgotten now l t → get after.tasks i ≡ some t)
        × ((u : Task)
            → get after.tasks i ≡ some u
            → (¬ IsOverdue now l u) × (¬ IsForgotten now l u))
  unfolding expire_stale_tasks expire_task is_device_busy
  expire_stale_tasks-rows now l st i t at = (
    λ late.
        let v = verdict-IsOverdue now l t late in
        (
          row (judged now l stale_running t) (ap (λ v. judged now l v t) v),
          ap (λ (r : Dict String). is_some (get r t.device_id))
                (drop_queued-running (stale_rows is_stale_queued now l st.tasks)
                  (free_locks S (stale_rows is_stale_running now l st.tasks) st.queue))
              ∙ ap is_some (free_locks-frees now l st.tasks st.queue i t at v),
        ),
    λ late.
        row (judged now l stale_queued t)
          (ap (λ v. judged now l v t) (verdict-IsForgotten now l t late)),
    λ in_time not_old. elim (verdict-cases now l t) [
      | inl f ↦ row t (ap (λ v. judged now l v t) f)
      | inr (inl late) ↦ absurd (in_time late)
      | inr (inr late) ↦ absurd (not_old late)
    ],
    λ u there.
        let same : judged now l (verdict now l t) t ≡ u = ground (arith, there, row _ refl) in
        fine-left now l u
          (subst (λ x. verdict now l x ≡ fine) same (judged-fine now l (verdict now l t) t refl)),
  )
    where
      row :
          (u : Task)
          → judged now l (verdict now l t) t ≡ u
          → get (expire_rows now l st.tasks) i ≡ some u
      row u e = expire_rows-get now l st.tasks i ∙ ap (map_row (expire_task now l)) at ∙ ap some e
