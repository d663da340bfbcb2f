-- ===== src/Scheduler/Engine/Outcome.antt =====
-- backend/services/scheduler/scheduler_engine.py: what `_process_schedule` does to a schedule that is
-- due, when it fires and when it skips.
use sphere_platform.Base.{
  ℕ, ◌≤◌, String, Bool, true, false, Option, none, some, List, [], ◌∷◌, ◌==◌, if◌then◌else◌, arith,
  ◌≡◌, refl, ◌∙◌, eq_refl, Bool-cases, inl, inr, length, cases-or, has, eq_true, All, ap,
}
use sphere_platform.Base.Dict.{Dict, get, put, get-put, get-put_same}
use sphere_platform.Redis.{SortedSet}
use sphere_platform.Tasks.Service.{Delivery}
use sphere_platform.Scheduler.Schedule.{Schedule, TargetType, Execution, Catalogue, World}
use sphere_platform.Scheduler.Service.{
  advance_fire_time, set_number, compute_next_fire, set_text, next_cron, next_interval,
  next_one_shot,
}
use sphere_platform.Scheduler.Engine.Conflict.{is_triggered, cancel_previous_tasks}
use sphere_platform.Scheduler.Engine.Launch.{
  NewIds, Pending, launch, launch_target, create_script_tasks, launch_found, add_tasks, pending_of,
  scheduled_task, dag_timeout, launch_version,
}
use sphere_platform.Scheduler.Engine.Devices.{resolve_devices}
use sphere_platform.Scheduler.Engine.{
  out_of_runs, too_early, too_late, cancels, is_blocked, Times, Ticked, triggered_run, fired,
  fire_on, process_schedule,
}
use sphere_platform.Scheduler.Engine.Counts.{cancel_previous_tasks-keeps}
use sphere_platform.Tasks.Task.{Task, queued}
use sphere_platform.Tasks.Batch.{TaskBatch}
use sphere_platform.Scheduler.Engine.Counted.{Counted, fired-Counted}

abbrev pub IsQueuedRow : Dict Task → Pending → Type 0
IsQueuedRow d p =
    (t : Task) × (get d p.task_id ≡ some t)
    × (t.status ≡ queued)
    × (t.device_id ≡ p.device_id)
    × (t.org_id ≡ p.org_id)
    × (t.priority ≡ p.priority)

module _ (task : String → Task) (new : NewIds)
    (one_row : (x y : String) → new.row x ≡ new.row y → x ≡ y) where
  add_tasks-keeps :
      (xs : List String) (d : Dict Task) (x : String)
      → get d (new.row x) ≡ some (task x)
      → get (add_tasks task new xs d) (new.row x) ≡ some (task x)
  unfolding add_tasks
  add_tasks-keeps [] d x h = h
  add_tasks-keeps (y ∷ ys) d x h =
      add_tasks-keeps ys (put d (new.row y) (task y)) x
        (elim (Bool-cases (new.row y == new.row x)) [
          | inl e ↦
              let same : y ≡ x = one_row y x (eq_true (new.row y) (new.row x) e) in
              rw same (get-put_same d (new.row x) (task x))
          | inr e ↦ ground (arith, h, e, get-put d (new.row y) (new.row x) (task y))
        ])

  add_tasks-row :
      (xs : List String) (d : Dict Task) (x : String)
      → has xs x ≡ true
      → get (add_tasks task new xs d) (new.row x) ≡ some (task x)
  unfolding add_tasks
  add_tasks-row [] d x h = ground (arith, h)
  add_tasks-row (y ∷ ys) d x h = elim (cases-or (y == x) (has ys x) h) [
    | inr later ↦ add_tasks-row ys (put d (new.row y) (task y)) x later
    | inl e ↦
        let same : y ≡ x = eq_true y x e in
        rw same
          (add_tasks-keeps ys (put d (new.row x) (task x)) x (get-put_same d (new.row x) (task x)))
  ]

abbrev pending_one : Schedule → NewIds → String → Pending
pending_one s new x = record { task_id = new.row x; device_id = x; org_id = s.org_id; priority = 5 }

pending_of-rows :
    (s : Schedule) (new : NewIds) (d : Dict Task) (task : String → Task) (ys : List String)
    → ((x : String) → has ys x ≡ true → IsQueuedRow d (pending_one s new x))
    → All (IsQueuedRow d) (pending_of s new ys)
unfolding pending_of
pending_of-rows s new d task [] h = tt
pending_of-rows s new d task (y ∷ ys) h = (
  h y (ground (arith, eq_refl y)),
  pending_of-rows s new d task ys (λ x k. h x (ground (arith, k))),
)

length-pending_of :
    (s : Schedule) (new : NewIds) (ys : List String) → length (pending_of s new ys) ≡ length ys
unfolding pending_of
length-pending_of s new [] = refl
length-pending_of s new (y ∷ ys) = omega (arith, length-pending_of s new ys)

-- The next time of a one-shot schedule that is past.
compute_next_fire-past :
    (c : Catalogue) (now : ℕ) (s : Schedule) (at : ℕ)
    → set_text s.cron_expression ≡ none
    → set_number s.interval_seconds ≡ none
    → s.one_shot_at ≡ some at
    → at ≤ now
    → compute_next_fire c now s ≡ none
unfolding compute_next_fire
compute_next_fire-past c now s at cron every once past =
    ap (next_cron c now s) cron
    ∙ ap (next_interval now s) every
    ∙ ap (next_one_shot now) once
    ∙ ground (arith, past)

module _ (S : SortedSet) where
  launch-version :
      (c : Catalogue) (now : ℕ) (w : World S) (s : Schedule) (new : NewIds) (ds : List String)
      (i v : String)
      → s.target_type ≡ TargetType.script
      → s.script_id ≡ some i
      → get c.scripts i ≡ some (some v)
      → launch S c now w s new ds ≡ launch_version S c now w s new ds i v
  unfolding launch create_script_tasks
  launch-version c now w s new ds i v target named at =
      ap (λ (t : TargetType). launch_target S c now w s new ds t s.script_id s.pipeline_id) target
      ∙ ap
          (λ (o : Option String).
            launch_target S c now w s new ds TargetType.script o s.pipeline_id)
          named
      ∙ ap (launch_found S c now w s new ds i) at

  -- The world that a firing starts from.
  abbrev pub freed : (String → Delivery) → ℕ → World S → String → Schedule → World S
  freed send now w id s =
      if cancels s.conflict_policy then cancel_previous_tasks S send now w id else w

  process_schedule-open :
      (send : String → Delivery) (c : Catalogue) (t : Times) (w : World S) (id : String)
      (s : Schedule) (new : NewIds)
      → out_of_runs s ≡ false
      → too_early t.now s.active_from ≡ false
      → too_late t.now s.active_until ≡ false
      → is_blocked S t.now w id s ≡ false
      → process_schedule S send c t w id s new
        ≡ fire_on S c t (freed send t.now w id s) id s new (resolve_devices c s)
  unfolding process_schedule
  process_schedule-open send c t w id s new a b d e = rw (process_schedule, a, b, d, e) refl

  freed-executions :
      (send : String → Delivery) (now : ℕ) (w : World S) (id : String) (s : Schedule)
      → (freed send now w id s).executions ≡ w.executions
  freed-executions send now w id s = turn (cancels s.conflict_policy)
    where
      turn :
          (b : Bool)
          → (if b then cancel_previous_tasks S send now w id else w).executions ≡ w.executions
      turn false = refl
      turn true = (cancel_previous_tasks-keeps S send now w id).1

  -- What a firing leaves.
  pub record Fired (c : Catalogue) (t : Times) (w : World S) (id : String) (s : Schedule)
      (new : NewIds) (ds : List String) (r : Ticked S) : Type 0 where
    pub row : get r.world.schedules id ≡ some (fired c t.now s)
    pub counted : Counted c t.now s (fired c t.now s)
    pub queued : All (IsQueuedRow r.world.tasks) r.pending
    pub each : length r.pending ≡ length ds
    pub execution :
        (e : Execution) × (r.world.executions ≡ e ∷ w.executions)
        × (is_triggered e.status ≡ true)
        × (e.tasks_created ≡ length ds)
        × (e.batch_id ≡ some new.batch)
    pub batch : (b : TaskBatch) × (get r.world.batches new.batch ≡ some b) × (b.total ≡ length ds)

  -- A schedule of a script that is due, has runs left, stands in its window and is not held back by
  -- its last run fires on its devices, if there are any. The row is counted, and rescheduled by its
  -- cron expression or else its interval, or is done where it is a one-shot schedule. There is an
  -- execution that was triggered, with a batch of as many tasks as devices, and everything that is to
  -- be enqueued after the commit is a queued task of the database.
  pub process_schedule-Fired :
      (send : String → Delivery) (c : Catalogue) (t : Times) (w : World S) (id : String)
      (s : Schedule) (new : NewIds) (x : String) (xs : List String) (i v : String)
      → ((y z : String) → new.row y ≡ new.row z → y ≡ z)
      → out_of_runs s ≡ false
      → too_early t.now s.active_from ≡ false
      → too_late t.now s.active_until ≡ false
      → is_blocked S t.now w id s ≡ false
      → resolve_devices c s ≡ x ∷ xs
      → s.target_type ≡ TargetType.script
      → s.script_id ≡ some i
      → get c.scripts i ≡ some (some v)
      → Fired c t w id s new (x ∷ xs) (process_schedule S send c t w id s new)
  process_schedule-Fired send c t w id s new x xs i v one a b d free devices target named at =
      let task = scheduled_task t.now s new i v (dag_timeout (get c.versions v)) in
      let e =
        triggered_run S t id s (length (x ∷ xs))
          (launch_version S c t.now (freed send t.now w id s) s new (x ∷ xs) i v) in
      rw
        (
          process_schedule-open send c t w id s new a b d free,
          devices,
          launch-version c t.now (freed send t.now w id s) s new (x ∷ xs) i v target named at,
        )
        (record {
          counted = fired-Counted c t.now s;
          row = get-put_same (freed send t.now w id s).schedules id (fired c t.now s);
          queued = pending_of-rows s new _ task (x ∷ xs) (λ y k. (
            task y,
            add_tasks-row task new one (x ∷ xs) (freed send t.now w id s).tasks y k,
            refl,
            refl,
            refl,
            refl,
          ));
          each = length-pending_of s new (x ∷ xs);
          execution = (
            e,
            ap (λ (es : List Execution). e ∷ es) (freed-executions send t.now w id s),
            refl,
            refl,
            refl,
          );
          batch = (_, get-put_same (freed send t.now w id s).batches new.batch _, refl);
        })

  -- A one-shot schedule that finds no device when it is due is skipped for good: it stays active, has
  -- not run, and has no time at which it would be due again.
  pub process_schedule-one_shot_lost :
      (send : String → Delivery) (c : Catalogue) (t : Times) (w : World S) (id : String)
      (s : Schedule) (new : NewIds) (at : ℕ)
      → out_of_runs s ≡ false
      → too_early t.now s.active_from ≡ false
      → too_late t.now s.active_until ≡ false
      → is_blocked S t.now w id s ≡ false
      → resolve_devices c s ≡ []
      → set_text s.cron_expression ≡ none
      → set_number s.interval_seconds ≡ none
      → s.one_shot_at ≡ some at
      → at ≤ t.now
      → s.is_active ≡ true
      → let r = process_schedule S send c t w id s new in
        (s' : Schedule) × (get r.world.schedules id ≡ some s')
        × (s'.is_active ≡ true)
        × (s'.total_runs ≡ s.total_runs)
        × (s'.next_fire_at ≡ none)
  unfolding advance_fire_time
  process_schedule-one_shot_lost send c t w id s new at a b d e devices cron every once past on =
      rw (process_schedule-open send c t w id s new a b d e, devices)
        (
          advance_fire_time c t.now s,
          get-put_same (freed send t.now w id s).schedules id (advance_fire_time c t.now s),
          on,
          refl,
          compute_next_fire-past c t.now s at cron every once past,
        )
