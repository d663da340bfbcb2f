-- ===== src/Scheduler/Engine/Ticks.antt =====
-- backend/services/scheduler/scheduler_engine.py: the counts of runs through any number of ticks.
use sphere_platform.Base.{
  ℕ, String, Bool, true, false, Option, none, some, List, [], ◌∷◌, if◌then◌else◌, ◌≡◌, refl, sym,
  Bool-cases, inl, inr, take, map, subst, length,
}
use sphere_platform.Base.Dict.{get, put}
use sphere_platform.Redis.{SortedSet}
use sphere_platform.Tasks.Service.{Delivery}
use sphere_platform.Scheduler.Schedule.{
  Schedule, still_running, no_devices, SkipReason, Catalogue, World,
}
use sphere_platform.Scheduler.Service.{advance_fire_time, deactivated}
use sphere_platform.Scheduler.Engine.Conflict.{cancel_previous_tasks}
use sphere_platform.Scheduler.Engine.Launch.{NewIds, Pending, launch}
use sphere_platform.Scheduler.Engine.Devices.{resolve_devices}
use sphere_platform.Scheduler.Engine.{
  out_of_runs, too_early, too_late, cancels, is_blocked, Times, Ticked, save, log, skip_run,
  skipped_run, triggered_run, fired, fire, fire_on, process_schedule, process_row, process_all,
  enqueue_all, tick, due_schedules,
}
use sphere_platform.Scheduler.Engine.Counts.{
  AllCounted, put-AllCounted, row-AllCounted, triggered-IsCounted, skipped-IsCounted, fired-Fires,
  cancel_previous_tasks-keeps, launch-keeps,
}

module _ (S : SortedSet) where
  abbrev pub Counted : World S → Type 0
  Counted w = AllCounted w.schedules w.executions

  skip_run-Counted :
      (c : Catalogue) (t : Times) (w : World S) (id : String) (s : Schedule) (why : SkipReason)
      → Counted w
      → get w.schedules id ≡ some s
      → Counted (skip_run S c t w id s why).world
  skip_run-Counted c t w id s why h at =
      put-AllCounted w.schedules w.executions id (advance_fire_time c t.now s)
        (skipped_run t id s why) h refl
        (skipped-IsCounted c t.now w.executions id s (skipped_run t id s why) (h id s at) refl)

  fire-Counted :
      (c : Catalogue) (t : Times) (w : World S) (id : String) (s : Schedule) (new : NewIds)
      (ds : List String)
      → Counted w
      → get w.schedules id ≡ some s
      → out_of_runs s ≡ false
      → Counted (fire S c t w id s new ds).world
  fire-Counted c t w id s new ds h at left =
      let l = launch S c t.now w s new ds in
      let e = triggered_run S t id s (length ds) l in
      let (same, log) = launch-keeps S c t.now w s new ds in
      subst (λ d. AllCounted (put d id (fired c t.now s)) (e ∷ l.world.executions)) (sym same)
        (subst (λ es. AllCounted (put w.schedules id (fired c t.now s)) (e ∷ es)) (sym log)
          (put-AllCounted w.schedules w.executions id (fired c t.now s) e h refl (
            triggered-IsCounted w.executions id s (fired c t.now s) e (h id s at)
              (fired-Fires c t.now s) left refl refl)))

  fire_on-Counted :
      (c : Catalogue) (t : Times) (w : World S) (id : String) (s : Schedule) (new : NewIds)
      (ds : List String)
      → Counted w
      → get w.schedules id ≡ some s
      → out_of_runs s ≡ false
      → Counted (fire_on S c t w id s new ds).world
  fire_on-Counted c t w id s new [] h at left = skip_run-Counted c t w id s no_devices h at
  fire_on-Counted c t w id s new (x ∷ xs) h at left = fire-Counted c t w id s new (x ∷ xs) h at left

  -- The world from which a schedule is fired.
  freed-Counted :
      (send : String → Delivery) (now : ℕ) (w : World S) (id : String) (s : Schedule) (b : Bool)
      → Counted w
      → get w.schedules id ≡ some s
      → let v = if b then cancel_previous_tasks S send now w id else w in
        Counted v × (get v.schedules id ≡ some s)
  freed-Counted send now w id s false h at = (h, at)
  freed-Counted send now w id s true h at =
      let (same, log) = cancel_previous_tasks-keeps S send now w id in
      (
        subst (λ d. AllCounted d (cancel_previous_tasks S send now w id).executions) (sym same)
            (subst (λ es. AllCounted w.schedules es) (sym log) h),
        rw same at,
      )

  deactivated-Counted :
      (w : World S) (id : String) (s : Schedule)
      → Counted w
      → get w.schedules id ≡ some s
      → Counted (save S w id (deactivated s))
  deactivated-Counted w id s h at =
      row-AllCounted w.schedules w.executions id (deactivated s) h
        (record { runs = (h id s at).runs; limit = (h id s at).limit })

  process_schedule-Counted :
      (send : String → Delivery) (c : Catalogue) (t : Times) (w : World S) (id : String)
      (s : Schedule) (new : NewIds)
      → Counted w
      → get w.schedules id ≡ some s
      → Counted (process_schedule S send c t w id s new).world
  unfolding process_schedule
  process_schedule-Counted send c t w id s new h at = elim (Bool-cases (out_of_runs s)) [
    | inl a ↦ rw (a, process_schedule) (deactivated-Counted w id s h at)
    | inr a ↦ elim (Bool-cases (too_early t.now s.active_from)) [
      | inl b ↦ rw (a, process_schedule, b) h
      | inr b ↦ elim (Bool-cases (too_late t.now s.active_until)) [
        | inl d ↦ rw (a, process_schedule, b, d) (deactivated-Counted w id s h at)
        | inr d ↦ elim (Bool-cases (is_blocked S t.now w id s)) [
          | inl e ↦
              rw (a, process_schedule, b, d, e) (skip_run-Counted c t w id s still_running h at)
          | inr e ↦
              let (k, at') = freed-Counted send t.now w id s (cancels s.conflict_policy) h at in
              rw (a, process_schedule, b, d, e)
                (fire_on-Counted c t _ id s new (resolve_devices c s) k at' a)
        ]
      ]
    ]
  ]

  process_row-Counted :
      (send : String → Delivery) (c : Catalogue) (t : Times) (new : NewIds) (id : String)
      (k : Ticked S) (o : Option Schedule)
      → Counted k.world
      → get k.world.schedules id ≡ o
      → Counted (process_row S send c t new id k o).world
  process_row-Counted send c t new id k none h at = h
  process_row-Counted send c t new id k (some s) h at =
      process_schedule-Counted send c t k.world id s new h at

  process_all-Counted :
      (send : String → Delivery) (c : Catalogue) (times : String → Times) (new : String → NewIds)
      (ids : List String) (k : Ticked S)
      → Counted k.world
      → Counted (process_all S send c times new ids k).world
  unfolding process_all
  process_all-Counted send c times new [] k h = h
  process_all-Counted send c times new (id ∷ ids) k h =
      process_all-Counted send c times new ids _
        (process_row-Counted send c (times id) (new id) id k _ h refl)

  enqueue_all-keeps :
      (now : ℕ) (ps : List Pending) (w : World S) → Counted w → Counted (enqueue_all S now ps w)
  unfolding enqueue_all
  enqueue_all-keeps now [] w h = h
  enqueue_all-keeps now (p ∷ ps) w h = enqueue_all-keeps now ps _ h

  -- One tick of the engine, with what it meets: its clocks, its new ids and the publisher.
  pub record Beat : Type 0 where
    pub catalogue : Catalogue
    pub began : ℕ
    pub clock : String → ℕ
    pub new : String → NewIds
    pub send : String → Delivery

  unfoldable pub ticks : List Beat → World S → World S
  ticks [] w = w
  ticks (b ∷ bs) w = ticks bs (tick S b.send b.catalogue b.began b.clock b.new w)

  tick-Counted :
      (b : Beat) (w : World S)
      → Counted w
      → Counted (tick S b.send b.catalogue b.began b.clock b.new w)
  unfolding tick
  tick-Counted b w h =
      let times : String → Times = λ id. record { fire_time = b.began; now = b.clock id } in
      let ids : List String =
        take 50 (map (λ (row : String × Schedule). row.0) (due_schedules S b.began w.schedules)) in
      let start : Ticked S = record { world = w; pending = [] } in
      let k : Ticked S = process_all S b.send b.catalogue times b.new ids start in
      enqueue_all-keeps b.began k.pending k.world
        (process_all-Counted b.send b.catalogue times b.new ids start h)

  -- Through any number of ticks, `total_runs` of a schedule is the number of its executions that
  -- were triggered, and is at most its `max_runs` where that is set, when both hold at the start.
  pub ticks-Counted : (bs : List Beat) (w : World S) → Counted w → Counted (ticks bs w)
  unfolding ticks
  ticks-Counted [] w h = h
  ticks-Counted (b ∷ bs) w h =
      ticks-Counted bs (tick S b.send b.catalogue b.began b.clock b.new w) (tick-Counted b w h)
