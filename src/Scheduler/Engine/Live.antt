-- ===== src/Scheduler/Engine/Live.antt =====
-- backend/services/scheduler/scheduler_engine.py: the tick in which a due schedule fires.
use sphere_platform.Base.{
  ℕ, zero, suc, String, Bool, true, false, not, ◌||◌, Option, none, some, List, [], ◌∷◌, ◌==◌,
  if◌then◌else◌, arith, ◌≡◌, ◌≢◌, refl, ◌∙◌, ap, eq_iff, Bool-cases, inl, inr, take, map, has,
  eq_true,
}
use sphere_platform.Base.Dict.{Dict, get, get-put_same}
use sphere_platform.Base.Dict.Size.{IsDict}
use sphere_platform.Base.Dict.Rows.{get-put_other}
use sphere_platform.Redis.{SortedSet}
use sphere_platform.Tasks.Service.{Delivery}
use sphere_platform.Scheduler.Schedule.{Schedule, ConflictPolicy, Catalogue, World}
use sphere_platform.Scheduler.Service.{advance_fire_time, deactivated}
use sphere_platform.Scheduler.Engine.Conflict.{cancel_previous_tasks}
use sphere_platform.Scheduler.Engine.Launch.{NewIds, Pending, launch}
use sphere_platform.Scheduler.Engine.Devices.{resolve_devices}
use sphere_platform.Scheduler.Engine.{
  out_of_runs, too_early, too_late, skips, cancels, is_blocked, Times, Ticked, fired, fire_on,
  process_schedule, process_row, process_all, enqueue_all, tick, due_schedules, insert_by_time,
  is_due, before,
}
use sphere_platform.Scheduler.Engine.Counts.{launch-keeps, cancel_previous_tasks-keeps}
use sphere_platform.Scheduler.Engine.Ticks.{Beat}

abbrev pub is_empty : List String → Bool
is_empty [] = true
is_empty (x ∷ xs) = false

-- No id stands twice.
abbrev IsOnce : List String → Type 0
IsOnce [] = Unit
IsOnce (x ∷ xs) = (has xs x ≡ false) × IsOnce xs

has-take : (n : ℕ) (xs : List String) (x : String) → has xs x ≡ false → has (take n xs) x ≡ false
has-take zero xs x h = refl
has-take (suc n) [] x h = refl
has-take (suc n) (y ∷ ys) x h = ground (arith, h, has-take n ys x)

take-IsOnce : (n : ℕ) (xs : List String) → IsOnce xs → IsOnce (take n xs)
take-IsOnce zero xs h = tt
take-IsOnce (suc n) [] h = tt
take-IsOnce (suc n) (x ∷ xs) h = (has-take n xs x h.0, take-IsOnce n xs h.1)

abbrev names : Dict Schedule → List String
names d = map (λ row. row.0) d

module _ (S : SortedSet) where
  names-insert :
      (x : String × Schedule) (d : Dict Schedule) (i : String)
      → has (names (insert_by_time S x d)) i ≡ (x.0 == i || has (names d) i)
  unfolding insert_by_time
  names-insert x [] i = refl
  names-insert x (y ∷ ys) i = elim (Bool-cases (before S x.1.next_fire_at y.1.next_fire_at)) [
    | inl e ↦ rw e refl
    | inr e ↦ rw e (ground (arith, names-insert x ys i))
  ]

  insert-IsOnce :
      (x : String × Schedule) (d : Dict Schedule)
      → has (names d) x.0 ≡ false
      → IsOnce (names d)
      → IsOnce (names (insert_by_time S x d))
  unfolding insert_by_time
  insert-IsOnce x [] h k = (refl, tt)
  insert-IsOnce x (y ∷ ys) h k = elim (Bool-cases (before S x.1.next_fire_at y.1.next_fire_at)) [
    | inl e ↦ rw e (h, k)
    | inr e ↦ rw e (
      ground (arith, names-insert x ys y.0, h, k.0, eq_iff x.0 y.0, eq_iff y.0 x.0),
      insert-IsOnce x ys (ground (arith, h)) k.1,
    )
  ]

  due-absent :
      (now : ℕ) (d : Dict Schedule) (i : String)
      → get d i ≡ none
      → has (names (due_schedules S now d)) i ≡ false
  unfolding due_schedules get
  due-absent now [] i h = refl
  due-absent now ((j, s) ∷ d) i h = elim (Bool-cases (is_due S now s)) [
    | inl e ↦
        rw e (ground (arith, h, due-absent now d i, names-insert (j, s) (due_schedules S now d) i))
    | inr e ↦ rw e (ground (arith, h, due-absent now d i))
  ]

  due-IsOnce : (now : ℕ) (d : Dict Schedule) → IsDict d → IsOnce (names (due_schedules S now d))
  unfolding due_schedules
  due-IsOnce now [] h = tt
  due-IsOnce now ((j, s) ∷ d) h = elim (Bool-cases (is_due S now s)) [
    | inl e ↦ rw e (
        insert-IsOnce (j, s) (due_schedules S now d) (due-absent now d j h.0)
          (due-IsOnce now d h.1))
    | inr e ↦ rw e (due-IsOnce now d h.1)
  ]

  -- A schedule's turn leaves the rows of the others.
  fire_on-others :
      (c : Catalogue) (t : Times) (w : World S) (id j : String) (s : Schedule) (new : NewIds)
      (ds : List String)
      → id ≢ j
      → get (fire_on S c t w id s new ds).world.schedules j ≡ get w.schedules j
  fire_on-others c t w id j s new [] h =
      get-put_other w.schedules id j (advance_fire_time c t.now s) h
  fire_on-others c t w id j s new (x ∷ xs) h =
      get-put_other (launch S c t.now w s new (x ∷ xs)).world.schedules id j (fired c t.now s) h
      ∙ ap (λ (d : Dict Schedule). get d j) (launch-keeps S c t.now w s new (x ∷ xs)).0

  freed-others :
      (send : String → Delivery) (now : ℕ) (w : World S) (id j : String) (b : Bool)
      → get (if b then cancel_previous_tasks S send now w id else w).schedules j ≡ get w.schedules j
  freed-others send now w id j false = refl
  freed-others send now w id j true =
      ap (λ (d : Dict Schedule). get d j) (cancel_previous_tasks-keeps S send now w id).0

  process_schedule-others :
      (send : String → Delivery) (c : Catalogue) (t : Times) (w : World S) (id j : String)
      (s : Schedule) (new : NewIds)
      → id ≢ j
      → get (process_schedule S send c t w id s new).world.schedules j ≡ get w.schedules j
  unfolding process_schedule
  process_schedule-others send c t w id j s new h = elim (Bool-cases (out_of_runs s)) [
    | inl a ↦ rw (process_schedule, a) (get-put_other w.schedules id j (deactivated s) h)
    | inr a ↦ elim (Bool-cases (too_early t.now s.active_from)) [
      | inl b ↦ rw (process_schedule, a, b) refl
      | inr b ↦ elim (Bool-cases (too_late t.now s.active_until)) [
        | inl d ↦ rw (process_schedule, a, b, d) (get-put_other w.schedules id j (deactivated s) h)
        | inr d ↦ elim (Bool-cases (is_blocked S t.now w id s)) [
          | inl e ↦
              rw (process_schedule, a, b, d, e)
                (get-put_other w.schedules id j (advance_fire_time c t.now s) h)
          | inr e ↦
              rw (process_schedule, a, b, d, e)
                (fire_on-others c t
                    (if cancels s.conflict_policy
                      then cancel_previous_tasks S send t.now w id
                      else w)
                    id j s new (resolve_devices c s) h
                  ∙ freed-others send t.now w id j (cancels s.conflict_policy))
        ]
      ]
    ]
  ]

  process_row-others :
      (send : String → Delivery) (c : Catalogue) (t : Times) (new : NewIds) (id j : String)
      (k : Ticked S) (o : Option Schedule)
      → id ≢ j
      → get (process_row S send c t new id k o).world.schedules j ≡ get k.world.schedules j
  process_row-others send c t new id j k none h = refl
  process_row-others send c t new id j k (some s) h =
      process_schedule-others send c t k.world id j s new h

  -- A schedule that no run holds back, and that may run now.
  pub record IsReady (c : Catalogue) (now : ℕ) (s : Schedule) : Type 0 where
    pub policy : s.conflict_policy ≡ ConflictPolicy.queue
    pub left : out_of_runs s ≡ false
    pub from : too_early now s.active_from ≡ false
    pub until : too_late now s.active_until ≡ false
    pub devices : not (is_empty (resolve_devices c s)) ≡ true

  fire_on-fired :
      (c : Catalogue) (t : Times) (w : World S) (id : String) (s : Schedule) (new : NewIds)
      (ds : List String)
      → not (is_empty ds) ≡ true
      → get (fire_on S c t w id s new ds).world.schedules id ≡ some (fired c t.now s)
  fire_on-fired c t w id s new [] h = absurd (ground (arith, h))
  fire_on-fired c t w id s new (x ∷ xs) h =
      get-put_same (launch S c t.now w s new (x ∷ xs)).world.schedules id (fired c t.now s)

  process_schedule-ready :
      (send : String → Delivery) (c : Catalogue) (t : Times) (w : World S) (id : String)
      (s : Schedule) (new : NewIds)
      → IsReady c t.now s
      → get (process_schedule S send c t w id s new).world.schedules id ≡ some (fired c t.now s)
  unfolding process_schedule
  process_schedule-ready send c t w id s new h =
      rw (process_schedule, h.left, h.from, h.until, ap skips h.policy)
        (fire_on-fired c t
          (if cancels s.conflict_policy then cancel_previous_tasks S send t.now w id else w) id s
          new (resolve_devices c s) h.devices)

  process_all-others :
      (send : String → Delivery) (c : Catalogue) (times : String → Times) (new : String → NewIds)
      (ids : List String) (k : Ticked S) (j : String)
      → has ids j ≡ false
      → get (process_all S send c times new ids k).world.schedules j ≡ get k.world.schedules j
  unfolding process_all
  process_all-others send c times new [] k j h = refl
  process_all-others send c times new (id ∷ ids) k j h =
      process_all-others send c times new ids _ j (ground (arith, h))
      ∙ process_row-others send c (times id) (new id) id j k (get k.world.schedules id)
          (λ e. ground (arith, e, h, eq_iff id j))

  process_all-fires :
      (send : String → Delivery) (c : Catalogue) (times : String → Times) (new : String → NewIds)
      (ids : List String) (k : Ticked S) (j : String) (s : Schedule)
      → IsOnce ids
      → has ids j ≡ true
      → get k.world.schedules j ≡ some s
      → IsReady c (times j).now s
      → get (process_all S send c times new ids k).world.schedules j
        ≡ some (fired c (times j).now s)
  unfolding process_all
  process_all-fires send c times new [] k j s o h at r = absurd (ground (arith, h))
  process_all-fires send c times new (id ∷ ids) k j s o h at r = elim (Bool-cases (id == j)) [
    | inr e ↦
        process_all-fires send c times new ids _ j s o.1 (ground (arith, h, e))
          (process_row-others send c (times id) (new id) id j k (get k.world.schedules id)
              (λ q. ground (arith, q, e, eq_iff id j))
            ∙ at)
          r
    | inl e ↦
        let same : id ≡ j = eq_true id j e in
        process_all-others send c times new ids _ j (ground (arith, o.0, same))
        ∙ rw (same, at) (process_schedule-ready send c (times j) k.world j s (new j) r)
  ]

  enqueue_all-schedules :
      (now : ℕ) (ps : List Pending) (w : World S) → (enqueue_all S now ps w).schedules ≡ w.schedules
  unfolding enqueue_all
  enqueue_all-schedules now [] w = refl
  enqueue_all-schedules now (p ∷ ps) w = enqueue_all-schedules now ps _

  -- A schedule that is among the fifty that are due first, queues its runs, has runs left, stands in
  -- its window and has a device has fired at the end of the tick, whatever the other schedules do.
  pub tick-fires :
      (b : Beat S) (w : World S) (id : String) (s : Schedule)
      → IsDict w.schedules
      → get w.schedules id ≡ some s
      → has (take 50 (names (due_schedules S b.began w.schedules))) id ≡ true
      → IsReady b.catalogue (b.clock id) s
      → get (tick S b.send b.catalogue b.began b.clock b.new w).schedules id
        ≡ some (fired b.catalogue (b.clock id) s)
  unfolding tick
  tick-fires b w id s d at due r =
      let times : String → Times = λ i. record { fire_time = b.began; now = b.clock i } in
      let ids : List String = take 50 (names (due_schedules S b.began w.schedules)) in
      let start : Ticked S = record { world = w; pending = [] } in
      let k : Ticked S = process_all S b.send b.catalogue times b.new ids start in
      ap (λ (u : Dict Schedule). get u id) (enqueue_all-schedules b.began k.pending k.world)
      ∙ process_all-fires b.send b.catalogue times b.new ids start id s
          (take-IsOnce 50 (names (due_schedules S b.began w.schedules))
            (due-IsOnce b.began w.schedules d))
          due at r
