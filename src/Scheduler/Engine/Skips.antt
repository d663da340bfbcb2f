-- ===== src/Scheduler/Engine/Skips.antt =====
-- backend/services/scheduler/scheduler_engine.py: `_process_schedule` on a schedule whose last run goes
-- on, time after time.
use sphere_platform.Base.{
  ℕ, ◌+◌, ◌≤◌, String, true, false, Option, none, some, List, [], ◌∷◌, All, arith, ◌≡◌, refl, ◌∙◌,
  sym, eq_refl, ap,
}
use sphere_platform.Base.Dict.{get, put, get-put_same}
use sphere_platform.Redis.{SortedSet}
use sphere_platform.Tasks.Service.{Delivery}
use sphere_platform.Scheduler.Schedule.{Schedule, Execution, still_running, Catalogue, World}
use sphere_platform.Scheduler.Service.{
  advance_fire_time, set_number, compute_next_fire, set_text, next_cron, next_interval, or_now,
}
use sphere_platform.Scheduler.Engine.Conflict.{last_execution, has_running_tasks, has_running_after}
use sphere_platform.Scheduler.Engine.Launch.{NewIds}
use sphere_platform.Scheduler.Engine.{
  out_of_runs, too_early, too_late, skips, is_blocked, Times, skipped_run, skip_run, Ticked,
  process_schedule, is_due,
}

-- The next time of a schedule with an interval.
compute_next_fire-interval :
    (c : Catalogue) (now : ℕ) (s : Schedule) (n last : ℕ)
    → set_text s.cron_expression ≡ none
    → set_number s.interval_seconds ≡ some n
    → s.last_fired_at ≡ some last
    → compute_next_fire c now s ≡ some (last + n)
unfolding compute_next_fire
compute_next_fire-interval c now s n last cron every at =
    ap (next_cron c now s) cron
    ∙ ap (next_interval now s) every
    ∙ ap (λ (o : Option ℕ). some (or_now o now + n)) at

-- A run that was skipped is not the last one.
last_execution-skipped :
    (t : Times) (id : String) (s : Schedule) (es : List Execution)
    → last_execution id (skipped_run t id s still_running ∷ es) ≡ last_execution id es
unfolding last_execution
last_execution-skipped t id s es = rw (eq_refl id) refl

-- A schedule that has fired, whose interval has passed, and that waits for its last run.
pub record IsWaiting (s : Schedule) (n last : ℕ) : Type 0 where
  pub active : s.is_active ≡ true
  pub left : out_of_runs s ≡ false
  pub policy : skips s.conflict_policy ≡ true
  pub cron : set_text s.cron_expression ≡ none
  pub every : set_number s.interval_seconds ≡ some n
  pub fired : s.last_fired_at ≡ some last
  pub next : s.next_fire_at ≡ some (last + n)

module _ (S : SortedSet) where
  -- A time in the window of the schedule, after its interval, at which the last run goes on.
  abbrev pub IsHeld : World S → String → Schedule → ℕ → Times → Type 0
  IsHeld w id s due t =
      (due ≤ t.now)
      × (too_early t.now s.active_from ≡ false)
      × (too_late t.now s.active_until ≡ false)
      × (has_running_tasks t.now w.tasks w.runs w.executions id ≡ true)

  module _ (send : String → Delivery) (c : Catalogue) (id : String) (new : NewIds) where
    abbrev pub process_row : Times → World S → Option Schedule → World S
    process_row t w none = w
    process_row t w (some s) = (process_schedule S send c t w id s new).world

    -- The row of the schedule is read and processed at each time.
    pub process_at : List Times → World S → World S
    process_at [] w = w
    process_at (t ∷ ts) w = process_at ts (process_row t w (get w.schedules id))

    -- One skip for each time, the latest first.
    pub with_skips : Schedule → List Times → List Execution → List Execution
    with_skips s [] es = es
    with_skips s (t ∷ ts) es = with_skips s ts (skipped_run t id s still_running ∷ es)

    advance_same :
        (now : ℕ) (s : Schedule) (n last : ℕ) → IsWaiting s n last → advance_fire_time c now s ≡ s
    unfolding advance_fire_time
    advance_same now s n last waits =
        ap (λ (o : Option ℕ). record s { next_fire_at = o })
          (compute_next_fire-interval c now s n last waits.cron waits.every waits.fired
            ∙ sym waits.next)

    -- A skip leaves the last run as it was.
    still-IsHeld :
        (t : Times) (w : World S) (s : Schedule) (due : ℕ) (ts : List Times)
        → All (IsHeld w id s due) ts
        → All
            (IsHeld
              (record w {
                executions = skipped_run t id s still_running ∷ w.executions;
                schedules = put w.schedules id s;
              })
              id
              s
              due)
            ts
    unfolding has_running_tasks
    still-IsHeld t w s due [] held = tt
    still-IsHeld t w s due (u ∷ us) ((after, early, late, runs), held) = (
      (
        after,
        early,
        late,
        ap (has_running_after u.now w.tasks w.runs) (last_execution-skipped t id s w.executions)
            ∙ runs,
      ),
      still-IsHeld t w s due us held,
    )

    skipped_once :
        (t : Times) (w : World S) (s : Schedule) (n last : ℕ)
        → IsWaiting s n last
        → IsHeld w id s (last + n) t
        → process_schedule S send c t w id s new ≡ record {
          world = record w {
            executions = skipped_run t id s still_running ∷ w.executions;
            schedules = put w.schedules id s;
          };
          pending = [];
        }
    unfolding process_schedule
    skipped_once t w s n last waits (due, early, late, runs) =
        let blocked : is_blocked S t.now w id s ≡ true = rw (waits.policy, runs) refl in
        let skip : process_schedule S send c t w id s new ≡ skip_run S c t w id s still_running =
          rw (process_schedule, waits.left, early, late, blocked) refl in
        skip
        ∙ ap
            (λ (x : Schedule). record {
              world = record w {
                executions = skipped_run t id s still_running ∷ w.executions;
                schedules = put w.schedules id x;
              };
              pending = [];
            })
            (advance_same t.now s n last waits)

    -- Let a schedule with an interval skip while its last run goes on, and let it be processed at any
    -- times, with nothing else in between, each of them after its interval, in its window and while
    -- that run goes on. It is due at each of the times, however often it was skipped before; one
    -- skipped run is recorded for each, and its row and the tasks stay.
    pub process_schedule-skips_again :
        (ts : List Times) (w : World S) (s : Schedule) (n last : ℕ)
        → get w.schedules id ≡ some s
        → IsWaiting s n last
        → All (IsHeld w id s (last + n)) ts
        → let after = process_at ts w in
          All (λ (t : Times). is_due S t.now s ≡ true) ts
          × (get after.schedules id ≡ some s)
          × (after.executions ≡ with_skips s ts w.executions)
          × (after.tasks ≡ w.tasks)
    unfolding process_at with_skips
    process_schedule-skips_again [] w s n last at waits held = (tt, at, refl, refl)
    process_schedule-skips_again (t ∷ ts) w s n last at waits (now, later) =
        let w1 : World S = record w {
          executions = skipped_run t id s still_running ∷ w.executions;
          schedules = put w.schedules id s;
        } in
        let step : process_row t w (get w.schedules id) ≡ w1 =
          ap (process_row t w) at
          ∙ ap (λ (r : Ticked S). r.world) (skipped_once t w s n last waits now) in
        let (due, row, executions, tasks) =
          process_schedule-skips_again ts w1 s n last (get-put_same w.schedules id s) waits
            (still-IsHeld t w s (last + n) ts later) in
        let same = ap (process_at ts) step in
        (
          (rw (waits.active, waits.next) (ground (arith, now.0)), due),
          ap (λ (x : World S). get x.schedules id) same ∙ row,
          ap (λ (x : World S). x.executions) same ∙ executions,
          ap (λ (x : World S). x.tasks) same ∙ tasks,
        )
