-- ===== src/Scheduler/Engine/Counted.antt =====
-- backend/services/scheduler/scheduler_engine.py: the row of a schedule that has fired.
use sphere_platform.Base.{ℕ, String, false, Option, none, some, arith, ◌≡◌, refl, suc, ◌+◌}
use sphere_platform.Scheduler.Schedule.{Schedule, Catalogue}
use sphere_platform.Scheduler.Service.{advance_fire_time, set_number, compute_next_fire, set_text}
use sphere_platform.Scheduler.Engine.{fired, after_fire}

-- What a firing makes of the row: it is counted, and has its next time, where it has an interval
-- and no cron expression, or is done, where it is a one-shot schedule.
pub record Counted (c : Catalogue) (now : ℕ) (s s' : Schedule) : Type 0 where
  pub runs : s'.total_runs ≡ suc s.total_runs
  pub last : s'.last_fired_at ≡ some now
  pub next :
      (n : ℕ)
      → s.one_shot_at ≡ none
      → set_text s.cron_expression ≡ none
      → set_number s.interval_seconds ≡ some n
      → s'.next_fire_at ≡ some (now + n)
  pub by_cron :
      (e : String)
      → s.one_shot_at ≡ none
      → set_text s.cron_expression ≡ some e
      → s'.next_fire_at ≡ some (c.cron e s.timezone now)
  pub done : (at : ℕ) → s.one_shot_at ≡ some at → s'.is_active ≡ false

pub fired-Counted : (c : Catalogue) (now : ℕ) (s : Schedule) → Counted c now s (fired c now s)
unfolding advance_fire_time compute_next_fire
fired-Counted c now s = turn s.one_shot_at refl
  where
    turn :
        (o : Option ℕ)
        → s.one_shot_at ≡ o
        → Counted c now s (
            after_fire c now o
              (record s { total_runs = suc s.total_runs; last_fired_at = some now }))
    turn none e = record {
      runs = refl;
      last = refl;
      next = λ n once cron every. rw (cron, every) refl;
      by_cron = λ x once cron. rw (cron) refl;
      done = λ at once. ground (arith, e, once);
    }
    turn (some x) e = record {
      runs = refl;
      last = refl;
      next = λ n once cron every. ground (arith, e, once);
      by_cron = λ y once cron. ground (arith, e, once);
      done = λ at once. refl;
    }
