-- ===== src/Scheduler/Engine/Counts.antt =====
-- backend/services/scheduler/scheduler_engine.py: `total_runs`, `max_runs` and the rows of executions.
use sphere_platform.Base.{
  ℕ, suc, ◌≤◌, String, true, false, ◌&&◌, Option, none, some, List, [], ◌∷◌, ◌==◌, if◌then◌else◌,
  arith, ◌≡◌, refl, sym, ◌∙◌, eq_iff, inl, inr, subst,
}
use sphere_platform.Base.Dict.{Dict, get, put}
use sphere_platform.Base.Dict.Rows.{row-put}
use sphere_platform.Redis.{SortedSet}
use sphere_platform.Tasks.Service.{Delivery}
use sphere_platform.Scheduler.Schedule.{Schedule, TargetType, Execution, Catalogue, World}
use sphere_platform.Scheduler.Service.{advance_fire_time, set_number}
use sphere_platform.Scheduler.Engine.Conflict.{
  is_triggered, cancel_previous_tasks, cancel_after, cancel_batch, cancel_pipelines, last_execution,
}
use sphere_platform.Scheduler.Engine.Launch.{
  NewIds, launch, launch_target, create_script_tasks, create_pipeline_runs, launch_found,
}
use sphere_platform.Scheduler.Engine.{out_of_runs, fired, reached_runs, after_fire}

-- How often a schedule was triggered.
unfoldable pub triggered_count : String → List Execution → ℕ
triggered_count id [] = 0
triggered_count id (e ∷ es) =
    let rest = triggered_count id es in
    if (e.schedule_id == id) && is_triggered e.status then suc rest else rest

abbrev pub Within : Option ℕ → ℕ → Type 0
Within none n = Unit
Within (some m) n = n ≤ m

-- Every run is an execution that was triggered, and there are at most `max_runs` of them.
pub record IsCounted (id : String) (es : List Execution) (s : Schedule) : Type 0 where
  pub runs : triggered_count id es ≡ s.total_runs
  pub limit : Within (set_number s.max_runs) s.total_runs

abbrev pub AllCounted : Dict Schedule → List Execution → Type 0
AllCounted d es = (id : String) (s : Schedule) → get d id ≡ some s → IsCounted id es s

other_count :
    (id j : String) (es : List Execution) (e : Execution)
    → (e.schedule_id == j) ≡ false
    → triggered_count j (e ∷ es) ≡ triggered_count j es
unfolding triggered_count
other_count id j es e h = ground (arith, h)

-- A row and an execution are written.
pub put-AllCounted :
    (d : Dict Schedule) (es : List Execution) (id : String) (s : Schedule) (e : Execution)
    → AllCounted d es
    → e.schedule_id ≡ id
    → IsCounted id (e ∷ es) s
    → AllCounted (put d id s) (e ∷ es)
put-AllCounted d es id s e h own k j u at = elim (row-put d id j s u at) [
  | inl (same, is) ↦ subst (λ i. IsCounted i (e ∷ es) u) same (subst (IsCounted id (e ∷ es)) is k)
  | inr (other, old) ↦
      let c = h j u old in
      record {
        runs = other_count id j es e (ground (arith, own, other, eq_iff e.schedule_id j)) ∙ c.runs;
        limit = c.limit;
      }
]

-- Only a row is written.
pub row-AllCounted :
    (d : Dict Schedule) (es : List Execution) (id : String) (s : Schedule)
    → AllCounted d es
    → IsCounted id es s
    → AllCounted (put d id s) es
row-AllCounted d es id s h k j u at = elim (row-put d id j s u at) [
  | inl (same, is) ↦ subst (λ i. IsCounted i es u) same (subst (IsCounted id es) is k)
  | inr (other, old) ↦ h j u old
]

-- What firing does to the counts.
pub record Fires (s s' : Schedule) : Type 0 where
  pub total : s'.total_runs ≡ suc s.total_runs
  pub max : s'.max_runs ≡ s.max_runs

pub fired-Fires : (c : Catalogue) (now : ℕ) (s : Schedule) → Fires s (fired c now s)
unfolding advance_fire_time
fired-Fires c now s = turn s.one_shot_at
  where
    turn :
        (o : Option ℕ)
        → Fires s (
            after_fire c now o
              (record s { total_runs = suc s.total_runs; last_fired_at = some now }))
    turn none = record { total = refl; max = refl }
    turn (some t) = record { total = refl; max = refl }

runs_left : (o : Option ℕ) (n : ℕ) → reached_runs o n ≡ false → Within o (suc n)
runs_left none n h = tt
runs_left (some m) n h = ground (arith, h)

-- A schedule that is triggered while it has runs left.
pub triggered-IsCounted :
    (es : List Execution) (id : String) (s s' : Schedule) (e : Execution)
    → IsCounted id es s
    → Fires s s'
    → out_of_runs s ≡ false
    → e.schedule_id ≡ id
    → is_triggered e.status ≡ true
    → IsCounted id (e ∷ es) s'
unfolding triggered_count
triggered-IsCounted es id s s' e k f left own is = record {
  runs = ground (arith, k.runs, own, is, eq_iff e.schedule_id id, f.total);
  limit =
      subst (λ n. Within (set_number s'.max_runs) n) (sym f.total)
        (subst (λ o. Within (set_number o) (suc s.total_runs)) (sym f.max)
          (runs_left (set_number s.max_runs) s.total_runs left));
}

-- A schedule that is skipped.
pub skipped-IsCounted :
    (c : Catalogue) (now : ℕ) (es : List Execution) (id : String) (s : Schedule) (e : Execution)
    → IsCounted id es s
    → is_triggered e.status ≡ false
    → IsCounted id (e ∷ es) (advance_fire_time c now s)
unfolding triggered_count advance_fire_time
skipped-IsCounted c now es id s e k off = record {
  runs = ground (arith, k.runs, off);
  limit = k.limit;
}

module _ (S : SortedSet) where
  pub cancel_previous_tasks-keeps :
      (send : String → Delivery) (now : ℕ) (w : World S) (id : String)
      → ((cancel_previous_tasks S send now w id).schedules ≡ w.schedules)
        × ((cancel_previous_tasks S send now w id).executions ≡ w.executions)
  unfolding cancel_previous_tasks
  cancel_previous_tasks-keeps send now w id = turn (last_execution id w.executions)
    where
      pipelines :
          (v : World S) (p : Option String)
          → ((cancel_pipelines S now v p).schedules ≡ v.schedules)
            × ((cancel_pipelines S now v p).executions ≡ v.executions)
      pipelines v none = (refl, refl)
      pipelines v (some p) = (refl, refl)

      batch :
          (b p : Option String)
          → ((cancel_pipelines S now (cancel_batch S send now w b) p).schedules ≡ w.schedules)
            × ((cancel_pipelines S now (cancel_batch S send now w b) p).executions ≡ w.executions)
      batch none p = pipelines w p
      batch (some b) p = pipelines (cancel_batch S send now w (some b)) p

      turn :
          (o : Option Execution)
          → ((cancel_after S send now w o).schedules ≡ w.schedules)
            × ((cancel_after S send now w o).executions ≡ w.executions)
      turn none = (refl, refl)
      turn (some e) = batch e.batch_id e.pipeline_batch_id

  pub launch-keeps :
      (c : Catalogue) (now : ℕ) (w : World S) (s : Schedule) (new : NewIds) (ds : List String)
      → ((launch S c now w s new ds).world.schedules ≡ w.schedules)
        × ((launch S c now w s new ds).world.executions ≡ w.executions)
  unfolding launch create_script_tasks create_pipeline_runs
  launch-keeps c now w s new ds = turn s.target_type s.script_id s.pipeline_id
    where
      found :
          (id : String) (o : Option (Option String))
          → ((launch_found S c now w s new ds id o).world.schedules ≡ w.schedules)
            × ((launch_found S c now w s new ds id o).world.executions ≡ w.executions)
      found id none = (refl, refl)
      found id (some none) = (refl, refl)
      found id (some (some v)) = (refl, refl)

      turn :
          (t : TargetType) (i p : Option String)
          → ((launch_target S c now w s new ds t i p).world.schedules ≡ w.schedules)
            × ((launch_target S c now w s new ds t i p).world.executions ≡ w.executions)
      turn TargetType.script (some i) p = found i (get c.scripts i)
      turn TargetType.script none p = (refl, refl)
      turn TargetType.pipeline i (some p) = ground arith
      turn TargetType.pipeline i none = (refl, refl)
