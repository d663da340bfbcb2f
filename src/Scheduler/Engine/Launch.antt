-- ===== src/Scheduler/Engine/Launch.antt =====
-- backend/services/scheduler/scheduler_engine.py: `_create_script_tasks` and `_create_pipeline_runs`.
use sphere_platform.Base.{
  ℕ, ◌/◌, String, Option, none, some, List, [], ◌∷◌, ltb, has, length, if◌then◌else◌,
}
use sphere_platform.Base.Dict.{Dict, get, put}
use sphere_platform.Redis.{SortedSet}
use sphere_platform.Pipeline.Run.{RunStatus}
use sphere_platform.Tasks.Task.{Task, queued}
use sphere_platform.Tasks.Batch.{TaskBatch, BatchStatus}
use sphere_platform.Scheduler.Schedule.{Schedule, TargetType, PipelineRow, Catalogue, World}

-- The ids of the rows that one firing creates: a batch, and a row for each device.
pub record NewIds : Type 0 where
  pub batch : String
  pub row : String → String

-- (task_id, device_id, org_id, priority)
pub record Pending : Type 0 where
  pub task_id : String
  pub device_id : String
  pub org_id : String
  pub priority : ℕ

abbrev pub dag_timeout : Option (Option ℕ) → ℕ
dag_timeout none = 300
dag_timeout (some none) = 300
dag_timeout (some (some ms)) = if ltb 0 ms then ms / 1000 else 300

abbrev pub scheduled_task : ℕ → Schedule → NewIds → String → String → ℕ → String → Task
scheduled_task now s new script version seconds device = record {
  org_id = s.org_id;
  device_id = device;
  script_id = script;
  batch_id = some new.batch;
  script_version_id = some version;
  status = queued;
  priority = 5;
  created_at = now;
  updated_at = some now;
  started_at = none;
  finished_at = none;
  timeout_seconds = seconds;
  webhook_url = s.webhook_url;
  account_id = s.account_id;
  result = none;
  error_message = none;
  wave_index = none;
}

unfoldable pub add_tasks : (String → Task) → NewIds → List String → Dict Task → Dict Task
add_tasks task new [] d = d
add_tasks task new (x ∷ xs) d = add_tasks task new xs (put d (new.row x) (task x))

unfoldable pub pending_of : Schedule → NewIds → List String → List Pending
pending_of s new [] = []
pending_of s new (x ∷ xs) =
    (record { task_id = new.row x; device_id = x; org_id = s.org_id; priority = 5 })
    ∷ pending_of s new xs

abbrev pub scheduled_run : ℕ → Schedule → NewIds → String → String → PipelineRow
scheduled_run now s new pipeline device = record {
  org_id = s.org_id;
  pipeline_id = pipeline;
  device_id = device;
  status = RunStatus.queued;
  batch_id = new.batch;
  created_at = now;
  finished_at = none;
}

unfoldable pub add_runs :
    (String → PipelineRow) → NewIds → List String → Dict PipelineRow → Dict PipelineRow
add_runs run new [] d = d
add_runs run new (x ∷ xs) d = add_runs run new xs (put d (new.row x) (run x))

module _ (S : SortedSet) where
  -- What one firing has created.
  pub record Launched : Type 0 where
    pub world : World S
    pub tasks_created : ℕ
    pub batch_id : Option String
    pub pipeline_batch_id : Option String
    pub pending : List Pending

  abbrev pub nothing : World S → Launched
  nothing w = record {
    world = w;
    tasks_created = 0;
    batch_id = none;
    pipeline_batch_id = none;
    pending = [];
  }

  abbrev pub new_batch : List String → TaskBatch
  new_batch devices = record {
    status = BatchStatus.running;
    total = length devices;
    succeeded = 0;
    failed = 0;
  }

  abbrev pub launch_version :
      Catalogue → ℕ → World S → Schedule → NewIds → List String → String → String → Launched
  launch_version c now w s new devices script version = record {
    world = record w {
      tasks =
          add_tasks (scheduled_task now s new script version (dag_timeout (get c.versions version)))
            new devices w.tasks;
      batches = put w.batches new.batch (new_batch devices);
    };
    tasks_created = length devices;
    batch_id = some new.batch;
    pipeline_batch_id = none;
    pending = pending_of s new devices;
  }

  abbrev pub launch_found :
      Catalogue
      → ℕ
      → World S
      → Schedule
      → NewIds
      → List String
      → String
      → Option (Option String)
      → Launched
  launch_found c now w s new devices id none = nothing w
  launch_found c now w s new devices id (some none) = nothing w
  launch_found c now w s new devices id (some (some version)) =
      launch_version c now w s new devices id version

  unfoldable pub create_script_tasks :
      Catalogue → ℕ → World S → Schedule → NewIds → List String → String → Launched
  unfolding add_tasks pending_of
  create_script_tasks c now w s new devices id =
      launch_found c now w s new devices id (get c.scripts id)

  unfoldable pub create_pipeline_runs :
      Catalogue → ℕ → World S → Schedule → NewIds → List String → String → Launched
  unfolding add_runs
  create_pipeline_runs c now w s new devices id =
      if has c.pipelines id
      then record {
        world = record w { runs = add_runs (scheduled_run now s new id) new devices w.runs };
        tasks_created = length devices;
        batch_id = none;
        pipeline_batch_id = some new.batch;
        pending = [];
      }
      else nothing w

  abbrev pub launch_target :
      Catalogue
      → ℕ
      → World S
      → Schedule
      → NewIds
      → List String
      → TargetType
      → Option String
      → Option String
      → Launched
  launch_target c now w s new devices TargetType.script (some id) p =
      create_script_tasks c now w s new devices id
  launch_target c now w s new devices TargetType.script none p = nothing w
  launch_target c now w s new devices TargetType.pipeline i (some id) =
      create_pipeline_runs c now w s new devices id
  launch_target c now w s new devices TargetType.pipeline i none = nothing w

  unfoldable pub launch : Catalogue → ℕ → World S → Schedule → NewIds → List String → Launched
  unfolding create_script_tasks create_pipeline_runs
  launch c now w s new devices =
      launch_target c now w s new devices s.target_type s.script_id s.pipeline_id
