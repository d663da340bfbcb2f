-- ===== src/Tasks/Tests.antt =====
-- task_queue.py and task_service.py: small queues and stores, and the theorems at them.
use sphere_platform.Base.{
  String, Bool, true, false, Option, none, some, [], ◌∷◌, ◌≡◌, refl, arith, ◌≢◌, eq_iff, List,
}
use sphere_platform.Base.Dict.{get}
use sphere_platform.Redis.Memory.{memory}
use sphere_platform.Tasks.Queue.{
  TaskQueue, enqueue, dequeue_for_device, pop_and_lock, is_device_busy, mark_completed, cancel_task,
}
use sphere_platform.Tasks.Task.{Task, TaskStatus, running, timeout, queued, Device, TaskResult}
use sphere_platform.Tasks.Service.{Store, Catalogue, handle_task_result}
use sphere_platform.Tasks.Queue.Order.{Takes, dequeue_for_device-Takes}
use sphere_platform.Tasks.Queue.Refines.{
  Op, Follows, board, history, run, run-Follows, add, take_next, complete, withdraw, done, taken,
  withdrawn,
}
use sphere_platform.Tasks.Queue.Locks.{overlapping_dequeues}
use sphere_platform.Tasks.Batch.Laws.{Tally, report, fresh, report-Tally}
use sphere_platform.Tasks.Dispatch.{Request, create_task}
use sphere_platform.Tasks.Dispatch.Outcome.{Handed}
use sphere_platform.Tasks.Dispatch.Unique.{Unique}
use sphere_platform.Tasks.Dispatch.Create.{Creates, create_task-Creates}
use sphere_platform.Tasks.Service.Results.{handle_task_result_lock}

abbrev no_tasks : TaskQueue memory
no_tasks = record { queues = []; running = []; meta = [] }

abbrev two_tasks : TaskQueue memory
two_tasks = enqueue memory 20 (enqueue memory 10 no_tasks "slow" "d" "o" 9) "fast" "d" "o" 1

fast_first : (pop_and_lock memory two_tasks "d" "o").0 ≡ some "fast"
unfolding pop_and_lock enqueue memory
fast_first = refl

abbrev task_row : TaskStatus → Option String → Task
task_row status version = record {
  org_id = "o";
  device_id = "d";
  script_id = "s";
  batch_id = none;
  script_version_id = version;
  status = status;
  priority = 1;
  created_at = 10;
  updated_at = none;
  started_at = none;
  finished_at = none;
  timeout_seconds = 300;
  webhook_url = none;
  account_id = none;
  result = none;
  error_message = none;
  wave_index = none;
}

abbrev device : Device
device = record { org_id = "o"; is_active = true }

abbrev catalogue : Catalogue
catalogue = record {
  scripts = ("s", record { org_id = "o"; is_archived = false; current_version_id = some "v" }) ∷ [];
  devices = ("d", device) ∷ [];
  versions = "v" ∷ [];
  status_cache = some (λ d. some "online");
}

abbrev store : TaskStatus → Option String → Store memory
store status version = record {
  queue = two_tasks;
  tasks = ("fast", task_row status version) ∷ [];
  batches = [];
}

abbrev request : Request
request = record {
  id = "new";
  script_id = "s";
  device_id = "d";
  org_id = "o";
  priority = 5;
  webhook_url = none;
  account_id = none;
  batch_id = none;
  wave_index = none;
}

abbrev after_fast : TaskQueue memory
after_fast = (pop_and_lock memory two_tasks "d" "o").1

abbrev after_both : TaskQueue memory
after_both = (pop_and_lock memory after_fast "d" "o").1

handed :
    (status : TaskStatus) (version : Option String)
    → Handed memory catalogue
        (store status version)
        "d"
        device
        "fast"
        (task_row status version)
        after_fast
unfolding dequeue_for_device pop_and_lock enqueue memory get
handed status version = record {
  known = refl;
  active = refl;
  handed = refl;
  row = refl;
  own = refl;
}

dequeue_for_device-Takes_example :
    Takes memory two_tasks "d" "o" (dequeue_for_device memory two_tasks "d" "o")
dequeue_for_device-Takes_example = dequeue_for_device-Takes memory two_tasks "d" "o"

overlapping_dequeues_example :
    (◌≢◌ {A = String} "fast" "slow")
    × (get after_both.running "d" ≡ some "slow")
    × (dequeue_for_device memory after_fast "d" "o" ≡ (none, after_fast))
unfolding dequeue_for_device pop_and_lock enqueue memory is_device_busy
overlapping_dequeues_example =
    overlapping_dequeues memory two_tasks "d" "o" "fast" "slow" after_fast after_both refl refl refl

report-Tally_example : Tally 2 (true ∷ false ∷ []) (report (fresh 2) (true ∷ false ∷ []))
report-Tally_example = report-Tally 2 true (false ∷ [])

one_task : (status : TaskStatus) (version : Option String) → Unique (store status version).tasks
unfolding get
one_task status version dev org v i j t u ei ej pt pu =
    ground (arith, ei, ej, eq_iff "fast" i, eq_iff "fast" j)

create_task-Creates_example :
    Creates memory 90000 request
      (create_task memory 90000 catalogue (store queued (some "v")) request)
unfolding get
create_task-Creates_example =
    create_task-Creates memory 90000 catalogue (store queued (some "v")) request (refl, tt)
      (one_task queued (some "v"))

abbrev ended : Bool → TaskResult
ended success = record { success = success; error = none }

abbrev late : Store memory
late = handle_task_result memory 60 (store timeout (some "v")) "fast" "d" (ended true)

abbrev locked_by : String → Store memory
locked_by holder = record (store running (some "v")) {
  queue = record two_tasks { running = ("d", holder) ∷ [] };
}

handle_task_result_lock_example :
    get (handle_task_result memory 60 (locked_by "slow") "fast" "d" (ended true)).queue.running "d"
    ≡ some "slow"
unfolding get
handle_task_result_lock_example =
    handle_task_result_lock memory 60 (locked_by "slow") "fast" "d" "d" (ended true)
      (task_row running (some "v")) refl

slow_fast : ◌≢◌ {A = String} "slow" "fast"
slow_fast e = ground (arith, e, eq_iff "slow" "fast")

abbrev day : List Op
day =
    add 10 "slow" "d" "o" 9
    ∷ add 20 "fast" "d" "o" 1
    ∷ take_next "d" "o"
    ∷ take_next "d" "o"
    ∷ withdraw "slow" "o" "d"
    ∷ complete "fast" "d"
    ∷ take_next "d" "o"
    ∷ []

day_answers :
    history memory no_tasks day
    ≡ (add 10 "slow" "d" "o" 9, done)
      ∷ (add 20 "fast" "d" "o" 1, done)
      ∷ (take_next "d" "o", taken (some "fast"))
      ∷ (take_next "d" "o", taken none)
      ∷ (withdraw "slow" "o" "d", withdrawn true)
      ∷ (complete "fast" "d", done)
      ∷ (take_next "d" "o", taken none)
      ∷ []
unfolding history enqueue dequeue_for_device is_device_busy pop_and_lock mark_completed cancel_task
    memory
day_answers = refl

run-Follows_example :
    Follows
      (board memory no_tasks)
      (history memory no_tasks day)
      (board memory (run memory no_tasks day))
run-Follows_example = run-Follows memory no_tasks day (tt, (tt, (tt, (tt, (refl, (tt, (tt, tt)))))))
