-- ===== src/Tasks/Dispatch.antt =====
-- backend/services/task_service.py: `create_task` and `dispatch_pending_tasks`. The script's and the
-- account's part of the command is left out.
pub mod Unique
pub mod Create
pub mod Outcome
use sphere_platform.Base.{
  ℕ, ◌+◌, ◌-◌, String, Bool, true, false, not, ◌&&◌, Option, none, some, List, [], ◌∷◌, ◌==◌, ltb,
  has, if◌then◌else◌, truthy,
}
use sphere_platform.Base.Dict.{Dict, get, put}
use sphere_platform.Redis.{SortedSet}
use sphere_platform.Tasks.Task.{
  Task, TaskStatus, queued, running, failed, timeout, Script, Device, is_active_status,
  ErrorMessage, version_not_found, stale_offline, stale_day,
}
use sphere_platform.Tasks.Queue.{TaskQueue, enqueue, dequeue_for_device, mark_completed}
use sphere_platform.Tasks.Service.{
  Reply, ok, http_error, Catalogue, Delivery, delivered, offline, broken, Store, save, finish_task,
  set_status,
}
use sphere_platform.Base.Dict.Find.{find_row}

-- What the caller of `create_task` gives, and the id of the new row.
pub record Request : Type 0 where
  pub id : String
  pub script_id : String
  pub device_id : String
  pub org_id : String
  pub priority : ℕ
  pub webhook_url : Option String
  pub account_id : Option String
  pub batch_id : Option String
  pub wave_index : Option ℕ

-- `_get_script`
unfoldable pub get_script : Catalogue → String → String → Option Script
get_script c id org = elim (get c.scripts id) [
  | none ↦ none
  | some s ↦ if (s.org_id == org) && not s.is_archived then some s else none
]

-- `_get_device`
unfoldable pub get_device : Catalogue → String → String → Option Device
get_device c id org = elim (get c.devices id) [
  | none ↦ none
  | some d ↦ if (d.org_id == org) && d.is_active then some d else none
]

abbrev pub has_version : Option String → String → Bool
has_version none v = false
has_version (some w) v = w == v

-- The filter of the query for duplicates.
unfoldable pub is_duplicate : String → String → String → Task → Bool
is_duplicate device org version t =
    (t.device_id == device)
    && (t.org_id == org)
    && has_version t.script_version_id version
    && is_active_status t.status

abbrev pub is_live : Option String → Bool
is_live none = false
is_live (some s) = if s == "online" then true else s == "busy"

abbrev pub age_reason : ℕ → Task → Option ErrorMessage
age_reason now t =
    let since : ℕ = elim t.updated_at [ none ↦ t.created_at | some u ↦ u ] in
    if ltb (since + 86400) now then some stale_day else none

-- Why a duplicate counts as stuck, if it does.
unfoldable pub stale_reason : ℕ → Catalogue → String → Task → Option ErrorMessage
stale_reason now c device t = elim c.status_cache [
  | none ↦ age_reason now t
  | some status ↦ if is_live (status device) then age_reason now t else some stale_offline
]

abbrev pub new_task : ℕ → Request → String → Task
new_task now r version = record {
  org_id = r.org_id;
  device_id = r.device_id;
  script_id = r.script_id;
  batch_id = r.batch_id;
  script_version_id = some version;
  status = queued;
  priority = r.priority;
  created_at = now;
  updated_at = some now;
  started_at = none;
  finished_at = none;
  timeout_seconds = 300;
  webhook_url = truthy r.webhook_url;
  account_id = r.account_id;
  result = none;
  error_message = none;
  wave_index = r.wave_index;
}

abbrev pub time_out : ErrorMessage → ℕ → Task → Task
time_out reason now t = record (finish_task timeout now t) { error_message = some reason }

module _ (S : SortedSet) where
  abbrev pub insert : ℕ → Store S → Request → String → Store S
  insert now st r version = record st {
    queue = enqueue S now st.queue r.id r.device_id r.org_id r.priority;
    tasks = put st.tasks r.id (new_task now r version);
  }

  -- The duplicate, if any, is timed out or refuses the request.
  abbrev pub after_reason :
      ℕ → Store S → Request → String → String → Task → Option ErrorMessage → Reply (Store S)
  after_reason now st r version id t none = http_error 409
  after_reason now st r version id t (some reason) =
      ok (insert now (save S st id (time_out reason now t)) r version)

  abbrev pub after_duplicate :
      ℕ → Catalogue → Store S → Request → String → Option (String × Task) → Reply (Store S)
  after_duplicate now c st r version none = ok (insert now st r version)
  after_duplicate now c st r version (some (id, t)) =
      after_reason now st r version id t (stale_reason now c r.device_id t)

  abbrev pub for_device :
      ℕ → Catalogue → Store S → Request → String → Option Device → Reply (Store S)
  for_device now c st r version none = http_error 404
  for_device now c st r version (some device) =
      after_duplicate now c st r version
        -- LIMIT 1: the first row in the dict's order.
        (find_row (is_duplicate r.device_id r.org_id version) st.tasks)

  abbrev pub for_version : ℕ → Catalogue → Store S → Request → Option String → Reply (Store S)
  for_version now c st r none = http_error 400
  for_version now c st r (some version) =
      for_device now c st r version (get_device c r.device_id r.org_id)

  abbrev pub for_script : ℕ → Catalogue → Store S → Request → Option Script → Reply (Store S)
  for_script now c st r none = http_error 404
  for_script now c st r (some script) = for_version now c st r script.current_version_id

  unfoldable pub create_task : ℕ → Catalogue → Store S → Request → Reply (Store S)
  unfolding get_script get_device is_duplicate find_row stale_reason
  create_task now c st r = for_script now c st r (get_script c r.script_id r.org_id)

  abbrev pub start : ℕ → Task → Task
  start now t = record (set_status running now t) { started_at = some now }

  -- The command is sent; a device that is not reached gets its task back into its queue.
  abbrev pub deliver : Delivery → ℕ → Store S → String → String → String → Task → Store S
  deliver delivered now st id device org t = save S st id (start now t)
  deliver offline now st id device org t =
      let freed = mark_completed S st.queue id device in
      record st { queue = enqueue S now freed id device org t.priority }
  deliver broken now st id device org t = st

  abbrev pub known_version : Catalogue → Option String → Bool
  known_version c none = false
  known_version c (some v) = has c.versions v

  abbrev pub dispatch_row :
      (String → Delivery) → ℕ → Catalogue → Store S → String → String → String → Task → Store S
  dispatch_row send now c st id device org t =
      if not (t.device_id == device)
      then record st { queue = mark_completed S st.queue id device }
      else if known_version c t.script_version_id
      then deliver (send id) now st id device org t
      else save S st id
          (record (set_status failed now t) { error_message = some version_not_found })

  abbrev pub dispatch_taken :
      (String → Delivery)
      → ℕ
      → Catalogue
      → Store S
      → String
      → String
      → Option String × TaskQueue S
      → Store S
  dispatch_taken send now c st device org (none, q) = record st { queue = q }
  dispatch_taken send now c st device org (some id, q) = elim (get st.tasks id) [
    | none ↦ record st { queue = q }
    | some t ↦ dispatch_row send now c (record st { queue = q }) id device org t
  ]

  abbrev pub active_device : Option Device → Option Device
  active_device none = none
  active_device (some d) = if d.is_active then some d else none

  unfoldable pub dispatch_device : (String → Delivery) → ℕ → Catalogue → Store S → String → Store S
  dispatch_device send now c st device = elim (active_device (get c.devices device)) [
    | none ↦ st
    | some d ↦
        dispatch_taken send now c st device d.org_id (dequeue_for_device S st.queue device d.org_id)
  ]

  abbrev pub is_online : Option String → Bool
  is_online none = false
  is_online (some s) = s == "online"

  -- The devices that the cache tracks, in its order; `now` and `send` are those of each device.
  unfoldable pub dispatch_each :
      (String → String → Delivery)
      → (String → ℕ)
      → Catalogue
      → (String → Option String)
      → List String
      → Store S
      → Store S
  unfolding dispatch_device
  dispatch_each send now c status [] st = st
  dispatch_each send now c status (d ∷ ds) st =
      dispatch_each send now c status ds
        (if is_online (status d) then dispatch_device (send d) (now d) c st d else st)

  unfoldable pub dispatch_pending_tasks :
      (String → String → Delivery) → (String → ℕ) → Catalogue → List String → Store S → Store S
  unfolding dispatch_each
  dispatch_pending_tasks send now c tracked st = elim c.status_cache [
    | none ↦ st
    | some status ↦ dispatch_each send now c status tracked st
  ]
