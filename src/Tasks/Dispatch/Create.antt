-- ===== src/Tasks/Dispatch/Create.antt =====
-- backend/services/task_service.py: `create_task` does not start a script version twice on a device.
use sphere_platform.Base.{
  ℕ, String, Bool, Option, none, some, ◌≡◌, ◌⊎◌, inl, inr, arith, refl, eq_refl,
}
use sphere_platform.Base.Dict.{get, put, get-put_same}
use sphere_platform.Base.Dict.Size.{IsDict}
use sphere_platform.Redis.{SortedSet}
use sphere_platform.Tasks.Task.{Task, ErrorMessage, Script, Device}
use sphere_platform.Tasks.Service.{Store, Reply, ok, http_error, Catalogue, raised, save}
use sphere_platform.Tasks.Dispatch.{
  Request, create_task, after_duplicate, is_duplicate, new_task, time_out, stale_reason, insert,
  get_script, get_device, after_reason, for_device, for_version, for_script,
}
use sphere_platform.Tasks.Queue.{queue_at, score}
use sphere_platform.Tasks.Queue.Order.{order-enqueue}
use sphere_platform.Base.Dict.Find.{find_row, NoneOf, find_row-none, find_row-some}
use sphere_platform.Tasks.Dispatch.Unique.{
  Unique, ByFilter, Unique-ByFilter, put-NoneOf, time_out-ByFilter, new-ByFilter,
}

module _ (S : SortedSet) where
  -- The new task is queued, in its row and in its device's queue.
  pub record Created (now : ℕ) (r : Request) (st : Store S) : Type 0 where
    pub unique : Unique st.tasks
    pub version : String
    pub row : get st.tasks r.id ≡ some (new_task now r version)
    pub waiting :
        S.zscore (queue_at S st.queue r.org_id r.device_id) r.id ≡ some (score r.priority now)

  insert-Created :
      (now : ℕ) (st : Store S) (r : Request) (version : String)
      → ByFilter st.tasks
      → NoneOf (is_duplicate r.device_id r.org_id version) st.tasks
      → Created now r (insert S now st r version)
  insert-Created now st r version h n = record {
    unique =
        (Unique-ByFilter (put st.tasks r.id (new_task now r version))).1
          (new-ByFilter st.tasks now r version h n);
    version = version;
    row = get-put_same st.tasks r.id (new_task now r version);
    waiting = ground (
      arith,
      order-enqueue S now st.queue r.id r.device_id r.org_id r.priority r.id,
      eq_refl r.id,
    );
  }

  abbrev pub Creates : ℕ → Request → Reply (Store S) → Type 0
  Creates now r (ok st) = Created now r st
  Creates now r (http_error code) = (code ≡ 400) ⊎ ((code ≡ 404) ⊎ (code ≡ 409))
  Creates now r raised = ⊥

  after_reason-Creates :
      (now : ℕ) (c : Catalogue) (st : Store S) (r : Request) (version id : String) (t : Task)
      (o : Option ErrorMessage)
      → IsDict st.tasks
      → ByFilter st.tasks
      → find_row (is_duplicate r.device_id r.org_id version) st.tasks ≡ some (id, t)
      → Creates now r (after_reason S now st r version id t o)
  unfolding is_duplicate ByFilter
  after_reason-Creates now c st r version id t none w h e = inr (inr refl)
  after_reason-Creates now c st r version id t (some reason) w h e =
      let p = is_duplicate r.device_id r.org_id version in
      let (at, is) = find_row-some p st.tasks id t w e in
      insert-Created now (save S st id (time_out reason now t)) r version
        (time_out-ByFilter st.tasks id reason now t h)
        (put-NoneOf p st.tasks id (time_out reason now t)
          (λ i u g k. h r.device_id r.org_id version i id u t g at k is) (ground arith))

  for_device-Creates :
      (now : ℕ) (c : Catalogue) (st : Store S) (r : Request) (version : String) (o : Option Device)
      → IsDict st.tasks
      → ByFilter st.tasks
      → Creates now r (for_device S now c st r version o)
  for_device-Creates now c st r version none w h = inr (inl refl)
  for_device-Creates now c st r version (some device) w h = turn (find_row p st.tasks) refl
    where
      p : Task → Bool
      p = is_duplicate r.device_id r.org_id version

      turn :
          (o : Option (String × Task))
          → find_row p st.tasks ≡ o
          → Creates now r (after_duplicate S now c st r version o)
      turn none e = insert-Created now st r version h (find_row-none p st.tasks e)
      turn (some (id, t)) e =
          after_reason-Creates now c st r version id t (stale_reason now c r.device_id t) w h e

  for_script-Creates :
      (now : ℕ) (c : Catalogue) (st : Store S) (r : Request) (o : Option Script)
      → IsDict st.tasks
      → ByFilter st.tasks
      → Creates now r (for_script S now c st r o)
  for_script-Creates now c st r none w h = inr (inl refl)
  for_script-Creates now c st r (some script) w h = turn script.current_version_id
    where
      turn : (o : Option String) → Creates now r (for_version S now c st r o)
      turn none = inl refl
      turn (some version) =
          for_device-Creates now c st r version (get_device c r.device_id r.org_id) w h

  -- In a table whose ids are distinct, if at most one task is active for each device, organisation and script version, this holds after
  -- a request that is granted, too; the new task is queued in its row and, with the score of its
  -- priority and of this second, in its device's queue. Otherwise the reply is 400, 404 or 409.
  pub create_task-Creates :
      (now : ℕ) (c : Catalogue) (st : Store S) (r : Request)
      → IsDict st.tasks
      → Unique st.tasks
      → Creates now r (create_task S now c st r)
  unfolding create_task
  create_task-Creates now c st r w h =
      for_script-Creates now c st r (get_script c r.script_id r.org_id) w
        ((Unique-ByFilter st.tasks).0 h)
