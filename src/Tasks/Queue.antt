-- ===== src/Tasks/Queue.antt =====
-- backend/services/task_queue.py: `TaskQueue`. The three families of keys are three fields; Redis
-- sorted sets are a parameter. `now` is `time.time()` in whole seconds. The script _LUA_DEQUEUE and
-- the method `_dequeue_fallback` do the same to the keys, the first in one step.
pub mod Slots
pub mod Order
pub mod Locks
pub mod Depth
pub mod Refines
use sphere_platform.Base.{
  ℕ, ◌+◌, ◌*◌, String, Bool, true, false, Option, none, some, List, [], ◌∷◌, if◌then◌else◌, truthy,
}
use sphere_platform.Base.Dict.{Dict, get, put, remove, get_or}
use sphere_platform.Base.Dict.Size.{is_some}
use sphere_platform.Redis.{SortedSet}

pub record Meta : Type 0 where
  pub device_id : String
  pub org_id : String
  pub priority : ℕ
  pub enqueued_at : ℕ

unfoldable pub score : ℕ → ℕ → ℕ
score priority now = priority * 1000000000000 + now

module _ (S : SortedSet) where
  pub record TaskQueue : Type 0 where
    -- task_queue:{org_id}:{device_id}
    pub queues : Dict (Dict S.Z)
    -- task_running:{device_id}
    pub running : Dict String
    -- task:meta:{task_id}
    pub meta : Dict Meta

  unfoldable pub queue_at : TaskQueue → String → String → S.Z
  queue_at q org device = get_or (get_or q.queues org []) device S.empty

  unfoldable pub set_queue : TaskQueue → String → String → S.Z → TaskQueue
  set_queue q org device z = record q {
    queues = put q.queues org (put (get_or q.queues org []) device z);
  }

  unfoldable pub enqueue : ℕ → TaskQueue → String → String → String → ℕ → TaskQueue
  unfolding queue_at set_queue score
  enqueue now q task device org priority =
      let added =
        set_queue q org device (S.zadd (queue_at q org device) task (score priority now)) in
      record added {
        meta =
            put added.meta task
              (record { device_id = device; org_id = org; priority = priority; enqueued_at = now });
      }

  abbrev pub after_pop : TaskQueue → String → String → String → S.Z → TaskQueue
  after_pop q device org task rest =
      let popped = set_queue q org device rest in
      record popped { running = put popped.running device task }

  abbrev pub lock_popped :
      TaskQueue → String → String → Option (String × S.Z) → Option String × TaskQueue
  lock_popped q device org none = (none, q)
  lock_popped q device org (some (task, rest)) = (some task, after_pop q device org task rest)

  -- ZPOPMIN, then SET of the lock.
  unfoldable pub pop_and_lock : TaskQueue → String → String → Option String × TaskQueue
  unfolding queue_at
  pop_and_lock q device org = lock_popped q device org (S.zpopmin (queue_at q org device))

  unfoldable pub is_device_busy : TaskQueue → String → Bool
  is_device_busy q device = is_some (get q.running device)

  unfoldable pub dequeue_for_device : TaskQueue → String → String → Option String × TaskQueue
  unfolding pop_and_lock is_device_busy
  dequeue_for_device q device org =
      if is_device_busy q device then (none, q) else pop_and_lock q device org

  unfoldable pub mark_completed : TaskQueue → String → String → TaskQueue
  mark_completed q task device = record q {
    running = remove q.running device;
    meta = remove q.meta task;
  }

  -- Either the caller or the stored metadata names the device.
  unfoldable pub device_of : TaskQueue → String → Option String → Option String
  device_of q task device = elim (truthy device) [
    | some d ↦ some d
    | none ↦ elim (get q.meta task) [ none ↦ none | some m ↦ truthy (some m.device_id) ]
  ]

  abbrev pub cancel_at : TaskQueue → String → String → String → Bool × TaskQueue
  cancel_at q task org device =
      let (rest, removed) = S.zrem (queue_at q org device) task in
      let taken = set_queue q org device rest in
      (removed, if removed then record taken { meta = remove taken.meta task } else q)

  unfoldable pub cancel_task : TaskQueue → String → String → Option String → Bool × TaskQueue
  unfolding device_of queue_at set_queue
  cancel_task q task org device = elim (device_of q task device) [
    | none ↦ (false, q)
    | some d ↦ cancel_at q task org d
  ]

  -- With the device: the size of its queue. Without: the scan over the queues of the organisation.
  abbrev pub total : Dict S.Z → ℕ
  total [] = 0
  total ((device, z) ∷ d) = S.zcard z + total d

  unfoldable pub get_queue_depth : TaskQueue → String → Option String → ℕ
  unfolding queue_at
  get_queue_depth q org device = elim (truthy device) [
    | some d ↦ S.zcard (queue_at q org d)
    | none ↦ total (get_or q.queues org [])
  ]

  unfoldable pub release_device_lock : TaskQueue → String → TaskQueue
  release_device_lock q device = record q { running = remove q.running device }
