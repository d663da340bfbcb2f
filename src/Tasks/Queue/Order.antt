-- ===== src/Tasks/Queue/Order.antt =====
-- backend/services/task_queue.py: which task `dequeue_for_device` hands out, and what it leaves.
use sphere_platform.Base.{
  ℕ, ◌≤◌, ◌<◌, String, true, false, Option, none, some, ◌==◌, ◌&&◌, ◌≡◌, ◌⊎◌, inl, inr,
  if◌then◌else◌, arith, refl, Bool-cases, ap, ◌∙◌, subst,
}
use sphere_platform.Base.Dict.{get, get-put}
use sphere_platform.Redis.{SortedSet}
use sphere_platform.Tasks.Queue.{
  TaskQueue, queue_at, set_queue, score, pop_and_lock, dequeue_for_device, is_device_busy,
  after_pop, lock_popped, enqueue,
}
use sphere_platform.Tasks.Queue.Slots.{queue_at-set_queue, queue_at_same}

-- A score compares the priority first, then the time of the call.
pub score_order :
    (p q n m : ℕ) → m < 1000000000000 → score p n ≤ score q m → (p < q) ⊎ ((p ≡ q) × (n ≤ m))
unfolding score
score_order p q n m h e = ground arith

module _ (S : SortedSet) where
  -- The task was first in the device's queue, and has left it for the device's lock.
  pub record Taken (q : TaskQueue S) (device org task : String) (q' : TaskQueue S) : Type 0 where
    pub first :
        (u : String) (p r n m : ℕ)
        → m < 1000000000000
        → S.zscore (queue_at S q org device) task ≡ some (score p n)
        → S.zscore (queue_at S q org device) u ≡ some (score r m)
        → (p < r) ⊎ ((p ≡ r) × (n ≤ m))
    pub queued : (s : ℕ) × (S.zscore (queue_at S q org device) task ≡ some s)
    pub left :
        (u : String)
        → S.zscore (queue_at S q' org device) u
          ≡ (if task == u then none else S.zscore (queue_at S q org device) u)
    pub elsewhere :
        (o d : String)
        → ((org == o) && (device == d)) ≡ false
        → queue_at S q' o d ≡ queue_at S q o d
    pub locked :
        (d : String) → get q'.running d ≡ (if device == d then some task else get q.running d)

  pub pop_and_lock-some :
      (q : TaskQueue S) (device org task : String) (q' : TaskQueue S)
      → pop_and_lock S q device org ≡ (some task, q')
      → (rest : S.Z) × (S.zpopmin (queue_at S q org device) ≡ some (task, rest))
        × (after_pop S q device org task rest ≡ q')
  unfolding pop_and_lock
  pop_and_lock-some q device org task q' h = turn (S.zpopmin (queue_at S q org device)) refl h
    where
      turn :
          (o : Option (String × S.Z))
          → S.zpopmin (queue_at S q org device) ≡ o
          → lock_popped S q device org o ≡ (some task, q')
          → (rest : S.Z) × (S.zpopmin (queue_at S q org device) ≡ some (task, rest))
            × (after_pop S q device org task rest ≡ q')
      turn none n e = cc
      turn (some (t, rest)) n e = (rest, cc, cc)

  after_pop-Taken :
      (q : TaskQueue S) (device org task : String) (rest : S.Z)
      → S.zpopmin (queue_at S q org device) ≡ some (task, rest)
      → Taken q device org task (after_pop S q device org task rest)
  unfolding set_queue queue_at
  after_pop-Taken q device org task rest n =
      let (s, at, le, out) = S.zpopmin_some (queue_at S q org device) task rest n in
      record {
        first = λ u p r n' m b et eu.
            score_order p r n' m b (ground (arith, at, et, eu, le u (score r m) eu));
        queued = (s, at);
        left = λ u. ap (λ z. S.zscore z u) (queue_at_same S q org device rest) ∙ out u;
        elsewhere = λ o d ne. ground (arith, queue_at-set_queue S q org device o d rest);
        locked = λ d. get-put q.running device d task;
      }

  pub pop_and_lock-Taken :
      (q : TaskQueue S) (device org task : String) (q' : TaskQueue S)
      → pop_and_lock S q device org ≡ (some task, q')
      → Taken q device org task q'
  pop_and_lock-Taken q device org task q' h =
      let (rest, n, e) = pop_and_lock-some q device org task q' h in
      subst (Taken q device org task) e (after_pop-Taken q device org task rest n)

  -- What a call of `dequeue_for_device` promises.
  abbrev pub Takes : TaskQueue S → String → String → Option String × TaskQueue S → Type 0
  Takes q device org (some task, q') =
      (is_device_busy S q device ≡ false) × Taken q device org task q'
  Takes q device org (none, q') =
      (q' ≡ q)
      × ((is_device_busy S q device ≡ true)
          ⊎ ((u : String) → S.zscore (queue_at S q org device) u ≡ none))

  lock_popped-Takes :
      (q : TaskQueue S) (device org : String) (o : Option (String × S.Z))
      → is_device_busy S q device ≡ false
      → S.zpopmin (queue_at S q org device) ≡ o
      → Takes q device org (lock_popped S q device org o)
  lock_popped-Takes q device org none f n = (refl, inr (S.zpopmin_none (queue_at S q org device) n))
  lock_popped-Takes q device org (some (task, rest)) f n =
      (f, after_pop-Taken q device org task rest n)

  -- Dequeuing for a device hands out nothing, and changes nothing, just when the device holds a lock
  -- or its queue is empty. Otherwise it hands out a task of that queue before which, by priority and
  -- then by the second of enqueuing (seconds below 10^12), no other task of it comes; that task alone
  -- leaves the queue, the other queues stay, and the device's lock, alone among the locks, names it.
  pub dequeue_for_device-Takes :
      (q : TaskQueue S) (device org : String)
      → Takes q device org (dequeue_for_device S q device org)
  unfolding dequeue_for_device pop_and_lock queue_at
  dequeue_for_device-Takes q device org = elim (Bool-cases (is_device_busy S q device)) [
    | inl b ↦ rw (b) (refl, inl b)
    | inr f ↦ rw (f) (lock_popped-Takes q device org (S.zpopmin (queue_at S q org device)) f refl)
  ]

  pub order-enqueue :
      (now : ℕ) (q : TaskQueue S) (task device org : String) (priority : ℕ) (u : String)
      → S.zscore (queue_at S (enqueue S now q task device org priority) org device) u
        ≡ (if task == u then some (score priority now) else S.zscore (queue_at S q org device) u)
  unfolding enqueue queue_at set_queue
  order-enqueue now q task device org priority u =
      let z = S.zadd (queue_at S q org device) task (score priority now) in
      ap (λ x. S.zscore x u) (queue_at_same S q org device z)
      ∙ S.zscore-zadd (queue_at S q org device) task u (score priority now)
