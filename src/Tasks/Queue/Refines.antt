-- ===== src/Tasks/Queue/Refines.antt =====
-- backend/services/task_queue.py: what the queue promises, without its keys and its metadata, and that
-- the methods keep it.
use sphere_platform.Base.{
  ℕ, ◌≤◌, String, Bool, true, Option, none, some, List, [], ◌∷◌, ◌==◌, ◌&&◌, ◌≡◌, ◌⊎◌, inl, inr,
  if◌then◌else◌, arith, refl, ap, ◌∙◌, eq_iff, Bool-cases, truthy, All, Option-cases,
}
use sphere_platform.Base.Dict.{Dict, get, put, get-put, get-remove}
use sphere_platform.Base.Dict.Size.{is_some}
use sphere_platform.Redis.{SortedSet}
use sphere_platform.Tasks.Queue.{
  TaskQueue, queue_at, set_queue, score, enqueue, dequeue_for_device, is_device_busy,
  mark_completed, cancel_task, release_device_lock, pop_and_lock, lock_popped, after_pop,
}
use sphere_platform.Tasks.Queue.Slots.{queue_at-set_queue}
use sphere_platform.Tasks.Queue.Locks.{cancel_task-Removes}

-- The abstract queue: the scores of the tasks that wait, for an organisation and a device, and the
-- task that each device runs.
pub record Board : Type 0 where
  pub waiting : String → String → String → Option ℕ
  pub running : String → Option String

pub data Op : Type 0 where
  add : ℕ → String → String → String → ℕ → Op
  take_next : String → String → Op
  complete : String → String → Op
  withdraw : String → String → String → Op
  release : String → Op

pub data Answer : Type 0 where
  done : Answer
  taken : Option String → Answer
  withdrawn : Bool → Answer

abbrev pub is_slot : String → String → String → String → Bool
is_slot org device o d = (org == o) && (device == d)

abbrev pub Same : Board → Board → Type 0
Same b b' =
    ((o d t : String) → b'.waiting o d t ≡ b.waiting o d t)
    × ((d : String) → b'.running d ≡ b.running d)

-- One task's score in one queue is replaced.
abbrev pub Rescored : Board → Board → String → String → String → Option ℕ → Type 0
Rescored b b' org device task s =
    (o d t : String)
    → b'.waiting o d t ≡ (if is_slot org device o d && (task == t) then s else b.waiting o d t)

abbrev pub Unlocked : Board → Board → String → Type 0
Unlocked b b' device =
    ((o d t : String) → b'.waiting o d t ≡ b.waiting o d t)
    × ((d : String) → b'.running d ≡ (if device == d then none else b.running d))

-- Which answers an operation may give, and what it leaves.
abbrev pub Step : Op → Board → Answer → Board → Type 0
Step (add now task device org priority) b done b' =
    Rescored b b' org device task (some (score priority now))
    × ((d : String) → b'.running d ≡ b.running d)
Step (take_next device org) b (taken none) b' =
    Same b b'
    × ((is_some (b.running device) ≡ true) ⊎ ((t : String) → b.waiting org device t ≡ none))
Step (take_next device org) b (taken (some task)) b' =
    (b.running device ≡ none)
    × ((s : ℕ) × (b.waiting org device task ≡ some s)
        × ((t : String) (r : ℕ) → b.waiting org device t ≡ some r → s ≤ r))
    × Rescored b b' org device task none
    × ((d : String) → b'.running d ≡ (if device == d then some task else b.running d))
Step (complete task device) b done b' = Unlocked b b' device
Step (withdraw task org device) b (withdrawn found) b' =
    (found ≡ is_some (b.waiting org device task))
    × Rescored b b' org device task none
    × ((d : String) → b'.running d ≡ b.running d)
Step (release device) b done b' = Unlocked b b' device
Step _ b _ b' = ⊥

-- A history that the abstract queue allows.
pub Follows : Board → List (Op × Answer) → Board → Type 0
Follows b [] b' = Same b b'
Follows b ((op, a) ∷ h) b' = (m : Board) × Step op b a m × Follows m h b'

-- The device that a withdrawal names is not empty.
abbrev pub IsNamed : Op → Type 0
IsNamed (withdraw task org device) = truthy (some device) ≡ some device
IsNamed _ = Unit

module _ (S : SortedSet) where
  -- What is seen of a queue.
  abbrev pub board : TaskQueue S → Board
  board q = record {
    waiting = λ o d t. S.zscore (queue_at S q o d) t;
    running = λ d. get q.running d;
  }

  abbrev pub perform : Op → TaskQueue S → Answer × TaskQueue S
  perform (add now task device org priority) q = (done, enqueue S now q task device org priority)
  perform (take_next device org) q =
      let (task, q') = dequeue_for_device S q device org in (taken task, q')
  perform (complete task device) q = (done, mark_completed S q task device)
  perform (withdraw task org device) q =
      let (found, q') = cancel_task S q task org (some device) in (withdrawn found, q')
  perform (release device) q = (done, release_device_lock S q device)

  unfoldable pub history : TaskQueue S → List Op → List (Op × Answer)
  history q [] = []
  history q (op ∷ ops) = let (a, q') = perform op q in (op, a) ∷ history q' ops

  pub run : TaskQueue S → List Op → TaskQueue S
  run q [] = q
  run q (op ∷ ops) = run (perform op q).1 ops

  set_queue-Rescored :
      (q : TaskQueue S) (org device task : String) (z : S.Z) (s : Option ℕ)
      → ((t : String)
          → S.zscore z t ≡ (if task == t then s else S.zscore (queue_at S q org device) t))
      → Rescored (board q) (board (set_queue S q org device z)) org device task s
  set_queue-Rescored q org device task z s h o d t = elim (Bool-cases (is_slot org device o d)) [
    | inl e ↦
        let k : queue_at S (set_queue S q org device z) o d ≡ z =
          queue_at-set_queue S q org device o d z ∙ rw e refl in
        let same : queue_at S q org device ≡ queue_at S q o d =
          ground (arith, e, eq_iff org o, eq_iff device d) in
        ap (λ x. S.zscore x t) k ∙ h t ∙ ground (arith, e, same)
    | inr e ↦
        let k : queue_at S (set_queue S q org device z) o d ≡ queue_at S q o d =
          queue_at-set_queue S q org device o d z ∙ rw e refl in
        ap (λ x. S.zscore x t) k ∙ ground (arith, e)
  ]

  set_queue-running :
      (q : TaskQueue S) (org device : String) (z : S.Z)
      → (set_queue S q org device z).running ≡ q.running
  unfolding set_queue
  set_queue-running q org device z = refl

  add-Step :
      (now : ℕ) (q : TaskQueue S) (task device org : String) (priority : ℕ)
      → Step
          (add now task device org priority)
          (board q)
          done
          (board (enqueue S now q task device org priority))
  unfolding enqueue
  add-Step now q task device org priority =
      let z = S.zadd (queue_at S q org device) task (score priority now) in
      (
        set_queue-Rescored q org device task z (some (score priority now))
            (λ t. S.zscore-zadd (queue_at S q org device) task t (score priority now)),
        λ d. ap (λ (r : Dict String). get r d) (set_queue-running q org device z),
      )

  popped-Step :
      (q : TaskQueue S) (device org task : String) (rest : S.Z)
      → get q.running device ≡ none
      → S.zpopmin (queue_at S q org device) ≡ some (task, rest)
      → Step
          (take_next device org)
          (board q)
          (taken (some task))
          (board (after_pop S q device org task rest))
  unfolding set_queue put queue_at
  popped-Step q device org task rest free h =
      let (s, at, least, out) = S.zpopmin_some (queue_at S q org device) task rest h in
      (
        free,
        (s, at, least),
        set_queue-Rescored q org device task rest none out,
        λ d.
            get-put (set_queue S q org device rest).running device d task
            ∙ ap (λ (r : Dict String). if device == d then some task else get r d)
                (set_queue-running q org device rest),
      )

  take-Step :
      (q : TaskQueue S) (device org : String)
      → let (task, q') = dequeue_for_device S q device org in
        Step (take_next device org) (board q) (taken task) (board q')
  unfolding dequeue_for_device is_device_busy pop_and_lock
  take-Step q device org = elim (Option-cases (get q.running device)) [
    | inr (x, e) ↦ rw (e) (((λ o d t. refl), λ d. refl), inl (ap is_some e))
    | inl e ↦ rw (e) (turn (S.zpopmin (queue_at S q org device)) refl e)
  ]
    where
      turn :
          (o : Option (String × S.Z))
          → S.zpopmin (queue_at S q org device) ≡ o
          → get q.running device ≡ none
          → let (task, q') = lock_popped S q device org o in
            Step (take_next device org) (board q) (taken task) (board q')
      turn none h e =
          (((λ o d t. refl), λ d. refl), inr (S.zpopmin_none (queue_at S q org device) h))
      turn (some (task, rest)) h e = popped-Step q device org task rest e h

  complete-Step :
      (q : TaskQueue S) (task device : String)
      → Step (complete task device) (board q) done (board (mark_completed S q task device))
  unfolding mark_completed queue_at
  complete-Step q task device = ((λ o d t. refl), λ d. get-remove q.running device d)

  release-Step :
      (q : TaskQueue S) (device : String)
      → Step (release device) (board q) done (board (release_device_lock S q device))
  unfolding release_device_lock queue_at
  release-Step q device = ((λ o d t. refl), λ d. get-remove q.running device d)

  withdraw-Step :
      (q : TaskQueue S) (task org device : String)
      → truthy (some device) ≡ some device
      → let (found, q') = cancel_task S q task org (some device) in
        Step (withdraw task org device) (board q) (withdrawn found) (board q')
  withdraw-Step q task org device named =
      let (found, here, other, locks) = cancel_task-Removes S q task org device named in
      (
        found,
        (λ o d t. elim (Bool-cases (is_slot org device o d)) [
          | inl e ↦
              let o_is : org ≡ o = ground (arith, e, eq_iff org o) in
              let d_is : device ≡ d = ground (arith, e, eq_iff device d) in
              rw (e) (rw (← o_is, ← d_is) (here t))
          | inr e ↦ rw (e) (ap (λ z. S.zscore z t) (other o d e))
        ]),
        λ d. ap (λ (r : Dict String). get r d) locks,
      )

  perform-Step :
      (op : Op) (q : TaskQueue S)
      → IsNamed op
      → let (a, q') = perform op q in Step op (board q) a (board q')
  perform-Step (add now task device org priority) q h = add-Step now q task device org priority
  perform-Step (take_next device org) q h = take-Step q device org
  perform-Step (complete task device) q h = complete-Step q task device
  perform-Step (withdraw task org device) q h = withdraw-Step q task org device h
  perform-Step (release device) q h = release-Step q device

  -- Every history of calls of the queue is one that the abstract queue allows: it holds a score for
  -- each waiting task and a task for each device at work, hands out a task of the lowest score of the
  -- device's own queue, to a device at rest only and nothing only if there is none, and says of a
  -- withdrawal whether the task was waiting. A withdrawal names a device that is not empty.
  pub run-Follows :
      (q : TaskQueue S) (ops : List Op)
      → All IsNamed ops
      → Follows (board q) (history q ops) (board (run q ops))
  unfolding history run Follows
  run-Follows q [] h = ((λ o d t. refl), λ d. refl)
  run-Follows q (op ∷ ops) h =
      (board (perform op q).1, perform-Step op q h.0, run-Follows (perform op q).1 ops h.1)
