-- ===== src/Tasks/Service/Results.antt =====
-- backend/services/task_service.py: `handle_task_result` and `_safe_mark_completed`.
use sphere_platform.Base.{
  ℕ, String, Bool, true, false, Option, none, some, ◌==◌, ◌&&◌, ◌≡◌, if◌then◌else◌, arith, eq_iff,
  refl, Bool-cases, Option-cases, inl, inr, ap, ◌∙◌, sym, subst,
}
use sphere_platform.Base.Dict.{get, get-remove, get-put_same}
use sphere_platform.Redis.{SortedSet}
use sphere_platform.Tasks.Task.{Task, TaskStatus, timeout, TaskResult}
use sphere_platform.Tasks.Queue.{TaskQueue, mark_completed}
use sphere_platform.Tasks.Service.{
  Store, safe_mark_completed, handle_task_result, keeps_status, status_of, take_result, aggregate,
  result_in,
}

abbrev pub holds : Option String → String → Bool
holds none task = false
holds (some t) task = t == task

module _ (S : SortedSet) where
  pub safe_mark_completed_lock :
      (q : TaskQueue S) (task device d : String)
      → get (safe_mark_completed S q task device).running d
        ≡ (if (device == d) && holds (get q.running device) task then none else get q.running d)
  unfolding safe_mark_completed mark_completed
  safe_mark_completed_lock q task device d =
      ground (arith, get-remove q.running device d, eq_iff device d)

  handle_known :
      (now : ℕ) (st : Store S) (id device : String) (r : TaskResult) (t : Task)
      → get st.tasks id ≡ some t
      → handle_task_result S now st id device r ≡ take_result S now st id device r t
  unfolding handle_task_result
  handle_known now st id device r t e = rw (e, handle_task_result) refl

  keeps_final : (success : Bool) → keeps_status S (status_of S success) ≡ true
  keeps_final true = refl
  keeps_final false = refl

  -- A row whose status is final for results.
  record Kept (st : Store S) (id : String) (s : TaskStatus) : Type 0 where
    row : Task
    at : get st.tasks id ≡ some row
    status : row.status ≡ s
    final : keeps_status S s ≡ true

  take_final :
      (now : ℕ) (st : Store S) (id device : String) (r : TaskResult) (t : Task)
      → keeps_status S t.status ≡ true
      → ((take_result S now st id device r t).batches ≡ st.batches)
        × Kept (take_result S now st id device r t) id t.status
  take_final now st id device r t k = rw (k) (
    refl,
    record {
      row = record t { result = some r; updated_at = some now };
      at = get-put_same st.tasks id (record t { result = some r; updated_at = some now });
      status = refl;
      final = k;
    },
  )

  take_open :
      (now : ℕ) (st : Store S) (id device : String) (r : TaskResult) (t : Task)
      → keeps_status S t.status ≡ false
      → Kept (take_result S now st id device r t) id (status_of S r.success)
  take_open now st id device r t k = rw (k) (record {
    row = result_in S now r t;
    at = get-put_same st.tasks id (result_in S now r t);
    status = refl;
    final = keeps_final r.success;
  })

  pub record Once (id : String) (once twice : Store S) : Type 0 where
    pub batches : twice.batches ≡ once.batches
    pub status :
        (t : Task)
        → get once.tasks id ≡ some t
        → (t' : Task) × (get twice.tasks id ≡ some t') × (t'.status ≡ t.status)

  again-Once :
      (now : ℕ) (st : Store S) (id device : String) (r : TaskResult) (s : TaskStatus)
      → Kept st id s
      → Once id st (handle_task_result S now st id device r)
  again-Once now st id device r s k =
      let (same, later) =
        take_final now st id device r k.row (ap (keeps_status S) k.status ∙ k.final) in
      subst (Once id st) (sym (handle_known now st id device r k.row k.at)) (record {
        batches = same;
        status = λ t h. (later.row, later.at, cc (later.status, k.at, h));
      })

  handle_missing :
      (now : ℕ) (st : Store S) (id device : String) (r : TaskResult)
      → get st.tasks id ≡ none
      → handle_task_result S now st id device r ≡ st
  unfolding handle_task_result
  handle_missing now st id device r e = rw (e, handle_task_result) refl

  first_result :
      (now : ℕ) (st : Store S) (id device : String) (r : TaskResult) (t : Task)
      → get st.tasks id ≡ some t
      → (s : TaskStatus) × Kept (handle_task_result S now st id device r) id s
  first_result now st id device r t e = elim (Bool-cases (keeps_status S t.status)) [
    | inl k ↦ (
      t.status,
      subst (λ x. Kept x id t.status) (sym (handle_known now st id device r t e))
          (take_final now st id device r t k).1,
    )
    | inr k ↦ (
      status_of S r.success,
      subst (λ x. Kept x id (status_of S r.success)) (sym (handle_known now st id device r t e))
          (take_open now st id device r t k),
    )
  ]

  -- A second result for the same task, whatever it says and whichever device sends it, changes no
  -- counter and no status of a batch, and leaves the status that the first result has set.
  second_result_ignored :
      (now now' : ℕ) (st : Store S) (id device device' : String) (r r' : TaskResult)
      → let once = handle_task_result S now st id device r in
        Once id once (handle_task_result S now' once id device' r')
  second_result_ignored now now' st id device device' r r' = elim (Option-cases (get st.tasks id)) [
    | inl n ↦
        subst (λ x. Once id x (handle_task_result S now' x id device' r'))
          (sym (handle_missing now st id device r n))
          (subst (Once id st) (sym (handle_missing now' st id device' r' n))
            (record { batches = refl; status = λ t h. (t, h, refl) }))
    | inr (t, e) ↦
        let (s, k) = first_result now st id device r t e in
        again-Once now' (handle_task_result S now st id device r) id device' r' s k
  ]

  -- The result of a task that has been timed out makes it completed or failed after all, and its
  -- batch counts it.
  late_result_overwrites_timeout :
      (now : ℕ) (st : Store S) (id device : String) (r : TaskResult) (t : Task)
      → get st.tasks id ≡ some t
      → t.status ≡ timeout
      → let st' = handle_task_result S now st id device r in
        ((t' : Task) × (get st'.tasks id ≡ some t') × (t'.status ≡ status_of S r.success))
        × (st'.batches ≡ aggregate S st.batches t.batch_id r.success)
  late_result_overwrites_timeout now st id device r t e h =
      let late : keeps_status S t.status ≡ false = ap (keeps_status S) h in
      subst
        (λ x.
          ((t' : Task) × (get x.tasks id ≡ some t') × (t'.status ≡ status_of S r.success))
          × (x.batches ≡ aggregate S st.batches t.batch_id r.success))
        (sym (handle_known now st id device r t e))
        (let k = take_open now st id device r t late in ((k.row, k.at, k.status), rw (late) refl))

  -- A result frees the lock of the device that sent it if the lock names this task; a lock that
  -- names another task, and the locks of the other devices, stay.
  pub handle_task_result_lock :
      (now : ℕ) (st : Store S) (id device d : String) (r : TaskResult) (t : Task)
      → get st.tasks id ≡ some t
      → get (handle_task_result S now st id device r).queue.running d ≡ (
          if (device == d) && holds (get st.queue.running device) id
          then none
          else get st.queue.running d)
  unfolding handle_task_result
  handle_task_result_lock now st id device d r t e = elim (Bool-cases (keeps_status S t.status)) [
    | inl k ↦ rw (e, handle_task_result, k) (safe_mark_completed_lock st.queue id device d)
    | inr k ↦ rw (e, handle_task_result, k) (safe_mark_completed_lock st.queue id device d)
  ]
