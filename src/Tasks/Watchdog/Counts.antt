-- ===== src/Tasks/Watchdog/Counts.antt =====
-- backend/tasks/task_heartbeat_watchdog.py: what `_aggregate_batches` adds to the batches.
use sphere_platform.Base.{
  ℕ, zero, suc, ◌+◌, String, Bool, true, false, Option, none, some, [], ◌∷◌, ◌==◌, if◌then◌else◌,
  arith, ◌≡◌, refl, sym, ◌∙◌, ap, eq_iff, eq_refl, Bool-cases, inl, inr, eq_true, leb, nat_eq,
}
use sphere_platform.Base.Dict.{Dict, get, get_or, get-put}
use sphere_platform.Base.Dict.Size.{IsDict, put-IsDict}
use sphere_platform.Redis.{SortedSet}
use sphere_platform.Tasks.Task.{Task}
use sphere_platform.Tasks.Batch.{TaskBatch, BatchStatus}
use sphere_platform.Tasks.Service.{Store}
use sphere_platform.Tasks.Watchdog.{
  Limits, count_batch, count_batches, add_failed, fail_batch, fail_batches, aggregate_batches,
  stale_rows, is_stale, expire_stale_tasks,
}

abbrev pub of_batch : String → Option String → Bool
of_batch b none = false
of_batch b (some c) = c == b

-- How many of the tasks belong to a batch.
unfoldable pub number_in : String → Dict Task → ℕ
number_in b [] = 0
number_in b ((id, t) ∷ d) =
    let rest = number_in b d in if of_batch b t.batch_id then suc rest else rest

abbrev bump : ℕ → Option ℕ → Option ℕ
bump zero o = o
bump (suc n) none = some (suc n)
bump (suc n) (some m) = some (m + suc n)

bump-suc : (n : ℕ) (o : Option ℕ) → bump n (bump 1 o) ≡ bump (suc n) o
bump-suc zero none = refl
bump-suc zero (some m) = refl
bump-suc (suc n) none = ap some (omega arith)
bump-suc (suc n) (some m) = ap some (omega arith)

one-or : (o : Option ℕ) → some (suc (elim o [ none ↦ 0 | some w ↦ w ])) ≡ bump 1 o
one-or none = refl
one-or (some m) = ap some (omega arith)

get-count_batch :
    (o : Option String) (counts : Dict ℕ) (b : String)
    → get (count_batch o counts) b ≡ bump (if of_batch b o then 1 else 0) (get counts b)
get-count_batch none counts b = refl
get-count_batch (some c) counts b = elim (Bool-cases (c == b)) [
  | inl e ↦
      let same : c ≡ b = eq_true c b e in
      rw (same, get-put counts b b (suc (get_or counts b 0)), eq_refl b) (one-or (get counts b))
  | inr e ↦ rw (e, get-put counts c b (suc (get_or counts c 0)), e) refl
]

get-count_batches :
    (d : Dict Task) (counts : Dict ℕ) (b : String)
    → get (count_batches d counts) b ≡ bump (number_in b d) (get counts b)
unfolding count_batches number_in
get-count_batches [] counts b = refl
get-count_batches ((id, t) ∷ d) counts b =
    get-count_batches d (count_batch t.batch_id counts) b
    ∙ ap (bump (number_in b d)) (get-count_batch t.batch_id counts b)
    ∙ turn (of_batch b t.batch_id)
  where
    turn :
        (c : Bool)
        → bump (number_in b d) (bump (if c then 1 else 0) (get counts b))
          ≡ bump (if c then suc (number_in b d) else number_in b d) (get counts b)
    turn true = bump-suc (number_in b d) (get counts b)
    turn false = refl

count_batches-IsDict :
    (d : Dict Task) (counts : Dict ℕ) → IsDict counts → IsDict (count_batches d counts)
unfolding count_batches
count_batches-IsDict [] counts h = h
count_batches-IsDict ((id, t) ∷ d) counts h =
    count_batches-IsDict d (count_batch t.batch_id counts) (turn t.batch_id)
  where
    turn : (o : Option String) → IsDict (count_batch o counts)
    turn none = h
    turn (some b) = put-IsDict counts b (suc (get_or counts b 0)) h

abbrev pub failed_by : Option ℕ → Option TaskBatch → Option TaskBatch
failed_by none o = o
failed_by (some n) none = none
failed_by (some n) (some x) = some (add_failed n x)

get-fail_batch :
    (batches : Dict TaskBatch) (id b : String) (n : ℕ) (o : Option TaskBatch)
    → get batches id ≡ o
    → get (fail_batch batches id n o) b
      ≡ (if id == b then failed_by (some n) (get batches b) else get batches b)
get-fail_batch batches id b n none h = ground (arith, h, eq_iff id b)
get-fail_batch batches id b n (some x) h = elim (Bool-cases (id == b)) [
  | inl e ↦
      let same : id ≡ b = eq_true id b e in
      let at : get batches b ≡ some x = ap (get batches) (sym same) ∙ h in
      rw (e, get-put batches id b (add_failed n x), e, at) refl
  | inr e ↦ rw (e, get-put batches id b (add_failed n x), e) refl
]

get-fail_batches :
    (counts : Dict ℕ) (batches : Dict TaskBatch) (b : String)
    → IsDict counts
    → get (fail_batches counts batches) b ≡ failed_by (get counts b) (get batches b)
unfolding fail_batches get
get-fail_batches [] batches b h = refl
get-fail_batches ((id, n) ∷ counts) batches b h = elim (Bool-cases (id == b)) [
  | inl e ↦
      let same : id ≡ b = eq_true id b e in
      get-fail_batches counts (fail_batch batches id n (get batches id)) b h.1
      ∙ ap (λ (o : Option ℕ). failed_by o (get (fail_batch batches id n (get batches id)) b))
          (ap (get counts) (sym same) ∙ h.0)
      ∙ get-fail_batch batches id b n (get batches id) refl
      ∙ rw e refl
  | inr e ↦
      let other : get (fail_batch batches id n (get batches id)) b ≡ get batches b =
        get-fail_batch batches id b n (get batches id) refl ∙ rw e refl in
      get-fail_batches counts (fail_batch batches id n (get batches id)) b h.1
      ∙ ap (failed_by (get counts b)) other
      ∙ rw e refl
]

-- The batch after `n` more failures, of which there is at least one: it is done when all its tasks
-- are, as failed if none has succeeded and as partial if some have.
abbrev pub with_failures : ℕ → TaskBatch → TaskBatch
with_failures n x = record x {
  failed = x.failed + n;
  status =
      if leb x.total (x.succeeded + (x.failed + n))
      then if nat_eq x.succeeded 0 then BatchStatus.failed else BatchStatus.partial
      else x.status;
}

add_failed-with_failures : (n : ℕ) (x : TaskBatch) → add_failed (suc n) x ≡ with_failures (suc n) x
add_failed-with_failures n x = ground arith

-- What a number of timed-out tasks does to the batch that they belong to.
abbrev pub failed_more : ℕ → Option TaskBatch → Option TaskBatch
failed_more zero o = o
failed_more (suc n) none = none
failed_more (suc n) (some x) = some (with_failures (suc n) x)

bumped : (n : ℕ) (o : Option TaskBatch) → failed_by (bump n none) o ≡ failed_more n o
bumped zero o = refl
bumped (suc n) none = refl
bumped (suc n) (some x) = ap some (add_failed-with_failures n x)

module _ (S : SortedSet) where
  -- A cycle of the watchdog adds to each batch the number of its tasks that timed out in the cycle,
  -- as failures. If all its tasks are done then, it is failed when none has succeeded, and partial
  -- otherwise; a batch without such tasks is left as it is.
  pub expire_stale_tasks-batches :
      (now : ℕ) (l : Limits) (st : Store S) (b : String)
      → get (expire_stale_tasks S now l st).batches b
        ≡ failed_more (number_in b (stale_rows is_stale now l st.tasks)) (get st.batches b)
  unfolding expire_stale_tasks aggregate_batches get
  expire_stale_tasks-batches now l st b =
      let timed = stale_rows is_stale now l st.tasks in
      get-fail_batches (count_batches timed []) st.batches b (count_batches-IsDict timed [] tt)
      ∙ ap (λ (o : Option ℕ). failed_by o (get st.batches b)) (get-count_batches timed [] b)
      ∙ bumped (number_in b timed) (get st.batches b)
