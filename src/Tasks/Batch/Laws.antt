-- ===== src/Tasks/Batch/Laws.antt =====
-- backend/services/task_service.py: `_aggregate_batch` over the results of all tasks of a batch.
use sphere_platform.Base.{
  ℕ, ◌+◌, ◌<◌, ◌≤◌, Bool, true, false, leb, if◌then◌else◌, List, [], ◌∷◌, length, ◌≡◌, refl, arith,
  keep_if, not, All,
}
use sphere_platform.Tasks.Batch.{
  TaskBatch, BatchStatus, pending, running, completed, partial, aggregate_batch, final_status,
}

-- The results of the batch's tasks in the order in which they arrive.
pub report : TaskBatch → List Bool → TaskBatch
report b [] = b
report b (r ∷ rs) = report (aggregate_batch b r) rs

abbrev pub succeeded_of : List Bool → ℕ
succeeded_of rs = length (keep_if (λ r. r) rs)

abbrev pub failed_of : List Bool → ℕ
failed_of rs = length (keep_if not rs)

record Counts (b : TaskBatch) (rs : List Bool) (b' : TaskBatch) : Type 0 where
  good : b'.succeeded ≡ b.succeeded + succeeded_of rs
  bad : b'.failed ≡ b.failed + failed_of rs
  total : b'.total ≡ b.total

report-Counts : (b : TaskBatch) (rs : List Bool) → Counts b rs (report b rs)
unfolding report aggregate_batch
report-Counts b [] = record { good = omega arith; bad = omega arith; total = refl }
report-Counts b (r ∷ rs) =
    let ih : Counts (aggregate_batch b r) rs (report (aggregate_batch b r) rs) =
      report-Counts (aggregate_batch b r) rs in
    record {
      good = ground (arith, ih.good);
      bad = ground (arith, ih.bad);
      total = ground (arith, ih.total);
    }

-- The status of a batch at which some result has arrived.
IsSettled : TaskBatch → Type 0
IsSettled b = b.status ≡ (if leb b.total (b.succeeded + b.failed) then final_status b else running)

first-IsSettled : (b : TaskBatch) (r : Bool) → b.status ≡ pending → IsSettled (aggregate_batch b r)
unfolding IsSettled aggregate_batch
first-IsSettled b true h = ground arith
first-IsSettled b false h = ground arith

next-IsSettled : (b : TaskBatch) (r : Bool) → IsSettled b → IsSettled (aggregate_batch b r)
unfolding IsSettled aggregate_batch
next-IsSettled b true h = ground arith
next-IsSettled b false h = ground arith

report-IsSettled : (b : TaskBatch) (rs : List Bool) → IsSettled b → IsSettled (report b rs)
unfolding report
report-IsSettled b [] h = h
report-IsSettled b (r ∷ rs) h = report-IsSettled (aggregate_batch b r) rs (next-IsSettled b r h)

parts_sum : (rs : List Bool) → succeeded_of rs + failed_of rs ≡ length rs
parts_sum [] = refl
parts_sum (true ∷ rs) = omega (arith, parts_sum rs)
parts_sum (false ∷ rs) = omega (arith, parts_sum rs)

none_failed : (rs : List Bool) → All (λ r. r ≡ true) rs → failed_of rs ≡ 0
none_failed [] h = refl
none_failed (true ∷ rs) h = none_failed rs h.1
none_failed (false ∷ rs) h = ground (arith, h.0)

none_succeeded : (rs : List Bool) → All (λ r. r ≡ false) rs → succeeded_of rs ≡ 0
none_succeeded [] h = refl
none_succeeded (true ∷ rs) h = ground (arith, h.0)
none_succeeded (false ∷ rs) h = none_succeeded rs h.1

-- A batch as it is created.
abbrev pub fresh : ℕ → TaskBatch
fresh total = record { status = pending; total = total; succeeded = 0; failed = 0 }

pub record Tally (total : ℕ) (rs : List Bool) (b : TaskBatch) : Type 0 where
  pub succeeded : b.succeeded ≡ succeeded_of rs
  pub failed : b.failed ≡ failed_of rs
  pub going_on : length rs < total → b.status ≡ running
  pub all_good : total ≤ length rs → All (λ r. r ≡ true) rs → b.status ≡ completed
  pub all_bad : total ≤ length rs → All (λ r. r ≡ false) rs → b.status ≡ BatchStatus.failed
  pub mixed : total ≤ length rs → 0 < succeeded_of rs → 0 < failed_of rs → b.status ≡ partial

-- A batch of `total` tasks to which the results of one or more tasks have been reported counts the
-- successes and the failures among them. While fewer than `total` results are in, it is running;
-- from then on it is completed if all succeeded, failed if all failed, and partial if there are both.
pub report-Tally :
    (total : ℕ) (r : Bool) (rs : List Bool) → Tally total (r ∷ rs) (report (fresh total) (r ∷ rs))
unfolding IsSettled report
report-Tally total r rs =
    let b = report (fresh total) (r ∷ rs) in
    let c : Counts (fresh total) (r ∷ rs) b = report-Counts (fresh total) (r ∷ rs) in
    let s : IsSettled b =
      report-IsSettled (aggregate_batch (fresh total) r) rs
        (first-IsSettled (fresh total) r refl) in
    let n = parts_sum (r ∷ rs) in
    record {
      succeeded = omega (arith, c.good);
      failed = omega (arith, c.bad);
      going_on = λ h. ground (arith, s, n, c.good, c.bad, c.total);
      all_good = λ h a. ground (arith, s, n, c.good, c.bad, c.total, none_failed (r ∷ rs) a);
      all_bad = λ h a. ground (arith, s, n, c.good, c.bad, c.total, none_succeeded (r ∷ rs) a);
      mixed = λ h x y. ground (arith, s, n, c.good, c.bad, c.total);
    }
