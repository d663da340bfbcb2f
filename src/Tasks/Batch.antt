-- ===== src/Tasks/Batch.antt =====
-- backend/models/task_batch.py, and `TaskService._aggregate_batch`.
pub mod Laws
use sphere_platform.Base.{ℕ, suc, ◌+◌, Bool, true, false, leb, nat_eq, if◌then◌else◌}

pub data BatchStatus : Type 0 where
  pending running completed partial failed cancelled : BatchStatus

pub record TaskBatch : Type 0 where
  pub status : BatchStatus
  pub total : ℕ
  pub succeeded : ℕ
  pub failed : ℕ

abbrev pub count_result : TaskBatch → Bool → TaskBatch
count_result b true = record b { succeeded = b.succeeded + 1 }
count_result b false = record b { failed = b.failed + 1 }

-- The final status of a batch all of whose tasks are done.
abbrev pub final_status : TaskBatch → BatchStatus
final_status b =
    if nat_eq b.failed 0 then completed else if nat_eq b.succeeded 0 then failed else partial

abbrev pub start_pending : BatchStatus → BatchStatus
start_pending pending = running
start_pending s = s

unfoldable pub aggregate_batch : TaskBatch → Bool → TaskBatch
aggregate_batch batch success =
    let b = count_result batch success in
    if leb b.total (b.succeeded + b.failed)
    then record b { status = final_status b }
    else record b { status = start_pending b.status }
