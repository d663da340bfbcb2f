-- ===== src/Tasks.antt =====
-- Tasks: the priority queue in Redis and the task service over it (backend/services/task_*.py).
pub mod Queue
pub mod Task
pub mod Batch
pub mod Service
pub mod Dispatch
pub mod Watchdog
mod Tests
