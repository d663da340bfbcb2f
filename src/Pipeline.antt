-- ===== src/Pipeline.antt =====
-- backend/services/orchestrator and backend/models/pipeline.py: pipeline runs, the requests of
-- users on them, the executor's loop over the steps, and the step handlers.
pub mod Value
pub mod Run
pub mod Requests
pub mod Executor
pub mod Condition
pub mod Steps
mod Tests
