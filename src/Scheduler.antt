-- ===== src/Scheduler.antt =====
-- Schedules: backend/services/scheduler/schedule_service.py and scheduler_engine.py.
pub mod Schedule
pub mod Service
pub mod Engine
mod Tests
