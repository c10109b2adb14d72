-- ===== src/Scheduler.antt =====
-- engine/runtime/scheduler.py
pub mod Cron
pub mod Triggers
pub mod Service
pub mod Runner
mod Tests
