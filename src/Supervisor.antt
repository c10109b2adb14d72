-- ===== src/Supervisor.antt =====
-- engine/supervisor/service.py
pub mod State
pub mod Record
pub mod Gate
pub mod Execution
pub mod Service
pub mod Lifecycle
pub mod Steps
pub mod Soundness
pub mod Termination
pub mod Authority
pub mod Refusals
pub mod Window
pub mod Samples
mod Tests
