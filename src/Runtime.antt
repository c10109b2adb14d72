-- ===== src/Runtime.antt =====
-- The runtime components of engine/runtime.
pub mod Queue
pub mod Store
pub mod Retry
pub mod Escalation
pub mod Policy
mod Tests
