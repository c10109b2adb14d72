-- ===== src/Interfaces.antt =====
-- engine/interfaces: the records that the components exchange. Datetimes and durations are whole
-- microseconds, attempt counts and limits natural numbers, ids and names texts.
pub mod Task
pub mod Retry
pub mod Policy
pub mod Event
pub mod Store
pub mod Guild
pub mod Trigger
