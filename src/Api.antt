-- ===== src/Api.antt =====
-- engine/api: the fleet of engine nodes, the API keys, the event bus and the routes for tasks.
pub mod Http
pub mod Cluster
pub mod Auth
pub mod Bus
mod Tests
pub mod Tasks
