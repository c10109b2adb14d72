-- ===== src/Api/Auth.antt =====
-- engine/api/auth: API keys, kept as hashes in a JSON file, and who is let in by them.
pub mod Entry
pub mod Store
pub mod File
pub mod Keys
pub mod Middleware
pub mod Access
