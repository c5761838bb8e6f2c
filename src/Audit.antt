-- ===== src/Audit.antt =====
-- frostglass/audit: the record of each request and its store.
pub mod Models
pub mod Store
pub mod Recorder
pub mod Stats
mod Tests
