-- ===== src/Detection.antt =====
-- frostglass/detection: spans, their merge, the hash of a value, and the engine.
pub mod Models
pub mod Merge
pub mod Hashing
pub mod Structural
pub mod Engine
mod Tests
