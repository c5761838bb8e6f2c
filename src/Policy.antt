-- ===== src/Policy.antt =====
-- frostglass/policy: rule sets, the precedence of rules, the versioned store, and the engine.
pub mod Models
pub mod Precedence
pub mod Loader
pub mod Store
pub mod Engine
pub mod Defaults
mod Tests
