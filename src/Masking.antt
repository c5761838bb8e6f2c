-- ===== src/Masking.antt =====
-- frostglass/masking: the vault, stable surrogates, the masking engine and restoration.
pub mod Models
pub mod Surrogates
pub mod Vault
pub mod Consistency
pub mod Engine
pub mod Restore
mod Tests
