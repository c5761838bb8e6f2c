-- ===== src/Admin.antt =====
-- frostglass/admin: roles and permissions.
pub mod Rbac
pub mod Cursor
pub mod Store
pub mod Routes
mod Tests
