-- ===== src/Gateway.antt =====
-- frostglass/gateway: keys, limits, the text of a payload, the pipeline and the routes.
pub mod Auth
pub mod Budget
pub mod Extract
pub mod Pipeline
pub mod Routes
pub mod Handle
mod Tests
