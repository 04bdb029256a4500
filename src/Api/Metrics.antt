-- ===== src/Api/Metrics.antt =====
-- The metrics of internal/api/client.go and counter_map.go.
mod Defs
mod Adders
mod Calls
mod Codes
mod Tests
pub use Defs.*
