-- ===== src/Errors.antt =====
-- Errors of the Go program, and how it classifies them: internal/api/transport_errors.go and
-- `parseError` of internal/processors/helpers.go.
mod Defs
pub mod Classes
mod Tests
unfoldable pub use Defs.*
