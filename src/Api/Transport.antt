-- ===== src/Api/Transport.antt =====
-- `ThrottledTransport` of internal/api/client.go.
mod Defs
mod Attempts
mod Gate
mod Bounds
mod Tests
pub use Defs.*
