-- ===== src/Api/Fetch.antt =====
-- The fetches of one site and one user in internal/api/client.go, with internal/api/csom.
mod Defs
mod Csom
mod Groups
mod Texts
mod Tests
pub use Defs.*
pub use Csom.*
