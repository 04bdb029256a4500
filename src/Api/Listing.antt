-- ===== src/Api/Listing.antt =====
-- The listings of sites in internal/api/client.go, over all their pages.
mod Defs
mod Pages
mod Personal
mod Tests
pub use Defs.*
