-- ===== src/Api.antt =====
-- internal/api: the client of SharePoint, its transport, its metrics and its listings.
pub mod Transport
pub mod Metrics
pub mod Fetch
pub mod Listing
