-- ===== src/Processors/OneDrive.antt =====
-- internal/processors/onedrive.go: each personal site is processed by one worker, users and profile.
mod Defs
pub use Defs.{OneDriveCounters, OneDrive, Texts, Visit, process_sites, nothing_done}
mod Accounts
pub use Accounts.{process_sites-accounts}
mod Tests
