-- ===== src/Config.antt =====
-- The configuration of internal/config: what is read from the environment, and what it can be.
pub mod Defs
pub mod Load
mod Unset
mod Kept
mod Loaded
mod Tests
