-- ===== src/Progress.antt =====
-- The reports of progress of internal/metrics, and the timing of a run.
pub mod Defs
mod Snapshot
pub mod Format
mod Report
mod Lines
mod Sections
mod Logged
mod Tests
