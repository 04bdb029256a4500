-- ===== src/Storage.antt =====
-- The storage of internal/storage: rows, transactions, streams, outcomes and the files of a run.
mod Rows
mod Defs
mod Kept
mod Batches
mod Stored
pub mod Files
pub mod Opening
mod Outcomes
mod Queue
mod Opened
mod Tests
