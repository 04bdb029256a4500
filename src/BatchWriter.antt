-- ===== src/BatchWriter.antt =====
-- internal/batchwriter/batch_writer.go: the writer's buffer and statistics, the flush with its
-- hooks, the run loop over the input channel, and the producers' side.
pub mod Defs
pub mod Loop
pub mod Counts
pub mod Accounts
mod Rule
pub mod Kinds
pub mod Order
pub mod History
pub mod Closing
mod Tests
