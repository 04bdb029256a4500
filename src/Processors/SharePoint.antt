-- ===== src/Processors/SharePoint.antt =====
-- internal/processors/sharepoint.go: sites are filtered, dispatched to user and group workers, and
-- settled when the last worker is done.
mod Defs
pub use Defs.{Counters, State, Tracker, Options}
mod Pipeline
mod Books
mod Workers
mod Sound
mod Runs
mod Finished
mod Progress
mod Tests
