-- ===== src/Processors.antt =====
-- internal/processors: the pipelines that turn the tenant's sites into records and outcomes.
pub mod Filter
pub mod Outcomes
pub mod SharePoint
pub mod OneDrive
pub mod Results
pub mod Setup
pub mod Summary
mod Tests
