-- ===== src/Repositories.antt =====
-- app/repositories: the tables and the statements on them.
pub mod Rows
pub mod Common
pub mod Dedupe
pub mod Upsert
pub mod Batch
pub mod News
pub mod Minutes
pub mod Segments
pub mod Pages
pub mod Removal
pub mod Distinct
pub mod Lookup
mod Tests
