-- ===== src/Scripts.antt =====
-- scripts: the checks that guard commits and deployments.
pub mod RuntimeHealth
pub mod CommitMessages
mod Tests
