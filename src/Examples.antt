-- ===== src/Examples.antt =====
-- Concrete inputs for the theorems of the claims service and its dispatch worker.
pub mod Fixtures
pub mod AuditLogs
pub mod Dispatches
pub mod Workers
pub mod Verifications
pub mod Services
pub mod Limits
pub mod Liabilities
pub mod Reconciliations
pub mod Batches
pub mod Rebuilds
pub mod Pages
pub mod Plans
