-- ===== src/Platform.antt =====
-- The platform: tenants, model versions, background work and the audit log.
pub mod Models
pub mod Rbac
pub mod Security
pub mod Storage
pub mod Auditlog
pub mod Lifecycle
pub mod Jobs
pub mod Services
pub mod Gate
pub mod Api
pub mod Routes
pub mod Worker
pub mod Runs
mod Tests
