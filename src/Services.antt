-- ===== src/Services.antt =====
-- The core services (services/workflow, reporting, integration, tenant, notification, audit, identity).
pub mod Ports
pub mod Sensitive
pub mod Workflow
pub mod Reporting
pub mod Integration
pub mod Tenant
pub mod Notification
pub mod Audit
pub mod Identity
pub mod Isolation
pub mod Started
pub mod Redaction
pub mod Upload
mod Tests
