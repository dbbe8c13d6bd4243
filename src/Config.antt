-- ===== src/Config.antt =====
-- The configuration engine (packages/config-engine) and the dependency engine
-- (packages/dependency-engine), over desired states as they come in: unchecked JSON.
pub mod Workflows
pub mod Validate
pub mod Locked
pub mod Dependency
pub mod Sample
mod Tests
