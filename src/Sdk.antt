-- ===== src/Sdk.antt =====
-- The platform SDK (packages/platform-sdk).
pub mod Registry
pub mod Cache
pub mod Capability
pub mod Resilience
