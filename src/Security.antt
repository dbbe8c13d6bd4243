-- ===== src/Security.antt =====
-- The shared security package (packages/security).
pub mod Context
pub mod Laws
pub mod Governance
pub mod Scoped
pub mod Oversight
mod Tests
