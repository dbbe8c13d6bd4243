-- ===== src/Control.antt =====
-- The platform control API (apps/platform-control-api).
pub mod Access
pub mod Machine
pub mod Pages
pub mod Store
pub mod Secrets
pub mod Reply
pub mod Api
pub mod Postgres
pub mod Plane
pub mod Overview
pub mod Preview
mod Tests
