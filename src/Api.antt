-- ===== src/Api.antt =====
-- The public API (apps/api).
pub mod RateLimit
pub mod Requests
pub mod Idempotency
mod Tests
