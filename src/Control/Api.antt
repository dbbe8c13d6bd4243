-- ===== src/Control/Api.antt =====
-- The handlers of the control API (apps/platform-control-api/src/server.ts) over the in-memory
-- store. A handler returns the new store and its answer; `clock i` is the i-th time that the request
-- reads the clock, `uuid` the random identifier that it draws.
pub mod Changes
pub mod States
pub mod Governance
pub mod Approval
pub mod Steps
pub mod Keeps
pub mod System
pub mod Cleared
pub mod Production
