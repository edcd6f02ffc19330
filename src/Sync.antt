-- ===== src/Sync.antt =====
-- packages/business-logic/src/sync: the rules that a client and the server must agree on, and push and
-- pull of apps/api/src/modules/sync/sync.service.ts that use them.
pub mod Cursor
pub mod Conflict
pub mod Pull
pub mod Push
mod Tests
