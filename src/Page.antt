-- ===== src/Page.antt =====
-- dsh/packages/dsh/src/client/page-state.ts: what the SoulMirror page shows. The children model the
-- thread of messages and the selection.
pub mod Entry
pub mod Thread
pub mod Selection
mod Tests
