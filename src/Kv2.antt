-- ===== src/Kv2.antt =====
-- web/src/pages/dashboard/kv2/utils.ts: the versioned secrets screen.
pub mod Diff
pub mod Versions
mod Tests
