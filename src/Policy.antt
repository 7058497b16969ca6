-- ===== src/Policy.antt =====
-- web/src/pages/dashboard/policies/lib/policy-text.ts: the policy screen's rule language. A rule's
-- path and its capabilities are strings.
pub mod Glob
pub mod Rules
pub mod Parse
pub mod Editor
pub mod Drafts
mod Tests
