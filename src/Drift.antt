-- ===== src/Drift.antt =====
-- The lifecycle of drift findings: packages/core/src/drift-lifecycle.ts.
pub mod Model
pub mod Lifecycle
pub mod Laws
pub mod Examples
