-- ===== src/Store.antt =====
-- InMemoryRebacStore in packages/core/src/store.ts.
pub mod Graph
pub mod Index
pub mod Examples
