-- ===== src/Decision/Runtime.antt =====
-- packages/core/src/decision-runtime.ts: version pins, the traversal guard, latency targets.
pub mod Guard
pub mod Pins
pub mod CacheMetadata
pub mod Limits
