-- ===== src/Decision.antt =====
-- The decision engine: packages/core/src/decision-runtime.ts and packages/core/src/engine.ts.
pub mod Runtime
pub mod Visibility
pub mod Cache
pub mod Keys
pub mod Paths
pub mod Caveats
pub mod Engine
pub mod Results
pub mod Evaluate
pub mod Examples
pub mod CaveatExamples
pub mod ValidatedExamples
pub mod RuntimeExamples
pub mod EvaluateExamples
pub mod System
pub mod Search
