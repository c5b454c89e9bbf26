-- ===== src/Policy.antt =====
-- packages/core/src/policy-model.ts.
pub mod Model
pub mod Compile
pub mod Checks
pub mod CaveatChecks
pub mod ConditionalChecks
pub mod Validation
pub mod Distinct
pub mod Valid
