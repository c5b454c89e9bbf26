-- ===== src/Drift/Model.antt =====
-- The types of packages/core/src/domain/drift.ts, and the options of
-- packages/core/src/drift-lifecycle.ts. A field that the code reads with `??` or tests is optional, as
-- findings from outside lack it. A grace period is a whole number of hours.
use access_kit.Prelude.{ℕ, String, Bool, Option, List}
use access_kit.Domain.{CanonicalId, IsoDateTime}
use access_kit.Domain.Json.{JsonRecord}

pub data Severity : Type 0 where
  low medium high critical : Severity

pub data DriftState : Type 0 where
  open_state triaged accepted remediation_pending repairing resolved expired_exception : DriftState

pub data FindingStatus : Type 0 where
  open_status accepted repairing resolved : FindingStatus

pub data RecommendedAction : Type 0 where
  revoke exception repair review : RecommendedAction

pub data Trigger : Type 0 where
  manual scheduled : Trigger

pub data Cadence : Type 0 where
  manual hourly daily weekly : Cadence

pub record Schedule : Type 0 where
  pub cadence : Cadence
  pub scheduled_at : IsoDateTime
  pub window_start : Option IsoDateTime
  pub window_end : Option IsoDateTime
  pub next_run_at : Option IsoDateTime
  pub grace_period_hours : ℕ
  pub overdue : Bool

pub record PartialSchedule : Type 0 where
  pub cadence : Option Cadence
  pub scheduled_at : Option IsoDateTime
  pub window_start : Option IsoDateTime
  pub window_end : Option IsoDateTime
  pub next_run_at : Option IsoDateTime
  pub grace_period_hours : Option ℕ
  pub overdue : Option Bool

-- A policy with every key; the value of one is `none` where it is undefined.
pub record RepairPolicy : Type 0 where
  pub enabled : Option Bool
  pub allowed_actions : Option (List RecommendedAction)
  pub max_severity : Option Severity
  pub require_approval : Option Bool
  pub require_connector_readiness : Option Bool
  pub live_provider_writes : Option Bool
  pub reason : Option String

-- A policy with some of the keys: `none` where a key is missing, `some none` where it is undefined.
pub record PartialRepairPolicy : Type 0 where
  pub enabled : Option (Option Bool)
  pub allowed_actions : Option (Option (List RecommendedAction))
  pub max_severity : Option (Option Severity)
  pub require_approval : Option (Option Bool)
  pub require_connector_readiness : Option (Option Bool)
  pub live_provider_writes : Option (Option Bool)
  pub reason : Option (Option String)

pub record HookEvidence : Type 0 where
  pub system : String
  pub reference_id : CanonicalId
  pub status : String
  pub recorded_at : IsoDateTime

-- The remediation evidence is passed on unread, so it stays JSON.
pub record DriftFinding : Type 0 where
  pub id : CanonicalId
  pub created_at : IsoDateTime
  pub detected_at : Option IsoDateTime
  pub severity : Severity
  pub recommended_action : RecommendedAction
  pub status : FindingStatus
  pub native_grant_id : Option CanonicalId
  pub lifecycle_state : Option DriftState
  pub owner_id : Option CanonicalId
  pub assignee_id : Option CanonicalId
  pub exception_expires_at : Option IsoDateTime
  pub scheduled_reconciliation : Option Schedule
  pub hook_evidence : Option (List HookEvidence)
  pub remediation : Option JsonRecord
  pub auto_repair_policy : Option PartialRepairPolicy

pub record LifecycleOptions : Type 0 where
  pub now : Option IsoDateTime
  pub trigger : Option Trigger
  pub schedule : Option PartialSchedule
  pub owner_id : Option CanonicalId
  pub assignee_id : Option CanonicalId
  pub native_grant_id : Option CanonicalId
  pub hook_evidence : Option (List HookEvidence)
  pub auto_repair_policy : Option PartialRepairPolicy
