-- ===== src/Drift/Lifecycle.antt =====
-- packages/core/src/drift-lifecycle.ts. A date past the last one of JavaScript, or no date, makes
-- `toISOString` throw: `none`.
use access_kit.Prelude.{
  ℕ, ◌+◌, ◌*◌, Bool, true, false, ◌&&◌, Option, none, some, List, [], ◌∷◌, if◌then◌else◌,
  ◌otherwise◌, or_else, leb, truthy, holds,
}
use access_kit.Domain.{CanonicalId, IsoDateTime}
use access_kit.Domain.Json.{end}
use access_kit.Domain.Dates.{Dates, later, at_most}
use access_kit.Drift.Model.{
  Severity, DriftState, FindingStatus, RecommendedAction, Trigger, Cadence, Schedule,
  PartialSchedule, RepairPolicy, PartialRepairPolicy, DriftFinding, LifecycleOptions, low, medium,
  high, critical, open_state, expired_exception, open_status, revoke, exception, repair, review,
  scheduled, hourly, daily, weekly,
}

abbrev pub severity_rank : Severity → ℕ
severity_rank low = 1
severity_rank medium = 2
severity_rank high = 3
severity_rank critical = 4

unfoldable pub drift_severity_allowed : Severity → Severity → Bool
drift_severity_allowed finding_severity max_severity =
    leb (severity_rank finding_severity) (severity_rank max_severity)

unfoldable pub default_drift_owner : Severity → CanonicalId
default_drift_owner critical = "role:security-operations"
default_drift_owner high = "role:security-operations"
default_drift_owner medium = "role:resource-owner"
default_drift_owner low = "role:resource-owner"

unfoldable pub default_drift_assignee : Severity → CanonicalId
default_drift_assignee critical = "role:incident-commander"
default_drift_assignee high = "role:security-engineer"
default_drift_assignee medium = "role:security-engineer"
default_drift_assignee low = "role:security-engineer"

unfoldable pub default_grace_period_hours : Cadence → ℕ
default_grace_period_hours Cadence.manual = 0
default_grace_period_hours hourly = 2
default_grace_period_hours daily = 24
default_grace_period_hours weekly = 48

abbrev allowed_by_default : RecommendedAction → List RecommendedAction
allowed_by_default revoke = revoke ∷ []
allowed_by_default repair = repair ∷ []
allowed_by_default exception = []
allowed_by_default review = []

abbrev cap_severity : Severity → Severity
cap_severity critical = high
cap_severity high = high
cap_severity medium = medium
cap_severity low = low

unfoldable pub create_default_repair_policy : Severity → RecommendedAction → RepairPolicy
create_default_repair_policy severity recommended_action = record {
  enabled = some false;
  allowed_actions = some (allowed_by_default recommended_action);
  max_severity = some (cap_severity severity);
  require_approval = some true;
  require_connector_readiness = some true;
  live_provider_writes = some false;
  reason =
      some
        "Auto-repair remains disabled until approval, connector readiness, and live-write policy controls explicitly allow it.";
}

-- `{ ...policy, ...part }`: a key that is missing changes nothing, and one that is undefined overrides.
unfoldable pub override_policy : RepairPolicy → Option PartialRepairPolicy → RepairPolicy
override_policy policy none = policy
override_policy policy (some part) = record {
  enabled = part.enabled otherwise policy.enabled;
  allowed_actions = part.allowed_actions otherwise policy.allowed_actions;
  max_severity = part.max_severity otherwise policy.max_severity;
  require_approval = part.require_approval otherwise policy.require_approval;
  require_connector_readiness =
      part.require_connector_readiness otherwise policy.require_connector_readiness;
  live_provider_writes = part.live_provider_writes otherwise policy.live_provider_writes;
  reason = part.reason otherwise policy.reason;
}

-- The last instant of JavaScript, counted from the first.
abbrev last_instant : ℕ
last_instant = 17280000000000000

-- `date.setUTCHours(date.getUTCHours() + hours)`; no date stays none.
abbrev pub add_hours : Option ℕ → ℕ → Option ℕ
add_hours none hours = none
add_hours (some at) hours =
    let after = at + hours * 3600000 in if leb after last_instant then some after else none

abbrev pub interval_hours : Cadence → ℕ
interval_hours Cadence.manual = 0
interval_hours hourly = 1
interval_hours daily = 24
interval_hours weekly = 168

-- The state of a finding that has none.
abbrev pub state_of_status : FindingStatus → DriftState
state_of_status open_status = open_state
state_of_status FindingStatus.accepted = DriftState.accepted
state_of_status FindingStatus.repairing = DriftState.repairing
state_of_status FindingStatus.resolved = DriftState.resolved

abbrev pub no_schedule : PartialSchedule
no_schedule = record {
  cadence = none;
  scheduled_at = none;
  window_start = none;
  window_end = none;
  next_run_at = none;
  grace_period_hours = none;
  overdue = none;
}

-- A policy as a partial one, with every key.
abbrev pub whole : RepairPolicy → PartialRepairPolicy
whole p = record {
  enabled = some p.enabled;
  allowed_actions = some p.allowed_actions;
  max_severity = some p.max_severity;
  require_approval = some p.require_approval;
  require_connector_readiness = some p.require_connector_readiness;
  live_provider_writes = some p.live_provider_writes;
  reason = some p.reason;
}

module _ (dates : Dates) where
  -- What a run at `scheduled_at` is followed by: `some none` for no run, `none` where it throws.
  unfoldable pub next_scheduled_run : IsoDateTime → Cadence → Option (Option IsoDateTime)
  next_scheduled_run scheduled_at Cadence.manual = some none
  next_scheduled_run scheduled_at cadence =
      elim (add_hours (dates.parse scheduled_at) (interval_hours cadence)) [
        | none ↦ none
        | some at ↦ some (some (dates.to_iso_string at))
      ]

  -- `schedule.nextRunAt ?? nextScheduledRun(…)`.
  abbrev next_run : Option IsoDateTime → IsoDateTime → Cadence → Option (Option IsoDateTime)
  next_run (some next) scheduled_at cadence = some (some next)
  next_run none scheduled_at cadence = next_scheduled_run scheduled_at cadence

  unfoldable pub is_schedule_overdue : IsoDateTime → Option IsoDateTime → ℕ → Bool
  is_schedule_overdue now next_run_at grace_period_hours =
      truthy next_run_at
      && holds (λ next. later (dates.parse now) (add_hours (dates.parse next) grace_period_hours))
          next_run_at

  abbrev default_cadence : Trigger → Cadence
  default_cadence Trigger.manual = Cadence.manual
  default_cadence scheduled = daily

  unfoldable pub build_reconciliation_schedule :
      IsoDateTime → Trigger → PartialSchedule → Option Schedule
  unfolding is_schedule_overdue
  build_reconciliation_schedule now trigger schedule =
      let cadence = schedule.cadence otherwise default_cadence trigger in
      let scheduled_at = schedule.scheduled_at otherwise now in
      let grace = schedule.grace_period_hours otherwise default_grace_period_hours cadence in
      elim (next_run schedule.next_run_at scheduled_at cadence) [
        | none ↦ none
        | some next_run_at ↦ some (record {
          cadence = cadence;
          scheduled_at = scheduled_at;
          window_start = schedule.window_start;
          window_end = schedule.window_end;
          next_run_at = next_run_at;
          grace_period_hours = grace;
          overdue = schedule.overdue otherwise is_schedule_overdue now next_run_at grace;
        })
      ]

  unfoldable pub resolve_drift_lifecycle_state : DriftFinding → IsoDateTime → DriftState
  resolve_drift_lifecycle_state finding now = elim finding.lifecycle_state [
    | some state ↦ state
    | none ↦
        if truthy finding.exception_expires_at
          && holds (λ e. at_most (dates.parse e) (dates.parse now)) finding.exception_expires_at
        then expired_exception
        else state_of_status finding.status
  ]

  -- The schedule that the finding has, or a new one.
  abbrev pub schedule_of : DriftFinding → LifecycleOptions → IsoDateTime → Option Schedule
  schedule_of finding options now = elim finding.scheduled_reconciliation [
    | some schedule ↦ some schedule
    | none ↦
        build_reconciliation_schedule now (options.trigger otherwise Trigger.manual)
          (options.schedule otherwise no_schedule)
  ]

  -- The three policies, each over the one before.
  abbrev pub policy_of : DriftFinding → LifecycleOptions → RepairPolicy
  policy_of finding options =
      override_policy
        (override_policy (create_default_repair_policy finding.severity finding.recommended_action)
          finding.auto_repair_policy)
        options.auto_repair_policy

  abbrev pub now_of : DriftFinding → LifecycleOptions → IsoDateTime
  now_of finding options = or_else options.now finding.detected_at otherwise finding.created_at

  -- Every field that was optional and has a default is filled.
  abbrev pub enriched : DriftFinding → LifecycleOptions → Schedule → DriftFinding
  enriched finding options schedule = record finding {
    native_grant_id = or_else finding.native_grant_id options.native_grant_id;
    lifecycle_state = some (resolve_drift_lifecycle_state finding (now_of finding options));
    owner_id =
        some (
          or_else finding.owner_id options.owner_id otherwise default_drift_owner finding.severity);
    assignee_id = some (
        or_else finding.assignee_id options.assignee_id
        otherwise default_drift_assignee finding.severity);
    scheduled_reconciliation = some schedule;
    hook_evidence = some (or_else finding.hook_evidence options.hook_evidence otherwise []);
    remediation = some (finding.remediation otherwise end);
    auto_repair_policy = some (whole (policy_of finding options));
  }

  -- `none` where it throws.
  unfoldable pub enrich_drift_finding_lifecycle :
      DriftFinding → LifecycleOptions → Option DriftFinding
  unfolding build_reconciliation_schedule resolve_drift_lifecycle_state
  enrich_drift_finding_lifecycle finding options =
      elim (schedule_of finding options (now_of finding options)) [
        | none ↦ none
        | some schedule ↦ some (enriched finding options schedule)
      ]
