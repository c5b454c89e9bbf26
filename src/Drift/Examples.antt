-- ===== src/Drift/Examples.antt =====
-- A finding enriched twice, and the theorems at it.
use access_kit.Prelude.{
  ℕ, String, not, ◌&&◌, some, none, ◌≡◌, refl, arith, eq_iff, if◌then◌else◌, ◌==◌,
}
use access_kit.Domain.Dates.{Dates, later}
use access_kit.Drift.Lifecycle
use access_kit.Drift.Model.{
  critical, repair, open_status, DriftFinding, RepairPolicy, Schedule, Trigger, daily,
}
use access_kit.Drift.Lifecycle.{
  no_schedule, whole, enrich_drift_finding_lifecycle, create_default_repair_policy,
  drift_severity_allowed, build_reconciliation_schedule, default_grace_period_hours, add_hours,
  interval_hours,
}
use access_kit.Drift.Laws.{
  IsOff, no_options, is_manual, due, IsWritten, enrich-IsOff, enrich-twice, build_schedule-overdue,
}

-- Two dates, a day apart.
abbrev dates : Dates
dates = record {
  parse = λ s. if s == "monday" then some 1 else if s == "tuesday" then some 86400001 else none;
  to_iso_string = λ n. "tuesday";
}

abbrev finding : DriftFinding
finding = record {
  id = "f1";
  created_at = "monday";
  detected_at = none;
  severity = critical;
  recommended_action = repair;
  status = open_status;
  native_grant_id = none;
  lifecycle_state = none;
  owner_id = none;
  assignee_id = none;
  exception_expires_at = none;
  scheduled_reconciliation = none;
  hook_evidence = none;
  remediation = none;
  auto_repair_policy = none;
}

enriched_finding :
    (result : DriftFinding) × (enrich_drift_finding_lifecycle dates finding no_options
      ≡ some result)
unfolding enrich_drift_finding_lifecycle build_reconciliation_schedule Lifecycle.next_scheduled_run
enriched_finding = (_, refl)

enrich-IsOff_example :
    (p : RepairPolicy) × (enriched_finding.0.auto_repair_policy ≡ some (whole p)) × IsOff p
enrich-IsOff_example =
    enrich-IsOff dates finding enriched_finding.0 no_options enriched_finding.1 tt tt

enrich-twice_example :
    enrich_drift_finding_lifecycle dates enriched_finding.0 no_options ≡ some enriched_finding.0
enrich-twice_example = enrich-twice dates finding enriched_finding.0 no_options enriched_finding.1

daily_schedule :
    (s : Schedule) × (build_reconciliation_schedule dates "tuesday" Trigger.scheduled
        (record no_schedule { cadence = some daily; scheduled_at = some "monday" })
      ≡ some s)
unfolding build_reconciliation_schedule Lifecycle.next_scheduled_run
daily_schedule = (_, refl)

abbrev tuesday : String
tuesday = "tuesday"

daily-IsWritten :
    (n : ℕ) → add_hours (dates.parse "monday") (interval_hours daily) ≡ some n → IsWritten dates n
daily-IsWritten n e = (ground (arith, e), λ f. ground (arith, f, eq_iff tuesday ""))

build_schedule-overdue_example : daily_schedule.0.overdue ≡ (
    not (is_manual daily)
    && later (dates.parse "tuesday") (due dates "monday" daily (default_grace_period_hours daily)))
build_schedule-overdue_example =
    build_schedule-overdue dates "tuesday" "monday" Trigger.scheduled daily daily_schedule.0
      daily-IsWritten daily_schedule.1
