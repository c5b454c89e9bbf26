-- ===== src/Drift/Laws.antt =====
-- What enrichDriftFindingLifecycle in packages/core/src/drift-lifecycle.ts leaves in a finding.
use access_kit.Prelude.{
  none-ne-some, some-injective, ℕ, String, Bool, true, false, not, ◌&&◌, Option, none, some, ◌≡◌,
  ◌≢◌, refl, sym, ap, subst, ◌∙◌, inl, inr, arith, or_else, Option-cases, eq_iff,
}
use access_kit.Domain.Dates.{Dates, later}
use access_kit.Drift.Model
use access_kit.Drift.Model.{
  Severity, low, medium, high, critical, DriftState, expired_exception, Trigger, Cadence, hourly,
  daily, weekly, Schedule, PartialSchedule, RepairPolicy, PartialRepairPolicy, DriftFinding,
  LifecycleOptions,
}
use access_kit.Drift.Lifecycle.{
  enriched, policy_of, now_of, no_schedule, whole, drift_severity_allowed,
  create_default_repair_policy, override_policy, add_hours, default_grace_period_hours,
  interval_hours, next_scheduled_run, is_schedule_overdue, build_reconciliation_schedule,
  resolve_drift_lifecycle_state, schedule_of, enrich_drift_finding_lifecycle,
}

-- A part that says nothing of the switches that keep auto-repair off.
abbrev pub LeavesOff : Option PartialRepairPolicy → Type 0
LeavesOff none = Unit
LeavesOff (some part) =
    (part.enabled ≡ none) × (part.require_approval ≡ none) × (part.live_provider_writes ≡ none)

abbrev pub IsOff : RepairPolicy → Type 0
IsOff p =
    (p.enabled ≡ some false)
    × (p.require_approval ≡ some true)
    × (p.live_provider_writes ≡ some false)

override_policy-IsOff :
    (p : RepairPolicy) (part : Option PartialRepairPolicy)
    → LeavesOff part
    → IsOff p
    → IsOff (override_policy p part)
unfolding override_policy
override_policy-IsOff p none h off = off
override_policy-IsOff p (some part) (e, f, g) (a, b, c) = (rw e a, rw f b, rw g c)

-- The severity that the default policy repairs up to is the finding's own, or high for a critical
-- one, which it therefore never covers.
default_policy-severity :
    (severity : Severity) (action : Model.RecommendedAction)
    → (cap : Severity) × ((create_default_repair_policy severity action).max_severity ≡ some cap)
      × (drift_severity_allowed severity cap ≡ not (drift_severity_allowed critical severity))
unfolding drift_severity_allowed create_default_repair_policy
default_policy-severity low action = (_, refl, refl)
default_policy-severity medium action = (_, refl, refl)
default_policy-severity high action = (_, refl, refl)
default_policy-severity critical action = (_, refl, refl)

abbrev pub no_options : LifecycleOptions
no_options = record {
  now = none;
  trigger = none;
  schedule = none;
  owner_id = none;
  assignee_id = none;
  native_grant_id = none;
  hook_evidence = none;
  auto_repair_policy = none;
}

or_else-none : {A : Type 0} (o : Option A) → or_else o none ≡ o
or_else-none none = refl
or_else-none (some a) = refl

-- A policy with every key replaces any other.
override_policy-whole : (p q : RepairPolicy) → override_policy p (some (whole q)) ≡ q
unfolding override_policy
override_policy-whole p q = refl

abbrev pub is_manual : Cadence → Bool
is_manual Cadence.manual = true
is_manual hourly = false
is_manual daily = false
is_manual weekly = false

module _ (dates : Dates) where
  enrich-enriched :
      (finding result : DriftFinding) (options : LifecycleOptions)
      → enrich_drift_finding_lifecycle dates finding options ≡ some result
      → (schedule : Schedule) × (result ≡ enriched dates finding options schedule)
  unfolding enrich_drift_finding_lifecycle
  enrich-enriched finding result options h =
      elim (Option-cases (schedule_of dates finding options (now_of dates finding options))) [
        | inl e ↦
            absurd (none-ne-some result (sym (rw (e, enrich_drift_finding_lifecycle) refl) ∙ h))
        | inr (schedule, e) ↦ (
          schedule,
          sym (some-injective _ result (sym (rw (e, enrich_drift_finding_lifecycle) refl) ∙ h)),
        )
      ]

  -- An enriched finding has a policy, and unless its own or the caller's says otherwise that policy
  -- keeps repairs off, asks for approval and writes to no live provider.
  pub enrich-IsOff :
      (finding result : DriftFinding) (options : LifecycleOptions)
      → enrich_drift_finding_lifecycle dates finding options ≡ some result
      → LeavesOff finding.auto_repair_policy
      → LeavesOff options.auto_repair_policy
      → (p : RepairPolicy) × (result.auto_repair_policy ≡ some (whole p)) × IsOff p
  unfolding create_default_repair_policy
  enrich-IsOff finding result options h own given =
      let (schedule, e) = enrich-enriched finding result options h in
      (
        policy_of dates finding options,
        ap (λ (x : DriftFinding). x.auto_repair_policy) e,
        override_policy-IsOff _ options.auto_repair_policy given
            (override_policy-IsOff _ finding.auto_repair_policy own (refl, refl, refl)),
      )

  policy_again :
      (finding : DriftFinding) (options : LifecycleOptions) (schedule : Schedule)
      → policy_of dates (enriched dates finding options schedule) no_options
        ≡ policy_of dates finding options
  unfolding create_default_repair_policy override_policy
  policy_again finding options schedule =
      override_policy-whole
        (create_default_repair_policy finding.severity finding.recommended_action)
        (policy_of dates finding options)

  enriched_again :
      (finding : DriftFinding) (options : LifecycleOptions) (schedule : Schedule)
      → enrich_drift_finding_lifecycle dates (enriched dates finding options schedule) no_options
        ≡ some (enriched dates finding options schedule)
  unfolding enrich_drift_finding_lifecycle resolve_drift_lifecycle_state
  enriched_again finding options schedule i =
      some (record (enriched dates finding options schedule) {
        native_grant_id = or_else-none (or_else finding.native_grant_id options.native_grant_id) i;
        auto_repair_policy = some (whole (policy_again finding options schedule i));
      })

  -- Enriching an enriched finding again, without options, changes nothing.
  pub enrich-twice :
      (finding result : DriftFinding) (options : LifecycleOptions)
      → enrich_drift_finding_lifecycle dates finding options ≡ some result
      → enrich_drift_finding_lifecycle dates result no_options ≡ some result
  enrich-twice finding result options h =
      let (schedule, e) = enrich-enriched finding result options h in
      subst (λ x. enrich_drift_finding_lifecycle dates x no_options ≡ some x) (sym e)
        (enriched_again finding options schedule)

  -- When the run after this one is due with its grace: later by the cadence's hours and by those.
  abbrev pub due : String → Cadence → ℕ → Option ℕ
  due scheduled_at cadence grace =
      add_hours (add_hours (dates.parse scheduled_at) (interval_hours cadence)) grace

  -- An instant is written as a text that reads as it.
  abbrev pub IsWritten : ℕ → Type 0
  IsWritten n = (dates.parse (dates.to_iso_string n) ≡ some n) × (dates.to_iso_string n ≢ "")

  overdue-later :
      (now : String) (at grace : ℕ)
      → IsWritten at
      → is_schedule_overdue dates now (some (dates.to_iso_string at)) grace
        ≡ later (dates.parse now) (add_hours (some at) grace)
  unfolding is_schedule_overdue
  overdue-later now at grace (back, some_text) =
      rw back (ground (arith, some_text, eq_iff (dates.to_iso_string at) ""))

  abbrev made : String → String → Trigger → Cadence → Option Schedule
  made now scheduled_at trigger cadence =
      build_reconciliation_schedule dates now trigger
        (record no_schedule { cadence = some cadence; scheduled_at = some scheduled_at })

  abbrev overdue_of : Option Schedule → Bool
  overdue_of none = false
  overdue_of (some s) = s.overdue

  -- A schedule made for a cadence and a date alone, where the date of the next run is written as a
  -- text that reads as it, is overdue exactly when the date, the cadence's hours and its hours of
  -- grace lie before now; a manual one never is.
  pub build_schedule-overdue :
      (now scheduled_at : String) (trigger : Trigger) (cadence : Cadence) (s : Schedule)
      → ((n : ℕ)
          → add_hours (dates.parse scheduled_at) (interval_hours cadence) ≡ some n
          → IsWritten n)
      → build_reconciliation_schedule dates now trigger
          (record no_schedule { cadence = some cadence; scheduled_at = some scheduled_at })
        ≡ some s
      → s.overdue ≡ (
          not (is_manual cadence)
          && later
              (dates.parse now)
              (due scheduled_at cadence (default_grace_period_hours cadence)))
  unfolding build_reconciliation_schedule next_scheduled_run is_schedule_overdue
      default_grace_period_hours
  build_schedule-overdue now scheduled_at trigger Cadence.manual s back h = sym (ap overdue_of h)
  build_schedule-overdue now scheduled_at trigger hourly s back h =
      elim (Option-cases (add_hours (dates.parse scheduled_at) 1)) [
        | inl e ↦ absurd (ground (arith, e))
        | inr (at, e) ↦
            sym (ap overdue_of h)
            ∙ rw (e, build_reconciliation_schedule) (overdue-later now at 2 (back at e))
      ]
  build_schedule-overdue now scheduled_at trigger daily s back h =
      elim (Option-cases (add_hours (dates.parse scheduled_at) 24)) [
        | inl e ↦ absurd (ground (arith, e))
        | inr (at, e) ↦
            sym (ap overdue_of h)
            ∙ rw (e, build_reconciliation_schedule) (overdue-later now at 24 (back at e))
      ]
  build_schedule-overdue now scheduled_at trigger weekly s back h =
      elim (Option-cases (add_hours (dates.parse scheduled_at) 168)) [
        | inl e ↦ absurd (ground (arith, e))
        | inr (at, e) ↦
            sym (ap overdue_of h)
            ∙ rw (e, build_reconciliation_schedule) (overdue-later now at 48 (back at e))
      ]
