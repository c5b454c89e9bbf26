-- ===== src/Jobs/Queries.antt =====
-- What ReferenceJobQueueAdapter in packages/core/src/reference-job-queue.ts reads from the store, and
-- enqueueProvisioningJob, which reads a plan before it commits. A read that throws is `none`.
use access_kit.Prelude.{
  ℕ, String, Bool, true, ◌&&◌, Option, none, some, List, ◌==◌, if◌then◌else◌, ◌otherwise◌, or_else,
  find_by, filter_by, is_some,
}
use access_kit.Domain.{CanonicalId, IsoDateTime}
use access_kit.Domain.Json.{JsonRecord, obj}
use access_kit.Secrets.{no_secret_material}
use access_kit.Audit.Text.{Printer}
use access_kit.Jobs.Model.{dead_lettered, QueuedJob, Queue, QueueRequest, ConnectorHealth, healthy}
use access_kit.Jobs.Entries.{enqueue_normalized_job, record_for}
use access_kit.Jobs.Snapshot.{JobSnapshot, SnapshotStore, read_current, has_text}
use access_kit.Jobs.Commit.{Outcome, threw, Mutation, commit_snapshot, jobs_of, queue_of}
use access_kit.Jobs.Requests.{has_enforcement_evidence, job_identity, normalize_enqueue_request}
use access_kit.Jobs.Adapter.{upsert_entity}
use access_kit.Jobs.Filters.{
  matches, job_matches, matches_drift_finding_filter, text_at, provisioning_request, JobFilter,
  DriftFindingFilter, ProvisioningOptions,
}

module _ (p : Printer) (digest lower : String → String) (tenant : String) where
  -- What a read finds after #refreshFromStore.
  abbrev refreshed {ℓ} : {A : Type ℓ} → (JobSnapshot → Queue → A) → SnapshotStore → Option A
  refreshed f store = elim (read_current p digest lower tenant store) [
    | none ↦ none
    | some stored ↦ some (f (jobs_of stored) (queue_of stored))
  ]

  unfoldable pub get_queued_job : CanonicalId → SnapshotStore → Option (Option QueuedJob)
  get_queued_job id =
      refreshed (λ jobs queue. find_by (λ (j : QueuedJob). j.id == id) queue.queued_jobs)

  unfoldable pub list_queued_jobs : JobFilter → SnapshotStore → Option (List QueuedJob)
  list_queued_jobs filter =
      refreshed (λ jobs queue. filter_by (job_matches filter) queue.queued_jobs)

  unfoldable pub list_dead_lettered_jobs : SnapshotStore → Option (List QueuedJob)
  unfolding list_queued_jobs
  list_dead_lettered_jobs =
      list_queued_jobs (record { kind = none; connector_id = none; status = some dead_lettered })

  unfoldable pub get_connector_health :
      CanonicalId → IsoDateTime → SnapshotStore → Option ConnectorHealth
  get_connector_health id now = refreshed (λ jobs queue.
      find_by (λ (h : ConnectorHealth). h.connector_id == id) queue.connector_health
      otherwise record {
        connector_id = id;
        status = healthy;
        updated_at = now;
        reason = none;
        last_success_at = none;
        last_failure_at = none;
      })

  unfoldable pub get_provisioning_plan : CanonicalId → SnapshotStore → Option (Option JsonRecord)
  get_provisioning_plan id =
      refreshed (λ jobs queue. find_by (has_text "id" id) jobs.provisioning_plans)

  unfoldable pub list_discovery_runs :
      Option String → Option String → SnapshotStore → Option (List JsonRecord)
  list_discovery_runs connector_id status = refreshed (λ jobs queue.
      filter_by (λ r. matches connector_id "connectorId" r && matches status "status" r)
        jobs.discovery_runs)

  unfoldable pub list_enforcement_readiness_reports :
      Option String → Option String → SnapshotStore → Option (List JsonRecord)
  list_enforcement_readiness_reports connector_id status = refreshed (λ jobs queue.
      filter_by (λ r. matches connector_id "connectorId" r && matches status "status" r)
        jobs.enforcement_readiness_reports)

  unfoldable pub list_governance_findings :
      Option String → Option String → SnapshotStore → Option (List JsonRecord)
  list_governance_findings status severity = refreshed (λ jobs queue.
      filter_by (λ r. matches status "status" r && matches severity "severity" r)
        jobs.governance_findings)

  unfoldable pub list_exception_requests : Option String → SnapshotStore → Option (List JsonRecord)
  list_exception_requests status =
      refreshed (λ jobs queue. filter_by (matches status "status") jobs.exception_requests)

  module _ (others : ℕ → SnapshotStore → SnapshotStore) (now : IsoDateTime) where
    abbrev with_plan : Option JsonRecord → List JsonRecord → List JsonRecord
    with_plan none plans = plans
    with_plan (some plan) plans = upsert_entity "id" plans plan

    abbrev with_entities : JsonRecord → Option JsonRecord → JobSnapshot → JobSnapshot
    with_entities job plan jobs = record jobs {
      provisioning_plans = with_plan plan jobs.provisioning_plans;
      provisioning_jobs = upsert_entity "id" jobs.provisioning_jobs job;
    }

    -- The plan and the job are stored where the request is new.
    unfoldable pub enqueue_with_entities :
        JsonRecord → Option JsonRecord → QueueRequest → Mutation QueuedJob
    unfolding upsert_entity
    enqueue_with_entities job plan r jobs queue =
        elim (enqueue_normalized_job (job_identity p digest lower tenant) queue r) [
          | none ↦ none
          | some (queued_job, q) ↦ some (
            if is_some (record_for r queue) then jobs else with_entities job plan jobs,
            q,
            queued_job,
          )
        ]

    abbrev clean : Option JsonRecord → Bool
    clean none = true
    clean (some r) = no_secret_material lower (obj r)

    abbrev enqueue_with :
        JsonRecord → Option JsonRecord → Option QueueRequest → SnapshotStore → Outcome QueuedJob
    enqueue_with job plan none store = threw store
    enqueue_with job plan (some r) store =
        if has_enforcement_evidence r
          && (no_secret_material lower (obj r.payload)
              && (no_secret_material lower (obj job) && clean plan))
        then commit_snapshot p digest lower tenant (enqueue_with_entities job plan r) r.requested_at
            others store
        else threw store

    -- `options.plan ?? this.getProvisioningPlan(job.planId)`.
    abbrev plan_of : JsonRecord → Option JsonRecord → JobSnapshot → Option JsonRecord
    plan_of job given jobs =
        or_else given
          (find_by (has_text "id" (text_at "planId" job otherwise "")) jobs.provisioning_plans)

    unfoldable pub enqueue_provisioning_job :
        JsonRecord → ProvisioningOptions → SnapshotStore → Outcome QueuedJob
    unfolding provisioning_request normalize_enqueue_request has_enforcement_evidence
        enqueue_with_entities
    enqueue_provisioning_job job options store = elim (read_current p digest lower tenant store) [
      | none ↦ threw store
      | some stored ↦
          let plan = plan_of job options.plan (jobs_of stored) in
          enqueue_with job plan
            (normalize_enqueue_request p digest lower tenant (provisioning_request job plan options)
              now)
            store
    ]

  unfoldable pub list_drift_findings : DriftFindingFilter → SnapshotStore → Option (List JsonRecord)
  unfolding matches_drift_finding_filter
  list_drift_findings filter =
      refreshed
        (λ jobs queue. filter_by (λ f. matches_drift_finding_filter f filter) jobs.drift_findings)
