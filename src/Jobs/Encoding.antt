-- ===== src/Jobs/Encoding.antt =====
-- The JSON of the queue and of the job snapshot, as stableHash of packages/core/src/repository-envelopes.ts
-- and the search for secret material read it.
use access_kit.Prelude.{String, [], ◌∷◌}
use access_kit.Domain.Json.{Json, text, arr, obj}
use access_kit.Domain.Encoding.{number, optional, array, fields}
use access_kit.Jobs.Model.{
  JobKind, discovery, reconciliation, provisioning, evidence, revocation, JobPriority, emergency,
  high, normal, low, JobStatus, queued, running, completed, failed, dead_lettered, HealthStatus,
  healthy, degraded, offline, BackoffPolicy, QueuedJob, IdempotencyRecord, ConnectorHealth, Queue,
}

abbrev pub kind_text : JobKind → String
kind_text discovery = "discovery"
kind_text reconciliation = "reconciliation"
kind_text provisioning = "provisioning"
kind_text evidence = "evidence"
kind_text revocation = "revocation"

abbrev pub priority_text : JobPriority → String
priority_text emergency = "emergency"
priority_text high = "high"
priority_text normal = "normal"
priority_text low = "low"

abbrev pub status_text : JobStatus → String
status_text queued = "queued"
status_text running = "running"
status_text completed = "completed"
status_text failed = "failed"
status_text dead_lettered = "dead_lettered"

abbrev health_text : HealthStatus → String
health_text healthy = "healthy"
health_text degraded = "degraded"
health_text offline = "offline"

unfoldable pub backoff_json : BackoffPolicy → Json
backoff_json b = obj (
    fields (
      ("strategy", text "exponential")
      ∷ ("initialDelayMs", number b.initial_delay_ms)
      ∷ ("maxDelayMs", number b.max_delay_ms)
      ∷ ("multiplier", optional number b.multiplier)
      ∷ []))

unfoldable pub job_json : QueuedJob → Json
unfolding backoff_json
job_json j = obj (
    fields (
      ("id", text j.id)
      ∷ ("kind", text (kind_text j.kind))
      ∷ ("connectorId", text j.connector_id)
      ∷ ("status", text (status_text j.status))
      ∷ ("priority", text (priority_text j.priority))
      ∷ ("idempotencyKey", text j.idempotency_key)
      ∷ ("requestHash", text j.request_hash)
      ∷ ("payload", obj j.payload)
      ∷ ("attempts", number j.attempts)
      ∷ ("maxAttempts", number j.max_attempts)
      ∷ ("backoff", backoff_json j.backoff)
      ∷ ("requestedAt", text j.requested_at)
      ∷ ("availableAt", text j.available_at)
      ∷ ("updatedAt", text j.updated_at)
      ∷ ("workerId", optional text j.worker_id)
      ∷ ("startedAt", optional text j.started_at)
      ∷ ("leaseExpiresAt", optional text j.lease_expires_at)
      ∷ ("completedAt", optional text j.completed_at)
      ∷ ("failedAt", optional text j.failed_at)
      ∷ ("deadLetteredAt", optional text j.dead_lettered_at)
      ∷ ("lastError", optional text j.last_error)
      ∷ ("replayedFromJobId", optional text j.replayed_from_job_id)
      ∷ ("approval", optional obj j.approval)
      ∷ ("control", optional obj j.control)
      ∷ ("readinessReportId", optional text j.readiness_report_id)
      ∷ ("version", text "production-queued-job:v1")
      ∷ []))

unfoldable pub health_json : ConnectorHealth → Json
health_json h = obj (
    fields (
      ("connectorId", text h.connector_id)
      ∷ ("status", text (health_text h.status))
      ∷ ("updatedAt", text h.updated_at)
      ∷ ("reason", optional text h.reason)
      ∷ ("lastSuccessAt", optional text h.last_success_at)
      ∷ ("lastFailureAt", optional text h.last_failure_at)
      ∷ ("version", text "production-connector-health:v1")
      ∷ []))

unfoldable pub idempotency_json : IdempotencyRecord → Json
idempotency_json i = obj (
    fields (
      ("idempotencyKey", text i.idempotency_key)
      ∷ ("jobId", text i.job_id)
      ∷ ("requestHash", text i.request_hash)
      ∷ ("recordedAt", text i.recorded_at)
      ∷ ("version", text "production-job-idempotency:v1")
      ∷ []))

unfoldable pub queue_json : Queue → Json
unfolding job_json health_json idempotency_json
queue_json q = obj (
    fields (
      ("queuedJobs", arr (array job_json q.queued_jobs))
      ∷ ("connectorHealth", arr (array health_json q.connector_health))
      ∷ ("idempotencyRecords", arr (array idempotency_json q.idempotency_records))
      ∷ []))
