-- ===== src/Jobs/Model.antt =====
-- The jobs, the connectors and the queue of packages/core/src/reference-job-queue.ts. Attempts and
-- milliseconds are whole numbers. Approvals and controls are JSON, and `version` is no field, as it has
-- one value for each type.
use access_kit.Prelude.{ℕ, String, Option, List}
use access_kit.Domain.{CanonicalId, IsoDateTime}
use access_kit.Domain.Json.{JsonRecord}

pub data JobKind : Type 0 where
  discovery reconciliation provisioning evidence revocation : JobKind

pub data JobPriority : Type 0 where
  emergency high normal low : JobPriority

pub data JobStatus : Type 0 where
  queued running completed failed dead_lettered : JobStatus

pub data HealthStatus : Type 0 where
  healthy degraded offline : HealthStatus

pub record BackoffPolicy : Type 0 where
  pub initial_delay_ms : ℕ
  pub max_delay_ms : ℕ
  pub multiplier : Option ℕ

pub record QueuedJob : Type 0 where
  pub id : CanonicalId
  pub kind : JobKind
  pub connector_id : CanonicalId
  pub status : JobStatus
  pub priority : JobPriority
  pub idempotency_key : String
  pub request_hash : String
  pub payload : JsonRecord
  pub attempts : ℕ
  pub max_attempts : ℕ
  pub backoff : BackoffPolicy
  pub requested_at : IsoDateTime
  pub available_at : IsoDateTime
  pub updated_at : IsoDateTime
  pub worker_id : Option CanonicalId
  pub started_at : Option IsoDateTime
  pub lease_expires_at : Option IsoDateTime
  pub completed_at : Option IsoDateTime
  pub failed_at : Option IsoDateTime
  pub dead_lettered_at : Option IsoDateTime
  pub last_error : Option String
  pub replayed_from_job_id : Option CanonicalId
  pub approval : Option JsonRecord
  pub control : Option JsonRecord
  pub readiness_report_id : Option CanonicalId

pub record IdempotencyRecord : Type 0 where
  pub idempotency_key : String
  pub job_id : CanonicalId
  pub request_hash : String
  pub recorded_at : IsoDateTime

pub record ConnectorHealth : Type 0 where
  pub connector_id : CanonicalId
  pub status : HealthStatus
  pub updated_at : IsoDateTime
  pub reason : Option String
  pub last_success_at : Option IsoDateTime
  pub last_failure_at : Option IsoDateTime

pub record Queue : Type 0 where
  pub queued_jobs : List QueuedJob
  pub connector_health : List ConnectorHealth
  pub idempotency_records : List IdempotencyRecord

-- RequiredQueueRequest.
pub record QueueRequest : Type 0 where
  pub kind : JobKind
  pub connector_id : CanonicalId
  pub idempotency_key : String
  pub payload : JsonRecord
  pub priority : JobPriority
  pub requested_at : IsoDateTime
  pub max_attempts : ℕ
  pub backoff : BackoffPolicy
  pub approval : Option JsonRecord
  pub control : Option JsonRecord
  pub readiness_report_id : Option CanonicalId
  pub request_hash : String
  pub replayed_from_job_id : Option CanonicalId
