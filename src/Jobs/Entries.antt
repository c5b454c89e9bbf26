-- ===== src/Jobs/Entries.antt =====
-- The entries of the queue of packages/core/src/reference-job-queue.ts, and what enqueueJob makes of
-- the queue that a commit reads. Where it throws, the answer is `none`. The digest of a job's identity
-- is an argument.
use access_kit.Prelude.{
  ℕ, ◌*◌, ◌-◌, ◌^◌, min, String, Bool, true, false, not, ◌&&◌, Option, none, some, List, [], ◌∷◌,
  ◌++◌, if◌then◌else◌, ◌otherwise◌, ◌==◌, truthy, holds, find_by, leb,
}
use access_kit.Domain.{CanonicalId}
use access_kit.Jobs.Text.{queue_id}
use access_kit.Jobs.Model.{
  JobKind, JobPriority, JobStatus, HealthStatus, QueuedJob, IdempotencyRecord, ConnectorHealth,
  Queue, QueueRequest, discovery, reconciliation, provisioning, evidence, revocation, emergency,
  high, normal, low, queued, running, completed, failed, dead_lettered, healthy, degraded, offline,
}

unfoldable pub priority_rank : JobPriority → ℕ
priority_rank emergency = 0
priority_rank high = 1
priority_rank normal = 2
priority_rank low = 3

abbrev pub is_queued : JobStatus → Bool
is_queued queued = true
is_queued running = false
is_queued completed = false
is_queued failed = false
is_queued dead_lettered = false

abbrev pub is_running : JobStatus → Bool
is_running queued = false
is_running running = true
is_running completed = false
is_running failed = false
is_running dead_lettered = false

abbrev is_healthy : HealthStatus → Bool
is_healthy healthy = true
is_healthy degraded = false
is_healthy offline = false

abbrev pub is_emergency_revocation : QueuedJob → Bool
is_emergency_revocation job = elim job.kind [
  | revocation ↦ elim job.priority [
    | emergency ↦ true
    | high ↦ false
    | normal ↦ false
    | low ↦ false
  ]
  | discovery ↦ false
  | reconciliation ↦ false
  | provisioning ↦ false
  | evidence ↦ false
]

unfoldable pub is_connector_reservable : QueuedJob → Queue → Bool
is_connector_reservable job queue =
    elim (find_by (λ h. h.connector_id == job.connector_id) queue.connector_health) [
      | none ↦ true
      | some h ↦ if is_healthy h.status then true else is_emergency_revocation job
    ]

-- upsertById: the first entry of the id is replaced, or the item goes to the end.
unfoldable pub upsert_by_id : List QueuedJob → QueuedJob → List QueuedJob
upsert_by_id [] job = job ∷ []
upsert_by_id (j ∷ js) job = if j.id == job.id then job ∷ js else j ∷ upsert_by_id js job

-- upsertByConnectorId.
unfoldable pub upsert_by_connector_id :
    List ConnectorHealth → ConnectorHealth → List ConnectorHealth
upsert_by_connector_id [] health = health ∷ []
upsert_by_connector_id (h ∷ hs) health =
    if h.connector_id == health.connector_id
    then health ∷ hs
    else h ∷ upsert_by_connector_id hs health

-- setConnectorHealth.
unfoldable pub set_connector_health : Queue → ConnectorHealth → Option (ConnectorHealth × Queue)
unfolding upsert_by_connector_id
set_connector_health queue health = some (
  health,
  record queue { connector_health = upsert_by_connector_id queue.connector_health health },
)

unfoldable pub required_queued_job : Queue → CanonicalId → Option QueuedJob
required_queued_job queue id = find_by (λ j. j.id == id) queue.queued_jobs

-- A power that doubles round to Infinity.
unfoldable pub is_infinite : ℕ → Bool
is_infinite n = leb (2 ^ 1024 - 2 ^ 970) n

abbrev pub backoff_power : QueuedJob → ℕ
backoff_power job = (job.backoff.multiplier otherwise 2) ^ (job.attempts - 1)

-- backoffDelayMs, for whole numbers and a longest delay that doubles hold exactly, below which the
-- products are exact. `none` is NaN, which zero times Infinity is.
unfoldable pub backoff_delay_ms : QueuedJob → Option ℕ
unfolding is_infinite
backoff_delay_ms job =
    if leb job.backoff.initial_delay_ms 0 && is_infinite (backoff_power job)
    then none
    else some (min job.backoff.max_delay_ms (job.backoff.initial_delay_ms * backoff_power job))

-- Two names differ: `workerId && job.workerId && workerId !== job.workerId`.
abbrev pub worker_differs : Option CanonicalId → Option CanonicalId → Bool
worker_differs given held =
    truthy given && (truthy held && not (holds (λ g. holds (λ h. g == h) held) given))

-- The last instant of JavaScript, counted from the first.
abbrev pub last_instant : ℕ
last_instant = 17280000000000000

-- createQueuedJob; `identity` is the digest of the connector, the key and the kind.
unfoldable pub create_queued_job :
    (CanonicalId → String → JobKind → String) → QueueRequest → QueuedJob
create_queued_job identity r = record {
  id = queue_id (identity r.connector_id r.idempotency_key r.kind);
  kind = r.kind;
  connector_id = r.connector_id;
  status = queued;
  priority = r.priority;
  idempotency_key = r.idempotency_key;
  request_hash = r.request_hash;
  payload = r.payload;
  attempts = 0;
  max_attempts = r.max_attempts;
  backoff = r.backoff;
  requested_at = r.requested_at;
  available_at = r.requested_at;
  updated_at = r.requested_at;
  worker_id = none;
  started_at = none;
  lease_expires_at = none;
  completed_at = none;
  failed_at = none;
  dead_lettered_at = none;
  last_error = none;
  replayed_from_job_id = r.replayed_from_job_id;
  approval = r.approval;
  control = r.control;
  readiness_report_id = r.readiness_report_id;
}

abbrev pub record_of : QueuedJob → IdempotencyRecord
record_of job = record {
  idempotency_key = job.idempotency_key;
  job_id = job.id;
  request_hash = job.request_hash;
  recorded_at = job.requested_at;
}

abbrev pub record_for : QueueRequest → Queue → Option IdempotencyRecord
record_for r queue = find_by (λ i. i.idempotency_key == r.idempotency_key) queue.idempotency_records

-- `(job, queue)`, where there is a job.
abbrev pub with_queue : Queue → Option QueuedJob → Option (QueuedJob × Queue)
with_queue queue none = none
with_queue queue (some job) = some (job, queue)

-- #enqueueNormalizedJob: the job, and the queue after it.
unfoldable pub enqueue_normalized_job :
    (CanonicalId → String → JobKind → String) → Queue → QueueRequest → Option (QueuedJob × Queue)
unfolding create_queued_job required_queued_job
enqueue_normalized_job identity queue r = elim (record_for r queue) [
  | some existing ↦
      if existing.request_hash == r.request_hash
      then with_queue queue (required_queued_job queue existing.job_id)
      else none
  | none ↦
      let job = create_queued_job identity r in
      some (
        job,
        record queue {
          queued_jobs = queue.queued_jobs ++ job ∷ [];
          idempotency_records = queue.idempotency_records ++ record_of job ∷ [];
        },
      )
]
