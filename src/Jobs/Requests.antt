-- ===== src/Jobs/Requests.antt =====
-- What the queue of packages/core/src/reference-job-queue.ts makes of a request before it commits:
-- #normalizeEnqueueRequest, assertEnforcementEvidence, and the requests of replayDeadLetteredJob and
-- enqueueRevocationJob. `now` is what the clock says.
use Prim.Native.String.{slice, ◌++◌}
use access_kit.Prelude.{
  ℕ, String, Bool, true, false, not, ◌&&◌, ◌||◌, Option, none, some, [], ◌∷◌, if◌then◌else◌,
  ◌otherwise◌, is_some, is_empty, truthy,
}
use access_kit.Domain.{CanonicalId, IsoDateTime}
use access_kit.Domain.Json.{
  JsonRecord, end, field, Json, undefined, null, bool, num, text, arr, obj, value_of, put,
}
use access_kit.Audit.Text.{Printer}
use access_kit.Jobs.Model.{
  JobKind, discovery, reconciliation, provisioning, evidence, revocation, JobPriority, emergency,
  normal, JobStatus, queued, running, completed, failed, dead_lettered, BackoffPolicy, QueuedJob,
  QueueRequest,
}
use access_kit.Domain.Encoding.{number, optional, fields}
use access_kit.Jobs.Encoding.{kind_text, priority_text, backoff_json}
use access_kit.Jobs.Snapshot.{stable_hash, hash_of, has_text}

pub record EnqueueRequest : Type 0 where
  pub kind : JobKind
  pub connector_id : CanonicalId
  pub idempotency_key : String
  pub payload : JsonRecord
  pub priority : Option JobPriority
  pub requested_at : Option IsoDateTime
  pub max_attempts : Option ℕ
  pub backoff : Option BackoffPolicy
  pub approval : Option JsonRecord
  pub control : Option JsonRecord
  pub readiness_report_id : Option CanonicalId
  pub replayed_from_job_id : Option CanonicalId

pub record RevocationRequest : Type 0 where
  pub connector_id : CanonicalId
  pub native_grant_id : CanonicalId
  pub idempotency_key : String
  pub requested_at : Option IsoDateTime
  pub reason : Option String
  pub approval : Option JsonRecord
  pub control : Option JsonRecord
  pub readiness_report_id : Option CanonicalId
  pub max_attempts : Option ℕ
  pub backoff : Option BackoffPolicy

abbrev pub default_priority : JobKind → JobPriority
default_priority discovery = normal
default_priority reconciliation = normal
default_priority provisioning = normal
default_priority evidence = normal
default_priority revocation = emergency

abbrev pub default_backoff_policy : BackoffPolicy
default_backoff_policy = record {
  initial_delay_ms = 30000;
  max_delay_ms = 900000;
  multiplier = some 2;
}

abbrev is_false : Json → Bool
is_false undefined = false
is_false null = false
is_false (bool true) = false
is_false (bool false) = true
is_false (num n) = false
is_false (text s) = false
is_false (arr xs) = false
is_false (obj r) = false

abbrev is_provisioning : JobKind → Bool
is_provisioning discovery = false
is_provisioning reconciliation = false
is_provisioning provisioning = true
is_provisioning evidence = false
is_provisioning revocation = false

-- assertEnforcementEvidence does not throw.
unfoldable pub has_enforcement_evidence : QueueRequest → Bool
has_enforcement_evidence r =
    not (is_provisioning r.kind)
    || (not (has_text "mode" "enforcement" r.payload || is_false (value_of r.payload "dryRun"))
        || (is_some r.approval && (is_some r.control && truthy r.readiness_report_id)))

unfoldable pub revocation_request : RevocationRequest → EnqueueRequest
revocation_request r = record {
  kind = revocation;
  connector_id = r.connector_id;
  idempotency_key = r.idempotency_key;
  payload =
      field "nativeGrantId" (text r.native_grant_id)
        (field "reason" (text (r.reason otherwise "operator_requested_revocation")) end);
  priority = some emergency;
  requested_at = r.requested_at;
  max_attempts = r.max_attempts;
  backoff = r.backoff;
  approval = r.approval;
  control = r.control;
  readiness_report_id = r.readiness_report_id;
  replayed_from_job_id = none;
}

abbrev is_dead_lettered : JobStatus → Bool
is_dead_lettered queued = false
is_dead_lettered running = false
is_dead_lettered completed = false
is_dead_lettered failed = false
is_dead_lettered dead_lettered = true

module _ (p : Printer) (digest lower : String → String) (tenant : String) where
  -- The digest in the id of a job: createQueuedJob.
  unfoldable pub job_identity : CanonicalId → String → JobKind → String
  unfolding stable_hash
  job_identity connector_id key kind = stable_hash p digest lower tenant (
      obj (
        fields (
          ("connectorId", text connector_id)
          ∷ ("idempotencyKey", text key)
          ∷ ("kind", text (kind_text kind))
          ∷ [])))

  unfoldable pub hash_of_request : EnqueueRequest → JobPriority → ℕ → BackoffPolicy → String
  unfolding stable_hash backoff_json
  hash_of_request r priority max_attempts backoff = hash_of p digest lower tenant (
      obj (
        fields (
          ("kind", text (kind_text r.kind))
          ∷ ("connectorId", text r.connector_id)
          ∷ ("idempotencyKey", text r.idempotency_key)
          ∷ ("payload", obj r.payload)
          ∷ ("priority", text (priority_text priority))
          ∷ ("maxAttempts", number max_attempts)
          ∷ ("backoff", backoff_json backoff)
          ∷ ("approval", optional obj r.approval)
          ∷ ("control", optional obj r.control)
          ∷ ("readinessReportId", optional text r.readiness_report_id)
          ∷ ("replayedFromJobId", optional text r.replayed_from_job_id)
          ∷ [])))

  unfoldable pub normalize_enqueue_request : EnqueueRequest → IsoDateTime → Option QueueRequest
  unfolding hash_of_request
  normalize_enqueue_request r now =
      let priority = r.priority otherwise default_priority r.kind in
      let max_attempts = r.max_attempts otherwise 3 in
      let backoff = r.backoff otherwise default_backoff_policy in
      if is_empty r.idempotency_key || is_empty r.connector_id
      then none
      else some (record {
        kind = r.kind;
        connector_id = r.connector_id;
        idempotency_key = r.idempotency_key;
        payload = r.payload;
        priority = priority;
        requested_at = r.requested_at otherwise now;
        max_attempts = max_attempts;
        backoff = backoff;
        approval = r.approval;
        control = r.control;
        readiness_report_id = r.readiness_report_id;
        request_hash = hash_of_request r priority max_attempts backoff;
        replayed_from_job_id = r.replayed_from_job_id;
      })

  abbrev replay_key : QueuedJob → IsoDateTime → String
  replay_key job requested_at =
      job.idempotency_key
      ++ ":replay:"
      ++ slice
          (stable_hash p digest lower tenant
            (obj (fields (("jobId", text job.id) ∷ ("requestedAt", text requested_at) ∷ []))))
          0 12

  -- The request that replays a job, if the job is dead-lettered.
  unfoldable pub replay_request : QueuedJob → Option String → IsoDateTime → Option EnqueueRequest
  unfolding stable_hash
  replay_request job idempotency_key requested_at =
      if is_dead_lettered job.status
      then some (record {
        kind = job.kind;
        connector_id = job.connector_id;
        idempotency_key = idempotency_key otherwise replay_key job requested_at;
        payload = put job.payload "replayedFromJobId" (text job.id);
        priority = some job.priority;
        requested_at = some requested_at;
        max_attempts = some job.max_attempts;
        backoff = some job.backoff;
        approval = job.approval;
        control = job.control;
        readiness_report_id = job.readiness_report_id;
        replayed_from_job_id = some job.id;
      })
      else none
