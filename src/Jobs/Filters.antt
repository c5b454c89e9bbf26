-- ===== src/Jobs/Filters.antt =====
-- The filters of the reads in packages/core/src/reference-job-queue.ts and
-- packages/core/src/drift-finding-filter.ts, and the request for a provisioning job.
use access_kit.Prelude.{
  ℕ, String, Bool, true, false, ◌&&◌, ◌||◌, Option, none, some, [], ◌∷◌, ◌==◌, if◌then◌else◌,
  ◌otherwise◌, or_else,
}
use access_kit.Domain.{CanonicalId, IsoDateTime}
use access_kit.Domain.Json.{
  JsonRecord, Json, undefined, null, bool, num, text, arr, obj, Items, nil, cons, value_of,
}
use access_kit.Jobs.Model.{
  JobKind, provisioning, revocation, JobPriority, emergency, JobStatus, BackoffPolicy, QueuedJob,
}
use access_kit.Domain.Encoding.{fields}
use access_kit.Jobs.Encoding.{kind_text, status_text}
use access_kit.Jobs.Snapshot.{has_text}
use access_kit.Jobs.Requests.{EnqueueRequest}

-- `!filter || value === filter`.
abbrev pub matches : Option String → String → JsonRecord → Bool
matches none key entity = true
matches (some wanted) key entity = (wanted == "") || has_text key wanted entity

pub record JobFilter : Type 0 where
  pub kind : Option JobKind
  pub connector_id : Option CanonicalId
  pub status : Option JobStatus

abbrev kind_matches : Option JobKind → JobKind → Bool
kind_matches none k = true
kind_matches (some wanted) k = kind_text wanted == kind_text k

abbrev status_matches : Option JobStatus → JobStatus → Bool
status_matches none s = true
status_matches (some wanted) s = status_text wanted == status_text s

abbrev connector_matches : Option CanonicalId → CanonicalId → Bool
connector_matches none c = true
connector_matches (some wanted) c = (wanted == "") || wanted == c

abbrev pub job_matches : JobFilter → QueuedJob → Bool
job_matches f j =
    kind_matches f.kind j.kind
    && (connector_matches f.connector_id j.connector_id && status_matches f.status j.status)

-- DriftFindingFilter of packages/core/src/persistence.ts.
pub record DriftFindingFilter : Type 0 where
  pub severity : Option String
  pub status : Option String
  pub lifecycle_state : Option String
  pub owner_id : Option String
  pub assignee_id : Option String

-- matchesDriftFindingFilter of packages/core/src/drift-finding-filter.ts.
unfoldable pub matches_drift_finding_filter : JsonRecord → DriftFindingFilter → Bool
matches_drift_finding_filter finding filter =
    matches filter.severity "severity" finding
    && (matches filter.status "status" finding
        && (matches filter.lifecycle_state "lifecycleState" finding
            && (matches filter.owner_id "ownerId" finding
                && matches filter.assignee_id "assigneeId" finding)))

-- Whether some action or result has `operation === "revoke"`.
unfoldable some_revoke : Items → Bool
some_revoke nil = false
some_revoke (cons undefined xs) = some_revoke xs
some_revoke (cons null xs) = some_revoke xs
some_revoke (cons (bool b) xs) = some_revoke xs
some_revoke (cons (num n) xs) = some_revoke xs
some_revoke (cons (text s) xs) = some_revoke xs
some_revoke (cons (arr ys) xs) = some_revoke xs
some_revoke (cons (obj r) xs) = has_text "operation" "revoke" r || some_revoke xs

abbrev items_of : Json → Items
items_of undefined = nil
items_of null = nil
items_of (bool b) = nil
items_of (num n) = nil
items_of (text s) = nil
items_of (arr xs) = xs
items_of (obj r) = nil

unfoldable pub plan_has_revocation : Option JsonRecord → Bool
unfolding some_revoke
plan_has_revocation none = false
plan_has_revocation (some plan) = some_revoke (items_of (value_of plan "actions"))

unfoldable pub job_has_revocation : JsonRecord → Bool
unfolding some_revoke
job_has_revocation job = some_revoke (items_of (value_of job "actionResults"))

-- The text at a key, if it is one.
abbrev pub text_at : String → JsonRecord → Option String
text_at key r = elim (value_of r key) [
  | undefined ↦ none
  | null ↦ none
  | bool b ↦ none
  | num n ↦ none
  | text s ↦ some s
  | arr xs ↦ none
  | obj o ↦ none
]

abbrev object_at : String → JsonRecord → Option JsonRecord
object_at key r = elim (value_of r key) [
  | undefined ↦ none
  | null ↦ none
  | bool b ↦ none
  | num n ↦ none
  | text s ↦ none
  | arr xs ↦ none
  | obj o ↦ some o
]

abbrev from_plan {ℓ} : {A : Type ℓ} → (JsonRecord → Option A) → Option JsonRecord → Option A
from_plan f none = none
from_plan f (some plan) = f plan

pub record ProvisioningOptions : Type 0 where
  pub plan : Option JsonRecord
  pub requested_at : Option IsoDateTime
  pub priority : Option JobPriority
  pub max_attempts : Option ℕ
  pub backoff : Option BackoffPolicy
  pub readiness_report_id : Option CanonicalId

-- The request of enqueueProvisioningJob, once the plan was read.
unfoldable pub provisioning_request :
    JsonRecord → Option JsonRecord → ProvisioningOptions → EnqueueRequest
unfolding plan_has_revocation job_has_revocation
provisioning_request job plan options =
    let revokes = plan_has_revocation plan || job_has_revocation job in
    record {
      kind = if revokes then revocation else provisioning;
      connector_id = text_at "connectorId" job otherwise "";
      idempotency_key = text_at "idempotencyKey" job otherwise "";
      payload = fields (
          ("jobId", value_of job "id")
          ∷ ("planId", value_of job "planId")
          ∷ ("connectorId", value_of job "connectorId")
          ∷ ("mode", value_of job "mode")
          ∷ ("dryRun", value_of job "dryRun")
          ∷ ("status", value_of job "status")
          ∷ []);
      priority = or_else options.priority (if revokes then some emergency else none);
      requested_at = options.requested_at;
      max_attempts = options.max_attempts;
      backoff = options.backoff;
      approval = or_else (object_at "approval" job) (from_plan (object_at "approval") plan);
      control = or_else (object_at "control" job) (from_plan (object_at "control") plan);
      readiness_report_id =
          or_else options.readiness_report_id (from_plan (text_at "readinessReportId") plan);
      replayed_from_job_id = none;
    }
