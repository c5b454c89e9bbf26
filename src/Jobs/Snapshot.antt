-- ===== src/Jobs/Snapshot.antt =====
-- The stored record of the job queue: packages/core/src/reference-job-snapshot-store.ts, the checks of
-- packages/core/src/repository-envelopes.ts and packages/core/src/reference-repository-security-utils.ts,
-- and the in-memory store of packages/core/src/reference-repositories.ts. An entity of a job snapshot is
-- the JSON that it is. Where the code throws, the answer is `none` or `false`; what a type guarantees of
-- a record, such as that a list is an array, is not tested again.
use access_kit.Prelude.{
  String, Bool, true, false, ◌&&◌, Option, none, some, List, [], ◌∷◌, if◌then◌else◌, ◌==◌, length,
  filter_by, ◌≡◌, inl, inr, arith, Option-cases,
}
use access_kit.JsMap
use access_kit.JsMap.{JsMap}
use access_kit.Domain.{CanonicalId, IsoDateTime}
use access_kit.Domain.Json.{JsonRecord, Json, text, arr, obj, value_of, undefined, null, bool, num}
use access_kit.Secrets.{no_secret_material}
use access_kit.Audit.Text.{Printer, stable_stringify, prefixed}
use access_kit.Jobs.Model.{
  Queue, QueuedJob, JobStatus, queued, running, completed, failed, dead_lettered,
}
use access_kit.Domain.Encoding.{number, fields, array}
use access_kit.Jobs.Encoding.{queue_json}

-- RebacJobSnapshot.
pub record JobSnapshot : Type 0 where
  pub discovery_runs : List JsonRecord
  pub enforcement_readiness_reports : List JsonRecord
  pub provisioning_plans : List JsonRecord
  pub provisioning_jobs : List JsonRecord
  pub drift_findings : List JsonRecord
  pub access_review_campaigns : List JsonRecord
  pub governance_findings : List JsonRecord
  pub exception_requests : List JsonRecord
  pub reconciliation_runs : List JsonRecord
  pub decisions : List JsonRecord

abbrev pub empty_job_snapshot : JobSnapshot
empty_job_snapshot = record {
  discovery_runs = [];
  enforcement_readiness_reports = [];
  provisioning_plans = [];
  provisioning_jobs = [];
  drift_findings = [];
  access_review_campaigns = [];
  governance_findings = [];
  exception_requests = [];
  reconciliation_runs = [];
  decisions = [];
}

abbrev pub empty_queue_snapshot : Queue
empty_queue_snapshot = record { queued_jobs = []; connector_health = []; idempotency_records = [] }

pub record StoreRecord : Type 0 where
  pub version : String
  pub stored_at : IsoDateTime
  pub tenant_boundary : String
  pub jobs_hash : String
  pub queue_hash : String
  pub jobs : JobSnapshot
  pub queue : Queue
  pub entity_counts : JsonRecord
  pub backup_metadata : List JsonRecord

abbrev pub record_version : String
record_version = "production-job-queue-store:v1"

unfoldable pub jobs_json : JobSnapshot → Json
jobs_json s = obj (
    fields (
      ("discoveryRuns", arr (array obj s.discovery_runs))
      ∷ ("enforcementReadinessReports", arr (array obj s.enforcement_readiness_reports))
      ∷ ("provisioningPlans", arr (array obj s.provisioning_plans))
      ∷ ("provisioningJobs", arr (array obj s.provisioning_jobs))
      ∷ ("driftFindings", arr (array obj s.drift_findings))
      ∷ ("accessReviewCampaigns", arr (array obj s.access_review_campaigns))
      ∷ ("governanceFindings", arr (array obj s.governance_findings))
      ∷ ("exceptionRequests", arr (array obj s.exception_requests))
      ∷ ("reconciliationRuns", arr (array obj s.reconciliation_runs))
      ∷ ("decisions", arr (array obj s.decisions))
      ∷ []))

abbrev is_dead_lettered : JobStatus → Bool
is_dead_lettered queued = false
is_dead_lettered running = false
is_dead_lettered completed = false
is_dead_lettered failed = false
is_dead_lettered dead_lettered = true

abbrev count {ℓ} : {A : Type ℓ} → List A → Json
count xs = number (length xs)

-- countQueueEntities, with countJobEntities.
unfoldable pub count_queue_entities : JobSnapshot → Queue → JsonRecord
count_queue_entities s q = fields (
    ("discoveryRuns", count s.discovery_runs)
    ∷ ("enforcementReadinessReports", count s.enforcement_readiness_reports)
    ∷ ("provisioningPlans", count s.provisioning_plans)
    ∷ ("provisioningJobs", count s.provisioning_jobs)
    ∷ ("driftFindings", count s.drift_findings)
    ∷ ("accessReviewCampaigns", count s.access_review_campaigns)
    ∷ ("governanceFindings", count s.governance_findings)
    ∷ ("exceptionRequests", count s.exception_requests)
    ∷ ("reconciliationRuns", count s.reconciliation_runs)
    ∷ ("decisions", count s.decisions)
    ∷ ("queuedJobs", count q.queued_jobs)
    ∷ (
      "deadLetteredJobs",
      count (filter_by (λ (j : QueuedJob). is_dead_lettered j.status) q.queued_jobs),
    )
    ∷ ("connectorHealth", count q.connector_health)
    ∷ ("idempotencyRecords", count q.idempotency_records)
    ∷ [])

unfoldable pub record_json : StoreRecord → Json
unfolding jobs_json queue_json
record_json r = obj (
    fields (
      ("version", text r.version)
      ∷ ("storedAt", text r.stored_at)
      ∷ ("tenantBoundary", text r.tenant_boundary)
      ∷ ("jobsHash", text r.jobs_hash)
      ∷ ("queueHash", text r.queue_hash)
      ∷ ("jobs", jobs_json r.jobs)
      ∷ ("queue", queue_json r.queue)
      ∷ ("entityCounts", obj r.entity_counts)
      ∷ ("backupMetadata", arr (array obj r.backup_metadata))
      ∷ []))

-- `entry.key === expected`.
abbrev pub has_text : String → String → JsonRecord → Bool
has_text key expected entry = elim (value_of entry key) [
  | undefined ↦ false
  | null ↦ false
  | bool b ↦ false
  | num n ↦ false
  | text s ↦ s == expected
  | arr xs ↦ false
  | obj r ↦ false
]

-- assertEvidenceTenantBoundary of a discovery run.
abbrev pub evidence_within : String → JsonRecord → Bool
evidence_within tenant run = elim (value_of run "evidence") [
  | undefined ↦ false
  | null ↦ false
  | bool b ↦ false
  | num n ↦ false
  | text s ↦ false
  | arr xs ↦ false
  | obj r ↦ has_text "tenantBoundary" tenant r
]

abbrev every {ℓ} : {A : Type ℓ} → (A → Bool) → List A → Bool
every p [] = true
every p (x ∷ xs) = p x && every p xs

-- assertJobTenantBoundary.
unfoldable pub within_tenant : String → JobSnapshot → Bool
within_tenant tenant s =
    every (evidence_within tenant) s.discovery_runs
    && every (has_text "tenantBoundary" tenant) s.enforcement_readiness_reports

-- InMemoryExternalSnapshotStore.
pub record SnapshotStore : Type 0 where
  pub current : Option StoreRecord
  pub backups : JsMap StoreRecord

abbrev pub empty_store : SnapshotStore
empty_store = record { current = none; backups = [] }

module _ (p : Printer) (digest lower : String → String) (tenant : String) where
  unfoldable pub stable_hash : Json → String
  stable_hash j = digest (stable_stringify p j)

  abbrev pub hash_of : Json → String
  hash_of j = prefixed "sha256:" (stable_hash j)

  -- #createRecord.
  unfoldable pub create_record :
      IsoDateTime → JobSnapshot → Queue → List JsonRecord → Option StoreRecord
  create_record stored_at jobs queue backup_metadata =
      if within_tenant tenant jobs
        && (no_secret_material lower (jobs_json jobs)
            && no_secret_material lower (queue_json queue))
      then some (record {
        version = record_version;
        stored_at = stored_at;
        tenant_boundary = tenant;
        jobs_hash = hash_of (jobs_json jobs);
        queue_hash = hash_of (queue_json queue);
        jobs = jobs;
        queue = queue;
        entity_counts = count_queue_entities jobs queue;
        backup_metadata = backup_metadata;
      })
      else none

  -- #validateStoredRecord and validateQueueState.
  unfoldable pub is_valid_record : StoreRecord → Bool
  is_valid_record r =
      (r.version == record_version)
      && ((r.tenant_boundary == tenant)
          && ((r.jobs_hash == hash_of (jobs_json r.jobs))
              && (within_tenant tenant r.jobs
                  && (no_secret_material lower (jobs_json r.jobs)
                      && ((r.queue_hash == hash_of (queue_json r.queue))
                          && no_secret_material lower (queue_json r.queue))))))

  -- readCurrent: nothing, a record, or `none` where it throws.
  unfoldable pub read_current : SnapshotStore → Option (Option StoreRecord)
  read_current store = elim store.current [
    | none ↦ some none
    | some r ↦ if is_valid_record r then some (some r) else none
  ]

  -- readBackup; `none` where there is none, or where it throws.
  unfoldable pub read_backup : SnapshotStore → CanonicalId → Option StoreRecord
  unfolding JsMap.get
  read_backup store id = elim (JsMap.get store.backups id) [
    | none ↦ none
    | some r ↦ if is_valid_record r then some r else none
  ]

  abbrev pub write_current : SnapshotStore → StoreRecord → SnapshotStore
  write_current store r = record store { current = some r }

  unfoldable pub write_backup : SnapshotStore → CanonicalId → StoreRecord → SnapshotStore
  unfolding JsMap.set
  write_backup store id r = record store { backups = JsMap.set store.backups id r }

  -- `currentHash === expectedHash`.
  abbrev pub same_record : Option StoreRecord → Option StoreRecord → Bool
  same_record none none = true
  same_record none (some b) = false
  same_record (some a) none = false
  same_record (some a) (some b) = stable_hash (record_json a) == stable_hash (record_json b)

  -- compareExchangeCurrent: the store after it, where it writes.
  unfoldable pub compare_exchange_current :
      SnapshotStore → Option StoreRecord → StoreRecord → Option SnapshotStore
  compare_exchange_current store expected r =
      if same_record store.current expected then some (write_current store r) else none

  pub read_current-current :
      (store : SnapshotStore) (expected : Option StoreRecord)
      → read_current store ≡ some expected
      → store.current ≡ expected
  unfolding read_current
  read_current-current store expected h = elim (Option-cases store.current) [
    | inl e ↦ ground (arith, e)
    | inr (r, e) ↦ ground (arith, e)
  ]
