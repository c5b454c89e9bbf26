-- ===== src/Jobs/Adapter.antt =====
-- The operations of ReferenceJobQueueAdapter in packages/core/src/reference-job-queue.ts, each as the commit
-- that it is. `now` is what the clock says, and `others` what other processes write (Jobs/Commit).
use access_kit.Prelude.{
  ℕ, String, Bool, ◌&&◌, Option, none, some, List, [], ◌∷◌, ◌++◌, if◌then◌else◌, ◌otherwise◌,
  some_by,
}
use access_kit.Domain.{CanonicalId, IsoDateTime}
use access_kit.Domain.Dates.{Dates}
use access_kit.Domain.Json.{JsonRecord, obj, value_of}
use access_kit.Secrets.{no_secret_material}
use access_kit.Audit.Text.{Printer}
use access_kit.Decision.Caveats.Values.{strictly_equal}
use access_kit.Jobs.Model.{QueuedJob, Queue, QueueRequest, ConnectorHealth}
use access_kit.Jobs.Entries.{enqueue_normalized_job, set_connector_health, required_queued_job}
use access_kit.Jobs.Transitions.{reserve_next_job, complete_job, record_job_failure}
use access_kit.Jobs.Encoding.{health_json}
use access_kit.Jobs.Snapshot.{JobSnapshot, SnapshotStore, read_current, evidence_within, has_text}
use access_kit.Jobs.Commit.{Outcome, threw, Mutation, commit_snapshot, queue_of}
use access_kit.Jobs.Requests.{
  EnqueueRequest, RevocationRequest, has_enforcement_evidence, revocation_request, job_identity,
  normalize_enqueue_request, replay_request,
}

-- `left[key] === right[key]`.
abbrev same_at : String → JsonRecord → JsonRecord → Bool
same_at key left right = strictly_equal (value_of left key) (value_of right key)

-- upsertById over entities, and upsertByDecisionId.
unfoldable pub upsert_entity : String → List JsonRecord → JsonRecord → List JsonRecord
unfolding strictly_equal
upsert_entity key [] item = item ∷ []
upsert_entity key (e ∷ es) item =
    if same_at key e item then item ∷ es else e ∷ upsert_entity key es item

unfoldable pub append_unique_by_id : List JsonRecord → JsonRecord → Option (List JsonRecord)
unfolding strictly_equal
append_unique_by_id items item =
    if some_by (λ e. same_at "id" e item) items then none else some (items ++ item ∷ [])

-- A mutation of the queue alone.
abbrev pub on_queue : {A : Type 0} → (Queue → Option (A × Queue)) → Mutation A
on_queue f jobs queue = elim (f queue) [ none ↦ none | some (a, q) ↦ some (jobs, q, a) ]

-- A mutation of the entities alone.
abbrev on_jobs : (JobSnapshot → Option JobSnapshot) → JsonRecord → Mutation JsonRecord
on_jobs f item jobs queue = elim (f jobs) [ none ↦ none | some j ↦ some (j, queue, item) ]

abbrev with_runs : JobSnapshot → Option (List JsonRecord) → Option JobSnapshot
with_runs jobs none = none
with_runs jobs (some runs) = some (record jobs { discovery_runs = runs })

abbrev with_reports : JobSnapshot → Option (List JsonRecord) → Option JobSnapshot
with_reports jobs none = none
with_reports jobs (some reports) = some (record jobs { enforcement_readiness_reports = reports })

abbrev with_reconciliations : JobSnapshot → Option (List JsonRecord) → Option JobSnapshot
with_reconciliations jobs none = none
with_reconciliations jobs (some runs) = some (record jobs { reconciliation_runs = runs })

module _ (p : Printer) (digest lower : String → String) (tenant : String) (dates : Dates)
    (text_le locale_before : String → String → Bool) (others : ℕ → SnapshotStore → SnapshotStore)
    (now : IsoDateTime) where
  abbrev commit : {A : Type 0} → IsoDateTime → Mutation A → SnapshotStore → Outcome A
  commit stored_at mutate store =
      commit_snapshot p digest lower tenant mutate stored_at others store

  -- A call whose checks throw before it commits.
  abbrev checked : {A : Type 0} → Bool → IsoDateTime → Mutation A → SnapshotStore → Outcome A
  checked ok stored_at mutate store = if ok then commit stored_at mutate store else threw store

  abbrev enqueue_checked : Option QueueRequest → SnapshotStore → Outcome QueuedJob
  enqueue_checked none store = threw store
  enqueue_checked (some r) store =
      checked (has_enforcement_evidence r && no_secret_material lower (obj r.payload))
        r.requested_at
        (on_queue (λ q. enqueue_normalized_job (job_identity p digest lower tenant) q r)) store

  unfoldable pub enqueue_job : EnqueueRequest → SnapshotStore → Outcome QueuedJob
  unfolding normalize_enqueue_request has_enforcement_evidence
  enqueue_job r store =
      enqueue_checked (normalize_enqueue_request p digest lower tenant r now) store

  unfoldable pub enqueue_revocation_job : RevocationRequest → SnapshotStore → Outcome QueuedJob
  unfolding revocation_request enqueue_job
  enqueue_revocation_job r store = enqueue_job (revocation_request r) store

  abbrev replay : Option EnqueueRequest → SnapshotStore → Outcome QueuedJob
  replay none store = threw store
  replay (some r) store = enqueue_job r store

  unfoldable pub replay_dead_lettered_job :
      CanonicalId → Option String → Option IsoDateTime → SnapshotStore → Outcome QueuedJob
  unfolding replay_request enqueue_job
  replay_dead_lettered_job id idempotency_key requested_at store =
      elim (read_current p digest lower tenant store) [
        | none ↦ threw store
        | some stored ↦ elim (required_queued_job (queue_of stored) id) [
          | none ↦ threw store
          | some job ↦
              replay
                (replay_request p digest lower tenant job idempotency_key
                  (requested_at otherwise now))
                store
        ]
      ]

  unfoldable pub reserve :
      CanonicalId → Option IsoDateTime → Option ℕ → SnapshotStore → Outcome (Option QueuedJob)
  reserve worker_id reserved_at lease_ms store =
      let at = reserved_at otherwise now in
      commit at
        (on_queue (λ q. reserve_next_job dates text_le locale_before q worker_id at lease_ms)) store

  unfoldable pub complete :
      CanonicalId → Option CanonicalId → Option IsoDateTime → SnapshotStore → Outcome QueuedJob
  complete id worker_id completed_at store =
      let at = completed_at otherwise now in
      commit at (on_queue (λ q. complete_job dates text_le locale_before q id at worker_id)) store

  unfoldable pub record_failure :
      CanonicalId
      → Option CanonicalId
      → Option IsoDateTime
      → String
      → SnapshotStore
      → Outcome QueuedJob
  record_failure id worker_id failed_at error store =
      let at = failed_at otherwise now in
      commit at
        (on_queue (λ q. record_job_failure dates text_le locale_before q id at worker_id error))
        store

  unfoldable pub set_health : ConnectorHealth → SnapshotStore → Outcome ConnectorHealth
  unfolding set_connector_health health_json
  set_health health store =
      checked (no_secret_material lower (health_json health)) health.updated_at
        (on_queue (λ q. set_connector_health q health)) store

  unfoldable pub record_discovery_run : JsonRecord → SnapshotStore → Outcome JsonRecord
  unfolding append_unique_by_id
  record_discovery_run run store =
      checked (evidence_within tenant run && no_secret_material lower (obj run)) now
        (on_jobs (λ jobs. with_runs jobs (append_unique_by_id jobs.discovery_runs run)) run) store

  unfoldable pub record_enforcement_readiness_report :
      JsonRecord → SnapshotStore → Outcome JsonRecord
  unfolding append_unique_by_id
  record_enforcement_readiness_report report store =
      checked (has_text "tenantBoundary" tenant report && no_secret_material lower (obj report)) now
        (on_jobs
          (λ jobs.
            with_reports jobs (append_unique_by_id jobs.enforcement_readiness_reports report))
          report)
        store

  unfoldable pub record_reconciliation_run : JsonRecord → SnapshotStore → Outcome JsonRecord
  unfolding append_unique_by_id
  record_reconciliation_run run store =
      checked (no_secret_material lower (obj run)) now
        (on_jobs
          (λ jobs. with_reconciliations jobs (append_unique_by_id jobs.reconciliation_runs run))
          run)
        store

  -- An entity takes the place of the one with its id, or goes to the end of its list.
  abbrev upserted : JsonRecord → (JobSnapshot → JobSnapshot) → SnapshotStore → Outcome JsonRecord
  upserted item f store =
      checked (no_secret_material lower (obj item)) now (on_jobs (λ jobs. some (f jobs)) item) store

  unfoldable pub upsert_provisioning_plan : JsonRecord → SnapshotStore → Outcome JsonRecord
  unfolding upsert_entity
  upsert_provisioning_plan item =
      upserted item (λ jobs. record jobs {
        provisioning_plans = upsert_entity "id" jobs.provisioning_plans item;
      })

  unfoldable pub upsert_provisioning_job : JsonRecord → SnapshotStore → Outcome JsonRecord
  unfolding upsert_entity
  upsert_provisioning_job item =
      upserted item
        (λ jobs. record jobs { provisioning_jobs = upsert_entity "id" jobs.provisioning_jobs item })

  unfoldable pub upsert_drift_finding : JsonRecord → SnapshotStore → Outcome JsonRecord
  unfolding upsert_entity
  upsert_drift_finding item =
      upserted item
        (λ jobs. record jobs { drift_findings = upsert_entity "id" jobs.drift_findings item })

  unfoldable pub upsert_access_review_campaign : JsonRecord → SnapshotStore → Outcome JsonRecord
  unfolding upsert_entity
  upsert_access_review_campaign item = upserted item (λ jobs. record jobs {
    access_review_campaigns = upsert_entity "id" jobs.access_review_campaigns item;
  })

  unfoldable pub upsert_governance_finding : JsonRecord → SnapshotStore → Outcome JsonRecord
  unfolding upsert_entity
  upsert_governance_finding item = upserted item (λ jobs. record jobs {
    governance_findings = upsert_entity "id" jobs.governance_findings item;
  })

  unfoldable pub upsert_exception_request : JsonRecord → SnapshotStore → Outcome JsonRecord
  unfolding upsert_entity
  upsert_exception_request item =
      upserted item (λ jobs. record jobs {
        exception_requests = upsert_entity "id" jobs.exception_requests item;
      })

  unfoldable pub record_decision : JsonRecord → IsoDateTime → SnapshotStore → Outcome JsonRecord
  unfolding upsert_entity
  record_decision item evaluated_at store =
      checked (no_secret_material lower (obj item)) evaluated_at
        (on_jobs
          (λ jobs.
            some (record jobs { decisions = upsert_entity "decisionId" jobs.decisions item }))
          item)
        store
