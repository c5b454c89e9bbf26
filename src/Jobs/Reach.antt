-- ===== src/Jobs/Reach.antt =====
-- The stores that the processes of a job queue can reach: packages/core/src/reference-job-queue.ts over one
-- store of packages/core/src/reference-repositories.ts. Processes interleave at each read and each write:
-- what is exchanged, and what a backup, a restore or a flush writes, was computed from a record that some
-- reached store had, and is written over any other.
pub mod Operations
use access_kit.Prelude.{
  some-injective, ℕ, String, Bool, true, Option, none, some, List, ◌≡◌, sym, subst, ◌∙◌, inl, inr,
  In, Bool-cases, ◌==◌,
}
use access_kit.JsMap
use access_kit.JsMap.{get-set}
use access_kit.Domain.{CanonicalId, IsoDateTime}
use access_kit.Domain.Dates.{Dates}
use access_kit.Domain.Json.{JsonRecord}
use access_kit.Audit.Text.{Printer}
use access_kit.Jobs.Model.{JobKind, QueuedJob, Queue, QueueRequest, ConnectorHealth}
use access_kit.Jobs.Entries.{enqueue_normalized_job, set_connector_health}
use access_kit.Jobs.Transitions.{reserve_next_job, complete_job, record_job_failure}
use access_kit.Jobs.Consistent.{JobIdentity, IsConsistent}
use access_kit.Jobs.Snapshot.{
  JobSnapshot, StoreRecord, SnapshotStore, empty_store, read_current, read_backup, create_record,
  write_current, write_backup, is_valid_record, compare_exchange_current,
}
use access_kit.Jobs.Commit.{jobs_of, queue_of, metadata_of}
use access_kit.Jobs.Backups.{backup_record, create_record-Made, Made-is_valid}

-- Where job queues run: how JSON is written and hashed, the tenant and the store's place, how requests
-- are named and which requests are made, and how dates and texts are read and ordered.
pub record Deployment : Type 0 where
  pub printer : Printer
  pub digest : String → String
  pub lower : String → String
  pub tenant : String
  pub location : String
  pub identity : CanonicalId → String → JobKind → String
  pub requests : List JobIdentity
  pub dates : Dates
  pub text_le : String → String → Bool
  pub locale_before : String → String → Bool

module _ (dep : Deployment) where
  -- The operations on the queue. Requests are those the deployment lists.
  pub data QueueStep : Queue → Queue → Type 0 where
    enqueues :
        {q after : Queue} (r : QueueRequest) (j : QueuedJob)
        → In (r.connector_id, r.idempotency_key, r.kind) dep.requests
        → enqueue_normalized_job dep.identity q r ≡ some (j, after)
        → QueueStep q after
    reserves :
        {q after : Queue} (worker at : String) (lease_ms : Option ℕ) (j : Option QueuedJob)
        → reserve_next_job dep.dates dep.text_le dep.locale_before q worker at lease_ms
          ≡ some (j, after)
        → QueueStep q after
    completes :
        {q after : Queue} (id at : String) (worker : Option String) (j : QueuedJob)
        → complete_job dep.dates dep.text_le dep.locale_before q id at worker ≡ some (j, after)
        → QueueStep q after
    fails :
        {q after : Queue} (id at : String) (worker : Option String) (error : String) (j : QueuedJob)
        → record_job_failure dep.dates dep.text_le dep.locale_before q id at worker error
          ≡ some (j, after)
        → QueueStep q after
    reports :
        {q after : Queue} (h k : ConnectorHealth)
        → set_connector_health q h ≡ some (k, after)
        → QueueStep q after
    keeps : {q : Queue} → QueueStep q q

  pub data Reached : SnapshotStore → Type 0 where
    fresh : Reached empty_store
    exchanged :
        {from seen after : SnapshotStore} (at : IsoDateTime) (jobs : JobSnapshot) (queue : Queue)
        (expected : Option StoreRecord) (stored : StoreRecord)
        → Reached from
        → Reached seen
        → read_current dep.printer dep.digest dep.lower dep.tenant from ≡ some expected
        → QueueStep (queue_of expected) queue
        → create_record dep.printer dep.digest dep.lower dep.tenant at jobs queue
            (metadata_of expected)
          ≡ some stored
        → compare_exchange_current dep.printer dep.digest dep.lower dep.tenant seen expected stored
          ≡ some after
        → Reached after
    -- createBackup writes its record over the current one, whatever was written since it read...
    backs_up :
        {from seen : SnapshotStore} (id : CanonicalId) (at : IsoDateTime)
        (expected : Option StoreRecord) (stored : StoreRecord)
        → Reached from
        → Reached seen
        → read_current dep.printer dep.digest dep.lower dep.tenant from ≡ some expected
        → backup_record dep.printer dep.digest dep.lower dep.tenant dep.location id at expected
          ≡ some stored
        → Reached (write_current dep.printer dep.digest dep.lower dep.tenant seen stored)
    -- ...and then, in a write of its own, beside the other backups.
    copies :
        {from seen : SnapshotStore} (id : CanonicalId) (at : IsoDateTime)
        (expected : Option StoreRecord) (stored : StoreRecord)
        → Reached from
        → Reached seen
        → read_current dep.printer dep.digest dep.lower dep.tenant from ≡ some expected
        → backup_record dep.printer dep.digest dep.lower dep.tenant dep.location id at expected
          ≡ some stored
        → Reached (write_backup dep.printer dep.digest dep.lower dep.tenant seen id stored)
    restores :
        {from seen : SnapshotStore} (id : CanonicalId) (at : IsoDateTime) (b stored : StoreRecord)
        → Reached from
        → Reached seen
        → read_backup dep.printer dep.digest dep.lower dep.tenant from id ≡ some b
        → create_record dep.printer dep.digest dep.lower dep.tenant at b.jobs b.queue
            b.backup_metadata
          ≡ some stored
        → Reached (write_current dep.printer dep.digest dep.lower dep.tenant seen stored)
    flushes :
        {from seen : SnapshotStore} (at : IsoDateTime) (expected : Option StoreRecord)
        (stored : StoreRecord)
        → Reached from
        → Reached seen
        → read_current dep.printer dep.digest dep.lower dep.tenant from ≡ some expected
        → create_record dep.printer dep.digest dep.lower dep.tenant at
            (jobs_of expected)
            (queue_of expected)
            (metadata_of expected)
          ≡ some stored
        → Reached (write_current dep.printer dep.digest dep.lower dep.tenant seen stored)

  -- What every record that is stored has: its queue is consistent, and reading it does not throw.
  pub record IsGood (r : StoreRecord) : Type 0 where
    pub consistent : IsConsistent dep.identity dep.requests r.queue
    pub valid : is_valid_record dep.printer dep.digest dep.lower dep.tenant r ≡ true

  pub record IsKept (store : SnapshotStore) : Type 0 where
    pub current_good : (r : StoreRecord) → store.current ≡ some r → IsGood r
    pub backups_good :
        (id : CanonicalId) (r : StoreRecord) → JsMap.get store.backups id ≡ some r → IsGood r

  empty-IsConsistent : IsConsistent dep.identity dep.requests (queue_of none)
  empty-IsConsistent = record { unique = tt; sound = tt; recorded = tt; keyed = tt }

  pub queue_of-IsConsistent :
      (store : SnapshotStore) (o : Option StoreRecord)
      → store.current ≡ o
      → IsKept store
      → IsConsistent dep.identity dep.requests (queue_of o)
  queue_of-IsConsistent store none e k = empty-IsConsistent
  queue_of-IsConsistent store (some r) e k = (k.current_good r e).consistent

  pub made-IsGood :
      (at : IsoDateTime) (jobs : JobSnapshot) (queue : Queue) (metadata : List JsonRecord)
      (r : StoreRecord)
      → create_record dep.printer dep.digest dep.lower dep.tenant at jobs queue metadata ≡ some r
      → IsConsistent dep.identity dep.requests queue
      → IsGood r
  made-IsGood at jobs queue metadata r h c =
      let m =
        create_record-Made dep.printer dep.digest dep.lower dep.tenant dep.location at jobs queue
          metadata r h in
      record {
        consistent = subst (IsConsistent dep.identity dep.requests) (sym m.same_queue) c;
        valid =
            Made-is_valid dep.printer dep.digest dep.lower dep.tenant dep.location at jobs queue
              metadata r m;
      }

  pub written-IsKept :
      (store : SnapshotStore) (r : StoreRecord)
      → IsGood r
      → IsKept store
      → IsKept (write_current dep.printer dep.digest dep.lower dep.tenant store r)
  written-IsKept store r g k = record {
    current_good = λ s e. subst IsGood (some-injective r s e) g;
    backups_good = k.backups_good;
  }

  pub backed_up-IsKept :
      (store : SnapshotStore) (id : CanonicalId) (r : StoreRecord)
      → IsGood r
      → IsKept store
      → IsKept (write_backup dep.printer dep.digest dep.lower dep.tenant store id r)
  unfolding write_backup
  backed_up-IsKept store id r g k = record {
    current_good = k.current_good;
    backups_good = λ j s e. elim (Bool-cases (id == j)) [
      | inl same ↦
          subst IsGood (some-injective r s (rw same at (sym (get-set store.backups id j r) ∙ e))) g
      | inr other ↦ k.backups_good j s (rw other at (sym (get-set store.backups id j r) ∙ e))
    ];
  }
