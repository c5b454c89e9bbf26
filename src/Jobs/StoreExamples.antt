-- ===== src/Jobs/StoreExamples.antt =====
-- A store with one job, and the theorems on commits and backups at it.
use access_kit.Prelude.{
  ℕ, String, false, some, none, [], ◌∷◌, ◌≡◌, ◌⊎◌, refl, sym, ap, ◌∙◌, ◌≢◌, inl, inr, arith, In,
}
use access_kit.Audit.Text.{Printer}
use access_kit.Jobs.Model.{discovery, revocation, normal, QueuedJob, Queue, QueueRequest}
use access_kit.Jobs.Entries.{enqueue_normalized_job}
use access_kit.Jobs.Consistent.{JobIdentity, id_of}
use access_kit.Jobs.Examples.{dates, not_after, earlier, identity, request}
use access_kit.Jobs.Snapshot.{
  SnapshotStore, StoreRecord, empty_store, empty_job_snapshot, read_current,
  compare_exchange_current, create_record, within_tenant, jobs_json,
}
use access_kit.Secrets.{no_secret_material, is_sensitive_key}
use access_kit.Jobs.Encoding.{queue_json}
use access_kit.Jobs.Commit.{
  committed, threw, Mutation, commit_rounds, attempt, IsAtomic, unchanged, commit_rounds-IsAtomic,
  commit_rounds-ends, jobs_of, queue_of,
}
use access_kit.Jobs.Adapter.{on_queue}
use access_kit.Jobs.Backups.{create_backup, restore_backup}
use access_kit.Jobs.Restore.{restore_backup-create_backup}
use access_kit.Jobs.Reach.{Deployment, enqueues, fresh, exchanged, copies, Reached, IsKept}
use access_kit.Jobs.Kept.{Reached-IsKept}

abbrev printer : Printer
printer = record { text_of = λ s. s; number_of = λ n. "0"; comes_before = λ s t. false }

abbrev digest : String → String
digest = λ s. s

abbrev lower : String → String
lower = λ s. s

abbrev scan_request : QueueRequest
scan_request = request discovery normal "scan"

abbrev enqueue_scan : Mutation QueuedJob
enqueue_scan = on_queue (λ q. enqueue_normalized_job identity q scan_request)

abbrev no_others : ℕ → SnapshotStore → SnapshotStore
no_others = λ n s. s

committed_one :
    (job : QueuedJob) × (after : SnapshotStore) × (commit_rounds printer digest lower "tenant"
        enqueue_scan "1" no_others 5 empty_store
      ≡ committed job after)
unfolding commit_rounds attempt read_current enqueue_normalized_job compare_exchange_current
    create_record within_tenant no_secret_material jobs_json is_sensitive_key queue_json
committed_one = (_, _, refl)

commit_rounds-IsAtomic_example :
    IsAtomic printer digest lower "tenant" enqueue_scan "1" no_others empty_store committed_one.1
      committed_one.0
commit_rounds-IsAtomic_example =
    commit_rounds-IsAtomic printer digest lower "tenant" enqueue_scan "1" no_others 5 empty_store
      committed_one.1 empty_store committed_one.0 unchanged committed_one.2

commit_rounds-ends_example :
    ((job : QueuedJob) × (after : SnapshotStore) × (commit_rounds printer digest lower "tenant"
          enqueue_scan "1" no_others 5 empty_store
        ≡ committed job after))
    ⊎ ((s : SnapshotStore) × (commit_rounds printer digest lower "tenant" enqueue_scan "1" no_others
            5 empty_store
          ≡ threw s))
commit_rounds-ends_example =
    commit_rounds-ends printer digest lower "tenant" enqueue_scan "1" no_others 5 2 empty_store
      (omega arith) (λ s. refl)

enqueued_one :
    (job : QueuedJob) × (q : Queue) × (enqueue_normalized_job identity (queue_of none) scan_request
      ≡ some (job, q))
unfolding enqueue_normalized_job
enqueued_one = (_, _, refl)

stored_one :
    (r : StoreRecord) × (create_record printer digest lower "tenant" "1" empty_job_snapshot
        enqueued_one.1 []
      ≡ some r)
unfolding enqueued_one create_record within_tenant no_secret_material jobs_json is_sensitive_key
    queue_json
stored_one = (_, refl)

abbrev scan_identity : JobIdentity
scan_identity = ("directory", "scan", discovery)

abbrev revoke_identity : JobIdentity
revoke_identity = ("directory", "revoke", revocation)

abbrev deployment : Deployment
deployment = record {
  printer = printer;
  digest = digest;
  lower = lower;
  tenant = "tenant";
  location = "queue";
  identity = identity;
  requests = scan_identity ∷ revoke_identity ∷ [];
  dates = dates;
  text_le = not_after;
  locale_before = earlier;
}

reached_one : (after : SnapshotStore) × Reached deployment after
unfolding read_current compare_exchange_current
reached_one = (
  _,
  exchanged "1" empty_job_snapshot enqueued_one.1 none stored_one.0 fresh fresh refl
      (enqueues scan_request enqueued_one.0 (inl refl) enqueued_one.2) stored_one.1 refl,
)

-- Another process copies to a backup the empty record that it read before the job came.
reached_two : (after : SnapshotStore) × Reached deployment after
unfolding read_current create_record within_tenant no_secret_material jobs_json is_sensitive_key
    queue_json
reached_two = (_, copies "b1" "2" none _ fresh reached_one.1 refl refl)

ids_differ : id_of identity scan_identity ≢ id_of identity revoke_identity
ids_differ e = absurd (cc)

no_collision :
    (t u : JobIdentity)
    → In t (scan_identity ∷ revoke_identity ∷ [])
    → In u (scan_identity ∷ revoke_identity ∷ [])
    → id_of identity t ≡ id_of identity u
    → t.1 ≡ u.1
no_collision t u (inl e) (inl f) h = ap (λ (x : JobIdentity). x.1) (e ∙ sym f)
no_collision t u (inl e) (inr (inl f)) h =
    absurd (ids_differ (ap (id_of identity) (sym e) ∙ h ∙ ap (id_of identity) f))
no_collision t u (inr (inl e)) (inl f) h =
    absurd (ids_differ (ap (id_of identity) (sym f) ∙ sym h ∙ ap (id_of identity) e))
no_collision t u (inr (inl e)) (inr (inl f)) h = ap (λ (x : JobIdentity). x.1) (e ∙ sym f)
no_collision t u (inl e) (inr (inr f)) h = absurd f
no_collision t u (inr (inl e)) (inr (inr f)) h = absurd f
no_collision t u (inr (inr e)) m h = absurd e

Reached-IsKept_example : IsKept deployment reached_two.0
Reached-IsKept_example = Reached-IsKept deployment no_collision reached_two.0 reached_two.1

backup_one :
    (after : SnapshotStore) × (create_backup printer digest lower "tenant" "queue" "b1" "2"
        empty_store
      ≡ some after)
unfolding create_backup read_current create_record within_tenant no_secret_material jobs_json
    is_sensitive_key queue_json
backup_one = (_, refl)

restore_backup-create_backup_example :
    (final : SnapshotStore) × (stored : StoreRecord) × (restore_backup printer digest lower "tenant"
        "queue" "b1" "3" backup_one.0
      ≡ some final)
    × (final.current ≡ some stored)
    × (stored.queue ≡ queue_of none)
    × (stored.jobs ≡ jobs_of none)
restore_backup-create_backup_example =
    restore_backup-create_backup printer digest lower "tenant" "queue" "b1" "2" "3" empty_store
      backup_one.0 backup_one.0 backup_one.1 refl
