-- ===== src/Jobs/Kept.antt =====
-- Every store that a job queue reaches holds a consistent queue: packages/core/src/reference-job-queue.ts.
use access_kit.Prelude.{
  none-ne-some, Option, List, some, ◌≡◌, subst, ◌∙◌, inl, inr, arith, In, Bool-cases, Option-cases,
}
use access_kit.JsMap
use access_kit.Domain.{CanonicalId, IsoDateTime}
use access_kit.Domain.Json.{JsonRecord}
use access_kit.Jobs.Model.{Queue, ConnectorHealth}
use access_kit.Jobs.Entries.{set_connector_health}
use access_kit.Jobs.Consistent.{JobIdentity, id_of, IsConsistent}
use access_kit.Jobs.Enqueued.{enqueue-IsConsistent}
use access_kit.Jobs.Runs.{reserve-IsConsistent, complete-IsConsistent, failure-IsConsistent}
use access_kit.Jobs.Snapshot.{
  StoreRecord, SnapshotStore, empty_store, read_current, read_backup, create_record, write_current,
  is_valid_record, read_current-current, compare_exchange_current, same_record,
}
use access_kit.Jobs.Commit.{jobs_of, queue_of, metadata_of}
use access_kit.Jobs.Reach.{
  Deployment, QueueStep, enqueues, reserves, completes, fails, reports, keeps, Reached, IsGood,
  fresh, exchanged, backs_up, copies, restores, flushes, IsKept, queue_of-IsConsistent, made-IsGood,
  written-IsKept, backed_up-IsKept,
}

module _ (dep : Deployment)
    (no_collision : (t u : JobIdentity)
      → In t dep.requests
      → In u dep.requests
      → id_of dep.identity t ≡ id_of dep.identity u
      → t.1 ≡ u.1) where
  abbrev Kept : SnapshotStore → Type 0
  Kept = IsKept dep

  abbrev Step : Queue → Queue → Type 0
  Step = QueueStep dep

  health-IsConsistent :
      (q after : Queue) (h k : ConnectorHealth)
      → set_connector_health q h ≡ some (k, after)
      → IsConsistent dep.identity dep.requests q
      → IsConsistent dep.identity dep.requests after
  unfolding set_connector_health
  health-IsConsistent q after h k e c =
      subst (IsConsistent dep.identity dep.requests) (same _ k _ after e)
        (record { unique = c.unique; sound = c.sound; recorded = c.recorded; keyed = c.keyed })
    where
      same :
          (x y : ConnectorHealth) (a b : Queue)
          → ◌≡◌ {A = Option (ConnectorHealth × Queue)} (some (x, a)) (some (y, b))
          → a ≡ b
      same x y a b e = cc

  Step-IsConsistent :
      (q after : Queue)
      → Step q after
      → IsConsistent dep.identity dep.requests q
      → IsConsistent dep.identity dep.requests after
  Step-IsConsistent q after (enqueues r j known e) c =
      enqueue-IsConsistent dep.identity dep.requests no_collision q r known j after e c
  Step-IsConsistent q after (reserves worker at lease_ms j e) c =
      reserve-IsConsistent dep.identity dep.requests dep.dates dep.text_le dep.locale_before q after
        worker at lease_ms j e c
  Step-IsConsistent q after (completes id at worker j e) c =
      complete-IsConsistent dep.identity dep.requests dep.dates dep.text_le dep.locale_before q
        after id at worker j e c
  Step-IsConsistent q after (fails id at worker error j e) c =
      failure-IsConsistent dep.identity dep.requests dep.dates dep.text_le dep.locale_before q after
        id at worker error j e c
  Step-IsConsistent q after (reports h k e) c = health-IsConsistent q after h k e c
  Step-IsConsistent q after keeps c = c

  exchange-IsKept :
      (seen after : SnapshotStore) (expected : Option StoreRecord) (r : StoreRecord)
      → compare_exchange_current dep.printer dep.digest dep.lower dep.tenant seen expected r
        ≡ some after
      → write_current dep.printer dep.digest dep.lower dep.tenant seen r ≡ after
  unfolding compare_exchange_current
  exchange-IsKept seen after expected r h =
      elim (Bool-cases
        (same_record dep.printer dep.digest dep.lower dep.tenant seen.current expected)) [
          | inl e ↦ ground (arith, e)
          | inr e ↦ absurd (ground (arith, e))
        ]

  read-IsConsistent :
      (store : SnapshotStore) (o : Option StoreRecord)
      → read_current dep.printer dep.digest dep.lower dep.tenant store ≡ some o
      → Kept store
      → IsConsistent dep.identity dep.requests (queue_of o)
  read-IsConsistent store o e k =
      queue_of-IsConsistent dep store o
        (read_current-current dep.printer dep.digest dep.lower dep.tenant store o e) k

  read_backup-get :
      (store : SnapshotStore) (id : CanonicalId) (r : StoreRecord)
      → read_backup dep.printer dep.digest dep.lower dep.tenant store id ≡ some r
      → JsMap.get store.backups id ≡ some r
  unfolding read_backup
  read_backup-get store id r h = elim (Option-cases (JsMap.get store.backups id)) [
    | inl e ↦ absurd (ground (arith, e))
    | inr (s, e) ↦
        elim (Bool-cases (is_valid_record dep.printer dep.digest dep.lower dep.tenant s)) [
          | inl v ↦ e ∙ (rw (e, read_backup, v) at h)
          | inr v ↦ absurd (none-ne-some r (rw (e, read_backup, v) at h))
        ]
  ]

  remade-IsGood :
      (from : SnapshotStore) (expected : Option StoreRecord) (at : IsoDateTime)
      (metadata : List JsonRecord) (r : StoreRecord)
      → read_current dep.printer dep.digest dep.lower dep.tenant from ≡ some expected
      → create_record dep.printer dep.digest dep.lower dep.tenant at
          (jobs_of expected)
          (queue_of expected)
          metadata
        ≡ some r
      → Kept from
      → IsGood dep r
  remade-IsGood from expected at metadata r read made k =
      made-IsGood dep at (jobs_of expected) (queue_of expected) metadata r made
        (read-IsConsistent from expected read k)

  abbrev Reaches : SnapshotStore → Type 0
  Reaches = Reached dep

  empty-IsKept : Kept empty_store
  unfolding JsMap.get
  empty-IsKept = record {
    current_good = λ r e. absurd (none-ne-some r e);
    backups_good = λ id r e. absurd (none-ne-some r e);
  }

  -- Whatever processes enqueue, reserve, complete, fail, back up, restore and flush, and however their reads
  -- and writes interleave, the current record and each backup pass every check of a read, and their queue
  -- is consistent: ids are unique, jobs and idempotency records belong together, a running job has a worker
  -- and a lease, a completed one its time, and a dead-lettered one has used its attempts. Condition: of the
  -- requests made, two with different idempotency keys get different job ids.
  pub Reached-IsKept : (store : SnapshotStore) → Reaches store → Kept store
  Reached-IsKept now fresh = empty-IsKept
  Reached-IsKept now (exchanged {from} {seen} at jobs queue expected r rf rs read step made won) =
      let from_kept = Reached-IsKept from rf in
      let seen_kept = Reached-IsKept seen rs in
      subst Kept (exchange-IsKept seen now expected r won) (
        written-IsKept dep seen r
          (made-IsGood dep at jobs queue (metadata_of expected) r made (
            Step-IsConsistent (queue_of expected) queue step
              (read-IsConsistent from expected read from_kept)))
          seen_kept)
  Reached-IsKept now (backs_up {from} {seen} id at expected r rf rs read made) =
      written-IsKept dep seen r
        (remade-IsGood from expected at _ r read made (Reached-IsKept from rf))
        (Reached-IsKept seen rs)
  Reached-IsKept now (copies {from} {seen} id at expected r rf rs read made) =
      backed_up-IsKept dep seen id r
        (remade-IsGood from expected at _ r read made (Reached-IsKept from rf))
        (Reached-IsKept seen rs)
  Reached-IsKept now (restores {from} {seen} id at b r rf rs read made) =
      let from_kept = Reached-IsKept from rf in
      written-IsKept dep seen r
        (made-IsGood dep at b.jobs b.queue b.backup_metadata r made
          (from_kept.backups_good id b (read_backup-get from id b read)).consistent)
        (Reached-IsKept seen rs)
  Reached-IsKept now (flushes {from} {seen} at expected r rf rs read made) =
      written-IsKept dep seen r
        (remade-IsGood from expected at _ r read made (Reached-IsKept from rf))
        (Reached-IsKept seen rs)
