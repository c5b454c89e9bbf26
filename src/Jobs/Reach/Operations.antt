-- ===== src/Jobs/Reach/Operations.antt =====
-- The operations of packages/core/src/reference-job-queue.ts that write a record, as steps between the
-- stores that are reached: a backup, a restore and a flush that nothing interrupts, and a commit among
-- other writers.
use access_kit.Prelude.{
  some-injective, ℕ, String, true, Option, some, ◌≡◌, subst, inl, inr, arith, Option-cases,
}
use access_kit.Domain.{IsoDateTime}
use access_kit.Jobs.Model.{Queue}
use access_kit.Jobs.Snapshot.{
  JobSnapshot, StoreRecord, SnapshotStore, read_current, read_backup, create_record, write_current,
  compare_exchange_current, same_record,
}
use access_kit.Jobs.Commit.{
  jobs_of, queue_of, metadata_of, Mutation, ByOthers, unchanged, written, commit_snapshot,
  committed, commit_rounds-IsAtomic,
}
use access_kit.Jobs.Backups.{create_backup, restore_backup, flush, backup_record}
use access_kit.Jobs.Reach.{
  Deployment, QueueStep, Reached, exchanged, backs_up, copies, restores, flushes,
}

module _ (dep : Deployment) where
  abbrev Step : Queue → Queue → Type 0
  Step = QueueStep dep

  abbrev Reaches : SnapshotStore → Type 0
  Reaches = Reached dep

  -- A backup without interference is its two writes.
  create_backup-Reached :
      (store after : SnapshotStore) (id at : String)
      → create_backup dep.printer dep.digest dep.lower dep.tenant dep.location id at store
        ≡ some after
      → Reaches store
      → Reaches after
  unfolding create_backup
  create_backup-Reached store after id at h k =
      elim (Option-cases (read_current dep.printer dep.digest dep.lower dep.tenant store)) [
        | inl e ↦ absurd (ground (arith, e))
        | inr (o, e) ↦
            elim (Option-cases
              (backup_record dep.printer dep.digest dep.lower dep.tenant dep.location id at o)) [
                | inl f ↦ absurd (ground (arith, e, f))
                | inr (r, f) ↦
                    subst Reaches (some-injective _ after (rw (e, create_backup, f) at h))
                      (copies id at o r k (backs_up id at o r k k e f) e f)
              ]
      ]

  -- A restore without interference is its one write.
  restore_backup-Reached :
      (store after : SnapshotStore) (id at : String)
      → restore_backup dep.printer dep.digest dep.lower dep.tenant dep.location id at store
        ≡ some after
      → Reaches store
      → Reaches after
  unfolding restore_backup
  restore_backup-Reached store after id at h k =
      elim (Option-cases (read_backup dep.printer dep.digest dep.lower dep.tenant store id)) [
        | inl e ↦ absurd (ground (arith, e))
        | inr (b, e) ↦
            elim (Option-cases (
              create_record dep.printer dep.digest dep.lower dep.tenant at b.jobs b.queue
                b.backup_metadata)) [
                  | inl f ↦ absurd (ground (arith, e, f))
                  | inr (r, f) ↦
                      subst Reaches (some-injective _ after (rw (e, restore_backup, f) at h))
                        (restores id at b r k k e f)
                ]
      ]

  -- A flush without interference is its one write.
  flush-Reached :
      (store after : SnapshotStore) (at : String)
      → flush dep.printer dep.digest dep.lower dep.tenant dep.location at store ≡ some after
      → Reaches store
      → Reaches after
  unfolding flush
  flush-Reached store after at h k =
      elim (Option-cases (read_current dep.printer dep.digest dep.lower dep.tenant store)) [
        | inl e ↦ absurd (ground (arith, e))
        | inr (o, e) ↦
            elim (Option-cases (
              create_record dep.printer dep.digest dep.lower dep.tenant at (jobs_of o) (queue_of o)
                (metadata_of o))) [
                  | inl f ↦ absurd (ground (arith, e, f))
                  | inr (r, f) ↦
                      subst Reaches (some-injective _ after (rw (e, flush, f) at h))
                        (flushes at o r k k e f)
                ]
      ]

  module _ {A : Type 0} (mutate : Mutation A)
      (steps : (jobs jobs' : JobSnapshot) (q q' : Queue) (a : A)
        → mutate jobs q ≡ some (jobs', q', a)
        → Step q q')
      (at : IsoDateTime) (others : ℕ → SnapshotStore → SnapshotStore)
      (others_reach : (n : ℕ) (s : SnapshotStore) → Reaches s → Reaches (others n s)) where
    ByOthers-Reached :
        (store s : SnapshotStore)
        → Reaches store
        → ByOthers dep.printer dep.digest dep.lower dep.tenant mutate at others store s
        → Reaches s
    ByOthers-Reached store s r unchanged = r
    ByOthers-Reached store now r (written n {s} by) =
        others_reach n s (ByOthers-Reached store s r by)

    exchange_won :
        (seen after : SnapshotStore) (expected : Option StoreRecord) (r : StoreRecord)
        → same_record dep.printer dep.digest dep.lower dep.tenant seen.current expected ≡ true
        → after ≡ write_current dep.printer dep.digest dep.lower dep.tenant seen r
        → compare_exchange_current dep.printer dep.digest dep.lower dep.tenant seen expected r
          ≡ some after
    unfolding compare_exchange_current
    exchange_won seen after expected r same e = ground (arith, same, e)

    -- A commit that gives a result is one such exchange, if its mutation is an operation on the queue and
    -- the other writers' stores are reached.
    commit_snapshot-Reached :
        (store after : SnapshotStore) (a : A)
        → Reaches store
        → commit_snapshot dep.printer dep.digest dep.lower dep.tenant mutate at others store
          ≡ committed a after
        → Reaches after
    unfolding commit_snapshot
    commit_snapshot-Reached store after a r h =
        let atomic =
          commit_rounds-IsAtomic dep.printer dep.digest dep.lower dep.tenant mutate at others 5
            store after store a unchanged h in
        exchanged at atomic.jobs atomic.queue atomic.expected atomic.stored
          (ByOthers-Reached store atomic.read_from r atomic.read_by_others)
          (ByOthers-Reached store atomic.seen r atomic.by_others) atomic.was_read
          (steps _ atomic.jobs (queue_of atomic.expected) atomic.queue a atomic.mutated)
          atomic.created
          (exchange_won atomic.seen after atomic.expected atomic.stored atomic.is_current
            atomic.written_at)
