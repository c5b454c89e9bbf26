-- ===== src/Jobs/Restore.antt =====
-- Backups of packages/core/src/reference-job-queue.ts can be restored.
use access_kit.Prelude.{
  String, true, Option, some, List, ◌≡◌, refl, sym, ap, subst, ◌∙◌, inl, inr, arith, Option-cases,
  eq_refl,
}
use access_kit.JsMap
use access_kit.JsMap.{get-set}
use access_kit.Domain.{CanonicalId, IsoDateTime}
use access_kit.Domain.Json.{JsonRecord}
use access_kit.Audit.Text.{Printer}
use access_kit.Jobs.Model.{Queue}
use access_kit.Jobs.Snapshot.{
  JobSnapshot, StoreRecord, SnapshotStore, read_current, read_backup, create_record, write_current,
  write_backup, is_valid_record, read_current-current,
}
use access_kit.Jobs.Commit.{jobs_of, queue_of}
use access_kit.Jobs.Backups.{
  create_backup, restore_backup, backup_record, may_store, Made, create_record-Made, Made-is_valid,
}

module _ (p : Printer) (digest lower : String → String) (tenant location : String) where
  pub create_record_may :
      (at : IsoDateTime) (jobs : JobSnapshot) (queue : Queue) (metadata : List JsonRecord)
      → may_store p digest lower tenant location jobs queue ≡ true
      → (r : StoreRecord) × (create_record p digest lower tenant at jobs queue metadata ≡ some r)
  unfolding create_record
  create_record_may at jobs queue metadata may =
      elim (Option-cases (create_record p digest lower tenant at jobs queue metadata)) [
        | inl e ↦ absurd (ground (arith, e, may))
        | inr made ↦ made
      ]

  read_backup-valid :
      (store : SnapshotStore) (id : CanonicalId) (r : StoreRecord)
      → JsMap.get store.backups id ≡ some r
      → is_valid_record p digest lower tenant r ≡ true
      → read_backup p digest lower tenant store id ≡ some r
  unfolding read_backup
  read_backup-valid store id r e valid = rw (e, read_backup, valid) refl

  get-written :
      (store : SnapshotStore) (id : CanonicalId) (r : StoreRecord)
      → JsMap.get
          (write_backup p digest lower tenant
            (write_current p digest lower tenant store r)
            id
            r).backups
          id
        ≡ some r
  unfolding write_backup
  get-written store id r = get-set store.backups id id r ∙ rw (eq_refl id) refl

  restored :
      (id : CanonicalId) (at : IsoDateTime) (later : SnapshotStore) (r : StoreRecord)
      (made_at : IsoDateTime) (jobs : JobSnapshot) (queue : Queue) (metadata : List JsonRecord)
      → JsMap.get later.backups id ≡ some r
      → Made p digest lower tenant location made_at jobs queue metadata r
      → (final : SnapshotStore) × (stored : StoreRecord) × (restore_backup p digest lower tenant
            location id at later
          ≡ some final)
        × (final.current ≡ some stored)
        × (stored.queue ≡ queue)
        × (stored.jobs ≡ jobs)
  unfolding restore_backup
  restored id at later r made_at jobs queue metadata found m =
      let read =
        read_backup-valid later id r found
          (Made-is_valid p digest lower tenant location made_at jobs queue metadata r m) in
      let may : may_store p digest lower tenant location r.jobs r.queue ≡ true =
        rw (m.same_jobs, m.same_queue) m.may in
      let (stored, created) = create_record_may at r.jobs r.queue r.backup_metadata may in
      let made =
        create_record-Made p digest lower tenant location at r.jobs r.queue r.backup_metadata stored
          created in
      (
        write_current p digest lower tenant later stored,
        stored,
        rw (read, restore_backup, created) refl,
        refl,
        made.same_queue ∙ m.same_queue,
        made.same_jobs ∙ m.same_jobs,
      )

  -- Once a backup was made, and as long as no other backup takes its id, restoring it succeeds, whatever
  -- the current record became, and makes current the queue and the entities that the store had when the
  -- backup was made.
  pub restore_backup-create_backup :
      (id : CanonicalId) (at later_at : IsoDateTime) (store after later : SnapshotStore)
      → create_backup p digest lower tenant location id at store ≡ some after
      → JsMap.get later.backups id ≡ JsMap.get after.backups id
      → (final : SnapshotStore) × (stored : StoreRecord) × (restore_backup p digest lower tenant
            location id later_at later
          ≡ some final)
        × (final.current ≡ some stored)
        × (stored.queue ≡ queue_of store.current)
        × (stored.jobs ≡ jobs_of store.current)
  unfolding create_backup
  restore_backup-create_backup id at later_at store after later h same =
      elim (Option-cases (read_current p digest lower tenant store)) [
        | inl e ↦ absurd (ground (arith, e))
        | inr (found, e) ↦
            elim (Option-cases (backup_record p digest lower tenant location id at found)) [
              | inl f ↦ absurd (ground (arith, e, f))
              | inr (r, f) ↦
                  let here = read_current-current p digest lower tenant store found e in
                  let end_store = some_store _ after (rw (e, create_backup, f) at h) in
                  let got =
                    same
                    ∙ ap (λ (s : SnapshotStore). JsMap.get s.backups id) (sym end_store)
                    ∙ get-written store id r in
                  subst
                    (λ (o : Option StoreRecord).
                      (final : SnapshotStore) × (stored : StoreRecord) × (restore_backup p digest
                          lower tenant location id later_at later
                        ≡ some final)
                      × (final.current ≡ some stored)
                      × (stored.queue ≡ queue_of o)
                      × (stored.jobs ≡ jobs_of o))
                    (sym here)
                    (restored id later_at later r at (jobs_of found) (queue_of found) _ got (
                      create_record-Made p digest lower tenant location at (jobs_of found)
                        (queue_of found) _ r f))
            ]
      ]
    where
      some_store : (x y : SnapshotStore) → some x ≡ some y → x ≡ y
      some_store x y e = cc
