-- ===== src/Jobs/Backups.antt =====
-- createBackup, restoreBackup and flush of packages/core/src/reference-job-queue.ts. They write without an
-- exchange; where they throw, the answer is `none`.
use access_kit.Prelude.{
  String, Bool, true, false, ◌&&◌, Option, none, some, List, [], ◌∷◌, ◌++◌, ◌≡◌, refl, sym, ap, inl,
  inr, arith, Bool-cases, ◌==◌, eq_iff,
}
use access_kit.Domain.{CanonicalId, IsoDateTime}
use access_kit.Domain.Json.{JsonRecord, text, obj}
use access_kit.Secrets.{no_secret_material}
use access_kit.Audit.Text.{Printer}
use access_kit.Jobs.Model.{Queue}
use access_kit.Jobs.Text.{backup_location}
use access_kit.Domain.Encoding.{fields}
use access_kit.Jobs.Encoding.{queue_json}
use access_kit.Jobs.Snapshot.{
  JobSnapshot, StoreRecord, SnapshotStore, read_current, read_backup, create_record, write_current,
  write_backup, within_tenant, hash_of, jobs_json, count_queue_entities, is_valid_record,
  record_version,
}
use access_kit.Jobs.Commit.{jobs_of, queue_of, metadata_of}

module _ (p : Printer) (digest lower : String → String) (tenant location : String) where
  -- createBackupMetadata.
  abbrev create_backup_metadata : CanonicalId → IsoDateTime → JobSnapshot → Queue → JsonRecord
  create_backup_metadata id created_at jobs queue = fields (
      ("id", text id)
      ∷ ("component", text "job")
      ∷ ("createdAt", text created_at)
      ∷ ("location", text (backup_location location id))
      ∷ (
        "snapshotHash",
        text (
            hash_of p digest lower tenant
              (obj (fields (("jobs", jobs_json jobs) ∷ ("queue", queue_json queue) ∷ [])))),
      )
      ∷ ("tenantBoundary", text tenant)
      ∷ ("entityCounts", obj (count_queue_entities jobs queue))
      ∷ ("version", text "production-repository-backup:v1")
      ∷ [])

  abbrev pub backed_up : CanonicalId → SnapshotStore → Option StoreRecord → Option SnapshotStore
  backed_up id store none = none
  backed_up id store (some r) =
      some (write_backup p digest lower tenant (write_current p digest lower tenant store r) id r)

  abbrev pub backup_record : CanonicalId → IsoDateTime → Option StoreRecord → Option StoreRecord
  backup_record id created_at stored =
      create_record p digest lower tenant created_at (jobs_of stored) (queue_of stored) (
        metadata_of stored
        ++ (create_backup_metadata id created_at (jobs_of stored) (queue_of stored) ∷ []))

  unfoldable pub create_backup : CanonicalId → IsoDateTime → SnapshotStore → Option SnapshotStore
  create_backup id created_at store = elim (read_current p digest lower tenant store) [
    | none ↦ none
    | some stored ↦ backed_up id store (backup_record id created_at stored)
  ]

  abbrev persisted : SnapshotStore → Option StoreRecord → Option SnapshotStore
  persisted store none = none
  persisted store (some r) = some (write_current p digest lower tenant store r)

  unfoldable pub restore_backup : CanonicalId → IsoDateTime → SnapshotStore → Option SnapshotStore
  restore_backup id restored_at store = elim (read_backup p digest lower tenant store id) [
    | none ↦ none
    | some b ↦
        persisted store
          (create_record p digest lower tenant restored_at b.jobs b.queue b.backup_metadata)
  ]

  unfoldable pub flush : IsoDateTime → SnapshotStore → Option SnapshotStore
  flush stored_at store = elim (read_current p digest lower tenant store) [
    | none ↦ none
    | some stored ↦ persisted store (
        create_record p digest lower tenant stored_at (jobs_of stored) (queue_of stored)
          (metadata_of stored))
  ]

  -- What #createRecord asks of its snapshots.
  abbrev pub may_store : JobSnapshot → Queue → Bool
  may_store jobs queue =
      within_tenant tenant jobs
      && (no_secret_material lower (jobs_json jobs) && no_secret_material lower (queue_json queue))

  -- What a record that #createRecord made has.
  pub record Made (at : IsoDateTime) (jobs : JobSnapshot) (queue : Queue)
      (metadata : List JsonRecord) (r : StoreRecord) : Type 0 where
    pub may : may_store jobs queue ≡ true
    pub at_version : r.version ≡ record_version
    pub at_tenant : r.tenant_boundary ≡ tenant
    pub jobs_hashed : r.jobs_hash ≡ hash_of p digest lower tenant (jobs_json jobs)
    pub queue_hashed : r.queue_hash ≡ hash_of p digest lower tenant (queue_json queue)
    pub same_jobs : r.jobs ≡ jobs
    pub same_queue : r.queue ≡ queue

  some_record : (x y : StoreRecord) → some x ≡ some y → x ≡ y
  some_record x y e = cc

  pub create_record-Made :
      (at : IsoDateTime) (jobs : JobSnapshot) (queue : Queue) (metadata : List JsonRecord)
      (r : StoreRecord)
      → create_record p digest lower tenant at jobs queue metadata ≡ some r
      → Made at jobs queue metadata r
  unfolding create_record
  create_record-Made at jobs queue metadata r h = elim (Bool-cases (may_store jobs queue)) [
    | inr barred ↦ absurd (ground (arith, barred))
    | inl may ↦
        let same = some_record _ r (rw (may, create_record) at h) in
        record {
          may = may;
          at_version = sym (ap (λ (x : StoreRecord). x.version) same);
          at_tenant = sym (ap (λ (x : StoreRecord). x.tenant_boundary) same);
          jobs_hashed = sym (ap (λ (x : StoreRecord). x.jobs_hash) same);
          queue_hashed = sym (ap (λ (x : StoreRecord). x.queue_hash) same);
          same_jobs = sym (ap (λ (x : StoreRecord). x.jobs) same);
          same_queue = sym (ap (λ (x : StoreRecord). x.queue) same);
        }
  ]

  and_parts : (a b c : Bool) → (a && (b && c)) ≡ true → (a ≡ true) × (b ≡ true) × (c ≡ true)
  and_parts true true true h = (refl, refl, refl)
  and_parts false b c h = absurd (cc)
  and_parts true false c h = absurd (cc)
  and_parts true true false h = absurd (cc)

  eq_true : (s t : String) → s ≡ t → (s == t) ≡ true
  eq_true s t e = (eq_iff s t).1 e

  -- A record that was made passes every check of a read.
  pub Made-is_valid :
      (at : IsoDateTime) (jobs : JobSnapshot) (queue : Queue) (metadata : List JsonRecord)
      (r : StoreRecord)
      → Made at jobs queue metadata r
      → is_valid_record p digest lower tenant r ≡ true
  unfolding is_valid_record
  Made-is_valid at jobs queue metadata r m =
      let (within, clean_jobs, clean_queue) =
        and_parts (within_tenant tenant jobs) (no_secret_material lower (jobs_json jobs))
          (no_secret_material lower (queue_json queue)) m.may in
      rw (eq_true r.version record_version m.at_version) (
        rw (eq_true r.tenant_boundary tenant m.at_tenant) (
          rw (m.same_jobs, m.same_queue)
            (rw
              (
                eq_true r.jobs_hash (hash_of p digest lower tenant (jobs_json jobs)) m.jobs_hashed,
                eq_true r.queue_hash (hash_of p digest lower tenant (queue_json queue))
                    m.queue_hashed,
                within,
                clean_jobs,
                clean_queue,
              )
              refl)))
