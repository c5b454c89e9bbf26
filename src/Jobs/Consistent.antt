-- ===== src/Jobs/Consistent.antt =====
-- What the queue of packages/core/src/reference-job-queue.ts keeps: ids are unique, every job has an
-- idempotency record and every record its job, and each job has what its status asks for.
use access_kit.Prelude.{
  some-injective, ◌≤◌, String, Bool, false, some, List, [], ◌∷◌, ◌≡◌, refl, sym, subst, ◌∙◌, inl,
  inr, arith, In, All, find_by, ◌==◌, Bool-cases,
}
use access_kit.Domain.{CanonicalId}
use access_kit.Jobs.Model.{
  JobKind, QueuedJob, IdempotencyRecord, Queue, running, completed, dead_lettered,
}
use access_kit.Jobs.Text.{queue_id}

-- What a request is named by: its connector, its idempotency key and the kind of its job.
abbrev pub JobIdentity : Type 0
JobIdentity = CanonicalId × String × JobKind

abbrev pub id_of : (CanonicalId → String → JobKind → String) → JobIdentity → String
id_of identity t = queue_id (identity t.0 t.1 t.2)

module _ (identity : CanonicalId → String → JobKind → String) (requests : List JobIdentity) where
  -- What a job has in each status.
  pub record IsSound (j : QueuedJob) : Type 0 where
    pub known : In (j.connector_id, j.idempotency_key, j.kind) requests
    pub named : j.id ≡ queue_id (identity j.connector_id j.idempotency_key j.kind)
    pub held :
        j.status ≡ running
        → ((worker : String) × (j.worker_id ≡ some worker))
          × ((lease : String) × (j.lease_expires_at ≡ some lease))
    pub spent :
        j.status ≡ dead_lettered
        → (j.max_attempts ≤ j.attempts) × ((at : String) × (j.dead_lettered_at ≡ some at))
    pub ended : j.status ≡ completed → (at : String) × (j.completed_at ≡ some at)

  abbrev pub with_id : String → QueuedJob → Bool
  with_id id j = j.id == id

  abbrev pub HasNone : String → List QueuedJob → Type 0
  HasNone id = All (λ (j : QueuedJob). (j.id == id) ≡ false)

  abbrev pub HasUniqueIds : List QueuedJob → Type 0
  HasUniqueIds [] = Unit
  HasUniqueIds (j ∷ js) = HasNone j.id js × HasUniqueIds js

  -- The record's job is there, with its key and its hash.
  abbrev pub IsRecord : List QueuedJob → IdempotencyRecord → Type 0
  IsRecord js i =
      (j : QueuedJob) × (find_by (with_id i.job_id) js ≡ some j)
      × (j.idempotency_key ≡ i.idempotency_key)
      × (j.request_hash ≡ i.request_hash)

  abbrev pub IsKeyed : List IdempotencyRecord → QueuedJob → Type 0
  IsKeyed records j =
      (i : IdempotencyRecord) × In i records × (i.idempotency_key ≡ j.idempotency_key)

  pub record IsConsistent (q : Queue) : Type 0 where
    pub unique : HasUniqueIds q.queued_jobs
    pub sound : All IsSound q.queued_jobs
    pub recorded : All (IsRecord q.queued_jobs) q.idempotency_records
    pub keyed : All (IsKeyed q.idempotency_records) q.queued_jobs

  -- What no operation on a job changes.
  pub record IsSame (j k : QueuedJob) : Type 0 where
    pub id_kept : k.id ≡ j.id
    pub key_kept : k.idempotency_key ≡ j.idempotency_key
    pub hash_kept : k.request_hash ≡ j.request_hash

  pub IsSame-self : (j : QueuedJob) → IsSame j j
  IsSame-self j = record { id_kept = refl; key_kept = refl; hash_kept = refl }

  -- The jobs after an operation, each beside what it was.
  abbrev pub Carries : List QueuedJob → List QueuedJob → Type 0
  Carries [] [] = Unit
  Carries [] (k ∷ ks) = ⊥
  Carries (j ∷ js) [] = ⊥
  Carries (j ∷ js) (k ∷ ks) = IsSame j k × Carries js ks

  HasNone-carried :
      (id : String) (js ks : List QueuedJob) → Carries js ks → HasNone id js → HasNone id ks
  HasNone-carried id [] [] c h = tt
  HasNone-carried id [] (k ∷ ks) c h = absurd c
  HasNone-carried id (j ∷ js) [] c h = absurd c
  HasNone-carried id (j ∷ js) (k ∷ ks) c h =
      (rw (c.0.id_kept) h.0, HasNone-carried id js ks c.1 h.1)

  HasUniqueIds-carried :
      (js ks : List QueuedJob) → Carries js ks → HasUniqueIds js → HasUniqueIds ks
  HasUniqueIds-carried [] [] c h = tt
  HasUniqueIds-carried [] (k ∷ ks) c h = absurd c
  HasUniqueIds-carried (j ∷ js) [] c h = absurd c
  HasUniqueIds-carried (j ∷ js) (k ∷ ks) c h = (
    subst (λ id. HasNone id ks) (sym c.0.id_kept) (HasNone-carried j.id js ks c.1 h.0),
    HasUniqueIds-carried js ks c.1 h.1,
  )

  find_carried :
      (id : String) (js ks : List QueuedJob) (j : QueuedJob)
      → Carries js ks
      → find_by (with_id id) js ≡ some j
      → (k : QueuedJob) × (find_by (with_id id) ks ≡ some k) × IsSame j k
  find_carried id [] [] j c h = absurd (cc)
  find_carried id [] (k ∷ ks) j c h = absurd c
  find_carried id (i ∷ js) [] j c h = absurd c
  find_carried id (i ∷ js) (k ∷ ks) j c h = elim (Bool-cases (i.id == id)) [
    | inl same ↦ (
      k,
      ground (arith, c.0.id_kept, same),
      subst (λ x. IsSame x k) (some-injective i j (ground (arith, same))) c.0,
    )
    | inr other ↦
        let (l, found, kept) = find_carried id js ks j c.1 (ground (arith, other)) in
        (l, ground (arith, c.0.id_kept, other, found), kept)
  ]

  IsRecord-carried :
      (js ks : List QueuedJob) (records : List IdempotencyRecord)
      → Carries js ks
      → All (IsRecord js) records
      → All (IsRecord ks) records
  IsRecord-carried js ks [] c h = tt
  IsRecord-carried js ks (i ∷ records) c h =
      let (j, found, key, hash) = h.0 in
      let (k, found', kept) = find_carried i.job_id js ks j c found in
      (
        (k, found', kept.key_kept ∙ key, kept.hash_kept ∙ hash),
        IsRecord-carried js ks records c h.1,
      )

  IsKeyed-carried :
      (js ks : List QueuedJob) (records : List IdempotencyRecord)
      → Carries js ks
      → All (IsKeyed records) js
      → All (IsKeyed records) ks
  IsKeyed-carried [] [] records c h = tt
  IsKeyed-carried [] (k ∷ ks) records c h = absurd c
  IsKeyed-carried (j ∷ js) [] records c h = absurd c
  IsKeyed-carried (j ∷ js) (k ∷ ks) records c h =
      let (i, there, key) = h.0 in
      ((i, there, key ∙ sym c.0.key_kept), IsKeyed-carried js ks records c.1 h.1)

  -- An operation that keeps ids, keys and hashes keeps the queue consistent if its jobs are sound.
  pub carried-IsConsistent :
      (q : Queue) (ks : List QueuedJob)
      → Carries q.queued_jobs ks
      → All IsSound ks
      → IsConsistent q
      → IsConsistent (record q { queued_jobs = ks })
  carried-IsConsistent q ks c s h = record {
    unique = HasUniqueIds-carried q.queued_jobs ks c h.unique;
    sound = s;
    recorded = IsRecord-carried q.queued_jobs ks q.idempotency_records c h.recorded;
    keyed = IsKeyed-carried q.queued_jobs ks q.idempotency_records c h.keyed;
  }
