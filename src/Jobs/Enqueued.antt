-- ===== src/Jobs/Enqueued.antt =====
-- Enqueuing keeps the queue of packages/core/src/reference-job-queue.ts consistent.
use access_kit.Prelude.{
  String, Bool, true, false, none, some, List, [], ◌∷◌, ◌++◌, ◌≡◌, refl, sym, subst, ◌∙◌, inl, inr,
  arith, In, All, All-In, All-append, In-append_left, In-append_right, find_by, ◌==◌, eq_iff,
  Bool-cases, Option-cases,
}
use access_kit.Domain.{CanonicalId}
use access_kit.Jobs.Model.{
  JobKind, QueuedJob, IdempotencyRecord, Queue, QueueRequest, running, completed, dead_lettered,
  queued,
}
use access_kit.Jobs.Entries.{create_queued_job, record_of, record_for, enqueue_normalized_job}
use access_kit.Jobs.Consistent.{
  IsSound, IsConsistent, JobIdentity, id_of, HasNone, HasUniqueIds, IsRecord, IsKeyed, with_id,
}
use access_kit.Jobs.Idempotency

find_none :
    {A : Type 0} (p : A → Bool) (xs : List A) → All (λ x. p x ≡ false) xs → find_by p xs ≡ none
find_none p [] h = refl
find_none p (x ∷ xs) h = ground (arith, h.0, find_none p xs h.1)

none_found :
    {A : Type 0} (p : A → Bool) (xs : List A) → find_by p xs ≡ none → All (λ x. p x ≡ false) xs
none_found p [] h = tt
none_found p (x ∷ xs) h = elim (Bool-cases (p x)) [
  | inl e ↦ absurd (ground (arith, e))
  | inr e ↦ (e, none_found p xs (ground (arith, e)))
]

find_extended :
    {A : Type 0} (p : A → Bool) (xs ys : List A) (x : A)
    → find_by p xs ≡ some x
    → find_by p (xs ++ ys) ≡ some x
find_extended p [] ys x h = absurd (cc)
find_extended p (y ∷ xs) ys x h = ground (arith, find_extended p xs ys x)

find_last :
    {A : Type 0} (p : A → Bool) (xs : List A) (x : A)
    → All (λ y. p y ≡ false) xs
    → p x ≡ true
    → find_by p (xs ++ x ∷ []) ≡ some x
find_last p [] x h e = ground (arith, e)
find_last p (y ∷ xs) x h e = ground (arith, h.0, find_last p xs x h.1 e)

module _ (identity : CanonicalId → String → JobKind → String) (requests : List JobIdentity)
    (no_collision : (t u : JobIdentity)
      → In t requests
      → In u requests
      → id_of identity t ≡ id_of identity u
      → t.1 ≡ u.1) where
  HasUniqueIds-extended :
      (js : List QueuedJob) (j : QueuedJob)
      → HasUniqueIds identity requests js
      → HasNone identity requests j.id js
      → HasUniqueIds identity requests (js ++ j ∷ [])
  HasUniqueIds-extended [] j h n = (tt, tt)
  HasUniqueIds-extended (k ∷ js) j h n = (
    All-append _ js (j ∷ []) h.0 (ground (arith, n.0, eq_iff k.id j.id, eq_iff j.id k.id), tt),
    HasUniqueIds-extended js j h.1 n.1,
  )

  module _ (q : Queue) (r : QueueRequest)
      (new_key : In (r.connector_id, r.idempotency_key, r.kind) requests) where
    abbrev job : QueuedJob
    job = create_queued_job identity r

    job-IsSound : IsSound identity requests job
    unfolding create_queued_job
    job-IsSound = record {
      known = new_key;
      named = refl;
      held = λ (e : queued ≡ running). absurd (cc);
      spent = λ (e : queued ≡ dead_lettered). absurd (cc);
      ended = λ (e : queued ≡ completed). absurd (cc);
    }

    -- A job with the new id would have the new key, and so a record.
    no_such_id :
        (js : List QueuedJob)
        → All
            (λ (i : IdempotencyRecord). (i.idempotency_key == r.idempotency_key) ≡ false)
            q.idempotency_records
        → All (IsSound identity requests) js
        → All (IsKeyed identity requests q.idempotency_records) js
        → HasNone identity requests job.id js
    unfolding create_queued_job
    no_such_id [] none_there s k = tt
    no_such_id (j ∷ js) none_there s k = (
      elim (Bool-cases (j.id == job.id)) [
        | inr other ↦ other
        | inl same ↦
            let ids : j.id ≡ job.id = (eq_iff j.id job.id).0 same in
            let key =
              no_collision (j.connector_id, j.idempotency_key, j.kind)
                (r.connector_id, r.idempotency_key, r.kind) s.0.known new_key
                (sym s.0.named ∙ ids) in
            let (i, there, same_key) = k.0 in
            let other =
              All-In (λ (i : IdempotencyRecord). (i.idempotency_key == r.idempotency_key) ≡ false) i
                q.idempotency_records none_there there in
            absurd
              (ground (arith, other, eq_iff i.idempotency_key r.idempotency_key, same_key, key))
      ],
      no_such_id js none_there s.1 k.1,
    )

    IsRecord-extended :
        (records : List IdempotencyRecord)
        → All (IsRecord identity requests q.queued_jobs) records
        → All (IsRecord identity requests (q.queued_jobs ++ job ∷ [])) records
    IsRecord-extended [] h = tt
    IsRecord-extended (i ∷ records) h =
        let (j, found, key, hash) = h.0 in
        (
          (
            j,
            find_extended (with_id identity requests i.job_id) q.queued_jobs (job ∷ []) j found,
            key,
            hash,
          ),
          IsRecord-extended records h.1,
        )

    IsKeyed-extended :
        (js : List QueuedJob)
        → All (IsKeyed identity requests q.idempotency_records) js
        → All (IsKeyed identity requests (q.idempotency_records ++ record_of job ∷ [])) js
    IsKeyed-extended [] h = tt
    IsKeyed-extended (j ∷ js) h =
        let (i, there, key) = h.0 in
        (
          (i, In-append_left i q.idempotency_records (record_of job ∷ []) there, key),
          IsKeyed-extended js h.1,
        )

    grown-IsConsistent :
        record_for r q ≡ none
        → IsConsistent identity requests q
        → IsConsistent identity requests (Idempotency.grown identity q r)
    grown-IsConsistent e h =
        let absent = none_found _ q.idempotency_records e in
        let fresh = no_such_id q.queued_jobs absent h.sound h.keyed in
        record {
          unique = HasUniqueIds-extended q.queued_jobs job h.unique fresh;
          sound = All-append _ q.queued_jobs (job ∷ []) h.sound (job-IsSound, tt);
          recorded =
              All-append _ q.idempotency_records (record_of job ∷ [])
                (IsRecord-extended q.idempotency_records h.recorded)
                (
                  (
                    job,
                    find_last (with_id identity requests job.id) q.queued_jobs job fresh
                        (ground (arith, eq_iff job.id job.id)),
                    refl,
                    refl,
                  ),
                  tt,
                );
          keyed = All-append _ q.queued_jobs (job ∷ []) (IsKeyed-extended q.queued_jobs h.keyed) (
            (
              record_of job,
              In-append_right (record_of job) q.idempotency_records (record_of job ∷ []) (inl refl),
              refl,
            ),
            tt,
          );
        }

    pub enqueue-IsConsistent :
        (j : QueuedJob) (after : Queue)
        → enqueue_normalized_job identity q r ≡ some (j, after)
        → IsConsistent identity requests q
        → IsConsistent identity requests after
    enqueue-IsConsistent j after e h = elim (Option-cases (record_for r q)) [
      | inl new ↦
          let same =
            Idempotency.same_result identity q r (job, Idempotency.grown identity q r) (j, after)
              (sym (Idempotency.enqueue_fresh identity q r new) ∙ e) in
          subst (λ (p : QueuedJob × Queue). IsConsistent identity requests p.1) same
            (grown-IsConsistent new h)
      | inr (existing, old) ↦
          subst (IsConsistent identity requests)
            (Idempotency.kept identity q r j after existing old e) h
    ]
