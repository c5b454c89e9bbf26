-- ===== src/Jobs/Idempotency.antt =====
-- Enqueuing the same request twice, in packages/core/src/reference-job-queue.ts.
use access_kit.Prelude.{
  none-ne-some, String, Bool, true, false, Option, none, some, List, [], ◌∷◌, ◌++◌, ◌≡◌, refl, sym,
  ap, subst, ◌∙◌, inl, inr, arith, Option-cases, Bool-cases, find_by, ◌==◌, eq_iff,
}
use access_kit.Domain.{CanonicalId}
use access_kit.Jobs.Model.{JobKind, QueuedJob, Queue, QueueRequest, IdempotencyRecord}
use access_kit.Jobs.Entries.{
  create_queued_job, record_of, record_for, required_queued_job, with_queue, enqueue_normalized_job,
}

find_by-append :
    {A : Type 0} (p : A → Bool) (xs : List A) (x : A)
    → find_by p xs ≡ none
    → p x ≡ true
    → find_by p (xs ++ x ∷ []) ≡ some x
find_by-append p [] x h e = ground (arith, e)
find_by-append p (y ∷ ys) x h e = ground (arith, e, h, find_by-append p ys x)

module _ (identity : CanonicalId → String → JobKind → String) (queue : Queue)
    (r : QueueRequest) where
  abbrev pub fresh : QueuedJob
  fresh = create_queued_job identity r

  abbrev pub grown : Queue
  grown = record queue {
    queued_jobs = queue.queued_jobs ++ fresh ∷ [];
    idempotency_records = queue.idempotency_records ++ record_of fresh ∷ [];
  }

  pub enqueue_fresh :
      record_for r queue ≡ none → enqueue_normalized_job identity queue r ≡ some (fresh, grown)
  unfolding enqueue_normalized_job
  enqueue_fresh e = rw (e, enqueue_normalized_job) refl

  enqueue_known :
      (q : Queue) (existing : IdempotencyRecord)
      → record_for r q ≡ some existing
      → (existing.request_hash == r.request_hash) ≡ true
      → enqueue_normalized_job identity q r ≡ with_queue q (required_queued_job q existing.job_id)
  unfolding enqueue_normalized_job
  enqueue_known q existing e same = rw (e, enqueue_normalized_job, same) refl

  grown_record : record_for r queue ≡ none → record_for r grown ≡ some (record_of fresh)
  unfolding create_queued_job
  grown_record e =
      find_by-append _ queue.idempotency_records (record_of fresh) e
        (ground (arith, eq_iff r.idempotency_key r.idempotency_key))

  grown_job :
      required_queued_job queue fresh.id ≡ none → required_queued_job grown fresh.id ≡ some fresh
  unfolding required_queued_job
  grown_job e =
      find_by-append _ queue.queued_jobs fresh e (ground (arith, eq_iff fresh.id fresh.id))

  fresh_hash : (fresh.request_hash == r.request_hash) ≡ true
  unfolding create_queued_job
  fresh_hash = ground (arith, eq_iff r.request_hash r.request_hash)

  fresh_again :
      record_for r queue ≡ none
      → required_queued_job queue fresh.id ≡ none
      → enqueue_normalized_job identity grown r ≡ some (fresh, grown)
  fresh_again e f =
      enqueue_known grown (record_of fresh) (grown_record e) fresh_hash
      ∙ ap (with_queue grown) (grown_job f)

  pub same_result : (x y : QueuedJob × Queue) → some x ≡ some y → x ≡ y
  same_result x y e = cc

  with_queue-kept :
      (o : Option QueuedJob) (job : QueuedJob) (after : Queue)
      → with_queue queue o ≡ some (job, after)
      → queue ≡ after
  with_queue-kept none job after e = absurd (cc)
  with_queue-kept (some j) job after e =
      ap (λ (p : QueuedJob × Queue). p.1) (same_result (j, queue) (job, after) e)

  enqueue_clash :
      (existing : IdempotencyRecord)
      → record_for r queue ≡ some existing
      → (existing.request_hash == r.request_hash) ≡ false
      → enqueue_normalized_job identity queue r ≡ none
  unfolding enqueue_normalized_job
  enqueue_clash existing e other = rw (e, enqueue_normalized_job, other) refl

  pub kept :
      (job : QueuedJob) (after : Queue) (existing : IdempotencyRecord)
      → record_for r queue ≡ some existing
      → enqueue_normalized_job identity queue r ≡ some (job, after)
      → queue ≡ after
  kept job after existing e h = elim (Bool-cases (existing.request_hash == r.request_hash)) [
    | inl same ↦
        with_queue-kept (required_queued_job queue existing.job_id) job after
          (sym (enqueue_known queue existing e same) ∙ h)
    | inr other ↦ absurd (none-ne-some (job, after) (sym (enqueue_clash existing e other) ∙ h))
  ]

  -- A request that was enqueued and is enqueued again gives the job it gave, and the queue stays as it
  -- is, provided that a new key's job has an id that no job of the queue has.
  pub enqueue-twice :
      (job : QueuedJob) (after : Queue)
      → (record_for r queue ≡ none → required_queued_job queue fresh.id ≡ none)
      → enqueue_normalized_job identity queue r ≡ some (job, after)
      → enqueue_normalized_job identity after r ≡ some (job, after)
  enqueue-twice job after new h = elim (Option-cases (record_for r queue)) [
    | inl e ↦
        subst (λ (p : QueuedJob × Queue). enqueue_normalized_job identity p.1 r ≡ some p)
          (same_result (fresh, grown) (job, after) (sym (enqueue_fresh e) ∙ h))
          (fresh_again e (new e))
    | inr (existing, e) ↦
        subst (λ q. enqueue_normalized_job identity q r ≡ some (job, after))
          (kept job after existing e h) h
  ]
