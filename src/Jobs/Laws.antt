-- ===== src/Jobs/Laws.antt =====
-- What the operations of the queue in packages/core/src/reference-job-queue.ts do to its jobs.
use access_kit.Prelude.{
  some-injective, subst, ℕ, suc, ◌+◌, ◌≤◌, ◌<◌, String, Bool, true, false, Option, none, some, List,
  ◌∷◌, ◌≡◌, refl, sym, ap, ◌∙◌, ◌⊎◌, inl, inr, arith, In, if◌then◌else◌, ltb, leb, ◌&&◌, ◌*◌,
  Bool-cases, Option-cases, List-cases, filter_by-In, In-filter_by, ◌otherwise◌, min,
}
use access_kit.Domain.Dates.{Dates}
use access_kit.Jobs.Model.{
  QueuedJob, Queue, completed, failed, JobStatus, queued, running, dead_lettered,
}
use access_kit.Jobs.Entries.{
  is_running, priority_rank, required_queued_job, backoff_delay_ms, is_infinite, backoff_power,
}
use access_kit.Jobs.Transitions.{
  record_job_failure, may_fail, is_eligible, eligible_jobs, recover_expired_running_jobs,
  reserve_next_job, reserved_job, add_milliseconds, failed_job, retry_at, default_lease_duration_ms,
}
use access_kit.Jobs.Upserts.{HoldsOnly, with_job, with_job-HoldsOnly}
use access_kit.Jobs.Order.{sort_jobs-LeadsAll}

pub is_running-true : (s : JobStatus) → is_running s ≡ true → s ≡ running
is_running-true running h = refl
is_running-true queued h = absurd (cc)
is_running-true completed h = absurd (cc)
is_running-true failed h = absurd (cc)
is_running-true dead_lettered h = absurd (cc)

module _ (dates : Dates) (text_le locale_before : String → String → Bool) where
  abbrev recovered : Queue → String → Queue
  recovered = recover_expired_running_jobs dates text_le locale_before

  abbrev pub Eligible : Queue → String → QueuedJob → Type 0
  Eligible queue at job =
      In job (recovered queue at).queued_jobs
      × (is_eligible dates text_le locale_before (recovered queue at) at job ≡ true)

  -- A job that runs for the worker, and as it was before: one of those that are eligible once lost
  -- leases are recovered, of which none is of a more urgent priority.
  -- The queue after it holds that job, and is as recovered but for it.
  pub record IsReservation (queue : Queue) (at worker_id : String) (reserved : QueuedJob)
      (after : Queue) : Type 0 where
    pub before : QueuedJob
    pub was_eligible : Eligible queue at before
    pub most_urgent :
        (k : QueuedJob)
        → Eligible queue at k
        → priority_rank before.priority ≤ priority_rank k.priority
    pub same_id : reserved.id ≡ before.id
    pub runs : reserved.status ≡ running
    pub for_worker : reserved.worker_id ≡ some worker_id
    pub counted : reserved.attempts ≡ suc before.attempts
    pub stored : HoldsOnly (recovered queue at) reserved after

  same_reserved :
      (x y : QueuedJob) (p q : Queue)
      → ◌≡◌ {A = Option (Option QueuedJob × Queue)} (some (some x, p)) (some (some y, q))
      → (x ≡ y) × (p ≡ q)
  same_reserved x y p q e = (cc, cc)

  reserved_of :
      (queue after : Queue) (at worker_id : String) (job reserved : QueuedJob)
      (others : List QueuedJob) (lease_end : String)
      → eligible_jobs dates text_le locale_before (recovered queue at) at ≡ job ∷ others
      → reserved ≡ reserved_job dates text_le locale_before job worker_id at lease_end
      → HoldsOnly (recovered queue at) reserved after
      → IsReservation queue at worker_id reserved after
  reserved_of queue after at worker_id job reserved others lease_end e same holds =
      let (there, leads) = sort_jobs-LeadsAll dates text_le locale_before _ job others e in
      let was =
        filter_by-In (is_eligible dates text_le locale_before (recovered queue at) at) job
          (recovered queue at).queued_jobs there in
      record {
        before = job;
        was_eligible = was;
        most_urgent = λ k m. leads k (
            In-filter_by (is_eligible dates text_le locale_before (recovered queue at) at) k
              (recovered queue at).queued_jobs m.0 m.1);
        same_id = ap (λ (x : QueuedJob). x.id) same;
        runs = ap (λ (x : QueuedJob). x.status) same;
        for_worker = ap (λ (x : QueuedJob). x.worker_id) same;
        counted = ap (λ (x : QueuedJob). x.attempts) same;
        stored = holds;
      }

  -- A reservation takes an eligible job of the most urgent priority that there is and gives it to the
  -- worker with one attempt more. The queue after it holds that job as reserved, and is in every other
  -- job, in its connectors and in its records the queue with lost leases recovered.
  pub reserve_next_job-IsReservation :
      (queue after : Queue) (at worker_id : String) (lease_ms : Option ℕ) (reserved : QueuedJob)
      → reserve_next_job dates text_le locale_before queue worker_id at lease_ms
        ≡ some (some reserved, after)
      → IsReservation queue at worker_id reserved after
  unfolding reserve_next_job
  reserve_next_job-IsReservation queue after at worker_id lease_ms reserved h =
      elim (List-cases (eligible_jobs dates text_le locale_before (recovered queue at) at)) [
        | inl e ↦ absurd (ground (arith, e))
        | inr (job, others, e) ↦
            elim (Option-cases (
              add_milliseconds dates text_le locale_before at
                (lease_ms otherwise default_lease_duration_ms dates text_le locale_before))) [
                  | inl f ↦ absurd (ground (arith, e, f))
                  | inr (lease_end, f) ↦
                      let (same, kept) = same_reserved _ _ _ _ (rw (e, reserve_next_job, f) at h) in
                      reserved_of queue after at worker_id job reserved others lease_end e
                        (sym same)
                        (subst (HoldsOnly (recovered queue at) reserved) kept (
                          subst
                            (λ x. HoldsOnly (recovered queue at) x (
                              with_job (recovered queue at) (
                                reserved_job dates text_le locale_before job worker_id at
                                  lease_end)))
                            same (with_job-HoldsOnly (recovered queue at) _)))
                ]
      ]

  -- What a failure makes of a running job: queued again while attempts are left, after a delay within
  -- the policy's longest, or dead-lettered.
  abbrev pub FailsTo : QueuedJob → String → QueuedJob → Type 0
  FailsTo job at after =
      (after.id ≡ job.id)
      × (after.attempts ≡ job.attempts)
      × (((job.attempts < job.max_attempts)
            × (after.status ≡ queued)
            × (after.worker_id ≡ none)
            × ((n delay : ℕ) × (dates.parse at ≡ some n)
                × (delay ≤ job.backoff.max_delay_ms)
                × (after.available_at ≡ dates.to_iso_string (n + delay))))
          ⊎ ((job.max_attempts ≤ job.attempts)
              × (after.status ≡ dead_lettered)
              × (after.dead_lettered_at ≡ some at)))

  min_bound : (a b : ℕ) → min a b ≤ a
  min_bound a b = omega arith

  else_some : {A : Type 0} (b : Bool) (x y : A) → (if b then none else some x) ≡ some y → y ≡ x
  else_some true x y e = absurd (cc)
  else_some false x y e = cc

  then_some : {A : Type 0} (b : Bool) (x y : A) → (if b then some x else none) ≡ some y → y ≡ x
  then_some true x y e = cc
  then_some false x y e = absurd (cc)

  delay_bound :
      (job : QueuedJob) (delay : ℕ)
      → backoff_delay_ms job ≡ some delay
      → delay ≤ job.backoff.max_delay_ms
  unfolding backoff_delay_ms
  delay_bound job delay h =
      subst (λ n. n ≤ job.backoff.max_delay_ms)
        (sym (
          else_some (leb job.backoff.initial_delay_ms 0 && is_infinite (backoff_power job))
            (min job.backoff.max_delay_ms (job.backoff.initial_delay_ms * backoff_power job)) delay
            h))
        (min_bound job.backoff.max_delay_ms (job.backoff.initial_delay_ms * backoff_power job))

  add_milliseconds-some :
      (at : String) (ms : ℕ) (end_at : String)
      → add_milliseconds dates text_le locale_before at ms ≡ some end_at
      → (n : ℕ) × (dates.parse at ≡ some n) × (end_at ≡ dates.to_iso_string (n + ms))
  unfolding add_milliseconds
  add_milliseconds-some at ms end_at h = elim (Option-cases (dates.parse at)) [
    | inl e ↦ absurd (ground (arith, e))
    | inr (n, e) ↦ (n, e, then_some _ _ _ (rw (e, add_milliseconds) at h))
  ]

  retry_at-some :
      (job : QueuedJob) (at available_at : String)
      → retry_at dates text_le locale_before at job ≡ some available_at
      → (n delay : ℕ) × (dates.parse at ≡ some n)
        × (delay ≤ job.backoff.max_delay_ms)
        × (available_at ≡ dates.to_iso_string (n + delay))
  unfolding retry_at
  retry_at-some job at available_at h = elim (Option-cases (backoff_delay_ms job)) [
    | inl e ↦ absurd (ground (arith, e))
    | inr (delay, e) ↦
        let (n, parsed, end_at) =
          add_milliseconds-some at delay available_at (rw (e, retry_at) at h) in
        (n, delay, parsed, delay_bound job delay e, end_at)
  ]

  failed_job-FailsTo :
      (job after : QueuedJob) (at : String) (worker_id : Option String) (error : String)
      → failed_job dates text_le locale_before job at worker_id error ≡ some after
      → FailsTo job at after
  unfolding failed_job
  failed_job-FailsTo job after at worker_id error h =
      elim (Bool-cases (ltb job.attempts job.max_attempts)) [
        | inl left ↦ elim (Option-cases (retry_at dates text_le locale_before at job)) [
          | inl e ↦ absurd (ground (arith, left, e))
          | inr (available_at, e) ↦
              let same = sym (some-injective _ after (rw (left, failed_job, e) at h)) in
              let (n, delay, parsed, bound, end_at) = retry_at-some job at available_at e in
              (
                ap (λ (x : QueuedJob). x.id) same,
                ap (λ (x : QueuedJob). x.attempts) same,
                inl (
                  ground (arith, left),
                  ap (λ (x : QueuedJob). x.status) same,
                  ap (λ (x : QueuedJob). x.worker_id) same,
                  (n, delay, parsed, bound, ap (λ (x : QueuedJob). x.available_at) same ∙ end_at),
                ),
              )
        ]
        | inr spent ↦
            let same = sym (some-injective _ after (rw (spent, failed_job) at h)) in
            (
              ap (λ (x : QueuedJob). x.id) same,
              ap (λ (x : QueuedJob). x.attempts) same,
              inr (
                ground (arith, spent),
                ap (λ (x : QueuedJob). x.status) same,
                ap (λ (x : QueuedJob). x.dead_lettered_at) same,
              ),
            )
      ]

  -- A failure is recorded only of a job that the queue has and that is running; it is queued again
  -- while it has attempts left, to be available after a delay no longer than its policy allows, and
  -- dead-lettered otherwise. The queue after it holds the failed job, and is as it was in every other
  -- job, in its connectors and in its records.
  pub record_job_failure-FailsTo :
      (queue after : Queue) (id at error : String) (worker_id : Option String) (result : QueuedJob)
      → record_job_failure dates text_le locale_before queue id at worker_id error
        ≡ some (result, after)
      → (job : QueuedJob) × (required_queued_job queue id ≡ some job)
        × (job.status ≡ running)
        × FailsTo job at result
        × HoldsOnly queue result after
  unfolding record_job_failure
  record_job_failure-FailsTo queue after id at error worker_id result h =
      elim (Option-cases (required_queued_job queue id)) [
        | inl e ↦ absurd (ground (arith, e))
        | inr (job, e) ↦ elim (Bool-cases (may_fail dates text_le locale_before job worker_id)) [
          | inr barred ↦ absurd (ground (arith, e, barred))
          | inl free ↦
              elim (Option-cases (failed_job dates text_le locale_before job at worker_id error)) [
                | inl f ↦ absurd (ground (arith, e, free, f))
                | inr (now_failed, f) ↦
                    let (same, kept) =
                      same_stored now_failed result _ after
                        (rw (e, record_job_failure, free, f) at h) in
                    (
                      job,
                      e,
                      is_running-true job.status (ground (arith, free)),
                      failed_job-FailsTo job result at worker_id error (f ∙ ap some same),
                      subst (HoldsOnly queue result) kept (
                          subst (λ x. HoldsOnly queue x (with_job queue now_failed)) same
                            (with_job-HoldsOnly queue now_failed)),
                    )
              ]
        ]
      ]
    where
      same_stored :
          (x y : QueuedJob) (p q : Queue)
          → ◌≡◌ {A = Option (QueuedJob × Queue)} (some (x, p)) (some (y, q))
          → (x ≡ y) × (p ≡ q)
      same_stored x y p q e = (cc, cc)
