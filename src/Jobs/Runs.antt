-- ===== src/Jobs/Runs.antt =====
-- Runs of the operations on the queue of packages/core/src/reference-job-queue.ts, and what each run
-- keeps.
use access_kit.Prelude.{
  some-injective, ℕ, String, Bool, Option, none, some, List, ◌≡◌, refl, sym, subst, inl, inr, arith,
  All-In, find_by, find_by-some, ltb, filter_by-In, Bool-cases, Option-cases, List-cases,
  ◌otherwise◌,
}
use access_kit.Domain.{CanonicalId, IsoDateTime}
use access_kit.Domain.Dates.{Dates}
use access_kit.Jobs.Model.{JobKind, QueuedJob, Queue, running, completed, dead_lettered, queued}
use access_kit.Jobs.Entries.{required_queued_job}
use access_kit.Jobs.Transitions.{
  recover_expired_running_jobs, is_eligible, reserve_next_job, reserved_job, complete_job,
  record_job_failure, failed_job, retry_at, add_milliseconds, may_complete, may_fail, eligible_jobs,
  default_lease_duration_ms,
}
use access_kit.Jobs.Order.{sort_jobs-LeadsAll}
use access_kit.Jobs.Consistent.{JobIdentity, IsSound, IsConsistent, IsSame, with_id}
use access_kit.Jobs.Steps.{upsert-IsConsistent, find_own, recover-IsConsistent}

module _ (identity : CanonicalId → String → JobKind → String) (requests : List JobIdentity)
    (dates : Dates) (text_le locale_before : String → String → Bool) where
  abbrev recovered : Queue → IsoDateTime → Queue
  recovered = recover_expired_running_jobs dates text_le locale_before

  abbrev eligible : Queue → IsoDateTime → List QueuedJob
  eligible q at = eligible_jobs dates text_le locale_before (recovered q at) at

  reserved-IsSound :
      (j : QueuedJob) (worker at lease : String)
      → IsSound identity requests j
      → IsSound identity requests (reserved_job dates text_le locale_before j worker at lease)
  reserved-IsSound j worker at lease s = record {
    known = s.known;
    named = s.named;
    held = λ e. ((worker, refl), (lease, refl));
    spent = λ (e : running ≡ dead_lettered). absurd (cc);
    ended = λ (e : running ≡ completed). absurd (cc);
  }

  same_queue :
      (a b : Option QueuedJob) (p q : Queue)
      → ◌≡◌ {A = Option (Option QueuedJob × Queue)} (some (a, p)) (some (b, q))
      → p ≡ q
  same_queue a b p q e = cc

  same_after :
      (a b : QueuedJob) (p q : Queue)
      → ◌≡◌ {A = Option (QueuedJob × Queue)} (some (a, p)) (some (b, q))
      → p ≡ q
  same_after a b p q e = cc

  pub reserve-IsConsistent :
      (q after : Queue) (worker at : String) (lease_ms : Option ℕ) (result : Option QueuedJob)
      → reserve_next_job dates text_le locale_before q worker at lease_ms ≡ some (result, after)
      → IsConsistent identity requests q
      → IsConsistent identity requests after
  unfolding reserve_next_job
  reserve-IsConsistent q after worker at lease_ms result h c =
      let here = recover-IsConsistent identity requests dates text_le locale_before q at c in
      elim (List-cases (eligible q at)) [
        | inl e ↦
            subst (IsConsistent identity requests)
              (same_queue none result (recovered q at) after (rw (e, reserve_next_job) at h)) here
        | inr (j, others, e) ↦
            elim (Option-cases (
              add_milliseconds dates text_le locale_before at
                (lease_ms otherwise default_lease_duration_ms dates text_le locale_before))) [
                  | inl f ↦ absurd (ground (arith, e, f))
                  | inr (lease, f) ↦
                      let (there, leads) =
                        sort_jobs-LeadsAll dates text_le locale_before _ j others e in
                      let (inside, fit) =
                        filter_by-In (is_eligible dates text_le locale_before (recovered q at) at) j
                          (recovered q at).queued_jobs there in
                      subst (IsConsistent identity requests)
                        (same_queue _ result _ after (rw (e, reserve_next_job, f) at h))
                        (upsert-IsConsistent identity requests dates text_le locale_before
                          (recovered q at) j
                          (reserved_job dates text_le locale_before j worker at lease)
                          (find_own identity requests dates text_le locale_before
                            (recovered q at).queued_jobs j here.unique inside)
                          (record { id_kept = refl; key_kept = refl; hash_kept = refl })
                          (reserved-IsSound j worker at lease (
                            All-In (IsSound identity requests) j (recovered q at).queued_jobs
                              here.sound inside))
                          here)
                ]
      ]

  -- The job that an operation changes, as it was, and what is found under its id.
  found_job :
      (q : Queue) (id : String) (j : QueuedJob)
      → required_queued_job q id ≡ some j
      → IsConsistent identity requests q
      → (find_by (with_id identity requests j.id) q.queued_jobs ≡ some j)
        × IsSound identity requests j
  unfolding required_queued_job
  found_job q id j h c =
      let (same, inside) = find_by-some (with_id identity requests id) j q.queued_jobs h in
      (
        find_own identity requests dates text_le locale_before q.queued_jobs j c.unique inside,
        All-In (IsSound identity requests) j q.queued_jobs c.sound inside,
      )

  pub complete-IsConsistent :
      (q after : Queue) (id at : String) (worker : Option String) (result : QueuedJob)
      → complete_job dates text_le locale_before q id at worker ≡ some (result, after)
      → IsConsistent identity requests q
      → IsConsistent identity requests after
  unfolding complete_job
  complete-IsConsistent q after id at worker result h c =
      elim (Option-cases (required_queued_job q id)) [
        | inl e ↦ absurd (ground (arith, e))
        | inr (j, e) ↦ elim (Bool-cases (may_complete dates text_le locale_before j at worker)) [
          | inr barred ↦ absurd (ground (arith, e, barred))
          | inl free ↦
              let (found, s) = found_job q id j e c in
              subst (IsConsistent identity requests)
                (same_after _ result _ after (rw (e, complete_job, free) at h))
                (upsert-IsConsistent identity requests dates text_le locale_before q j _ found
                  (record { id_kept = refl; key_kept = refl; hash_kept = refl })
                  (record {
                    known = s.known;
                    named = s.named;
                    held = λ (e : completed ≡ running). absurd (cc);
                    spent = λ (e : completed ≡ dead_lettered). absurd (cc);
                    ended = λ e. (at, refl);
                  })
                  c)
        ]
      ]

  failed_job-IsSound :
      (j k : QueuedJob) (at : String) (worker : Option String) (error : String)
      → failed_job dates text_le locale_before j at worker error ≡ some k
      → IsSound identity requests j
      → IsSame identity requests j k × IsSound identity requests k
  unfolding failed_job
  failed_job-IsSound j k at worker error h s = elim (Bool-cases (ltb j.attempts j.max_attempts)) [
    | inl left ↦ elim (Option-cases (retry_at dates text_le locale_before at j)) [
      | inl e ↦ absurd (ground (arith, left, e))
      | inr (available_at, e) ↦
          subst (λ x. IsSame identity requests j x × IsSound identity requests x)
            (some-injective _ k (rw (left, failed_job, e) at h))
            (
              record { id_kept = refl; key_kept = refl; hash_kept = refl },
              record {
                known = s.known;
                named = s.named;
                held = λ (e : queued ≡ running). absurd (cc);
                spent = λ (e : queued ≡ dead_lettered). absurd (cc);
                ended = λ (e : queued ≡ completed). absurd (cc);
              },
            )
    ]
    | inr spent ↦
        subst (λ x. IsSame identity requests j x × IsSound identity requests x)
          (some-injective _ k (rw (spent, failed_job) at h))
          (
            record { id_kept = refl; key_kept = refl; hash_kept = refl },
            record {
              known = s.known;
              named = s.named;
              held = λ (e : dead_lettered ≡ running). absurd (cc);
              spent = λ e. (ground (arith, spent), (at, refl));
              ended = λ (e : dead_lettered ≡ completed). absurd (cc);
            },
          )
  ]

  pub failure-IsConsistent :
      (q after : Queue) (id at : String) (worker : Option String) (error : String)
      (result : QueuedJob)
      → record_job_failure dates text_le locale_before q id at worker error ≡ some (result, after)
      → IsConsistent identity requests q
      → IsConsistent identity requests after
  unfolding record_job_failure
  failure-IsConsistent q after id at worker error result h c =
      elim (Option-cases (required_queued_job q id)) [
        | inl e ↦ absurd (ground (arith, e))
        | inr (j, e) ↦ elim (Bool-cases (may_fail dates text_le locale_before j worker)) [
          | inr barred ↦ absurd (ground (arith, e, barred))
          | inl free ↦
              elim (Option-cases (failed_job dates text_le locale_before j at worker error)) [
                | inl f ↦ absurd (ground (arith, e, free, f))
                | inr (k, f) ↦
                    let (found, s) = found_job q id j e c in
                    let (same, sound) = failed_job-IsSound j k at worker error f s in
                    subst (IsConsistent identity requests)
                      (same_after k result _ after (rw (e, record_job_failure, free, f) at h))
                      (upsert-IsConsistent identity requests dates text_le locale_before q j k
                        (subst (λ x. find_by (with_id identity requests x) q.queued_jobs ≡ some j)
                          (sym same.id_kept) found)
                        same sound c)
              ]
        ]
      ]
