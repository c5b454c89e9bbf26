-- ===== src/Jobs/Completion.antt =====
-- Completing a job, in packages/core/src/reference-job-queue.ts.
use access_kit.Prelude.{
  String, Bool, false, Option, none, some, ◌≡◌, sym, ap, subst, ◌∙◌, inl, inr, arith, Option-cases,
  Bool-cases,
}
use access_kit.Domain.Dates.{Dates}
use access_kit.Jobs.Model.{QueuedJob, Queue, completed, running}
use access_kit.Jobs.Entries.{required_queued_job, upsert_by_id}
use access_kit.Jobs.Transitions.{may_complete, lease_lost, complete_job}
use access_kit.Jobs.Upserts.{required-id, read_back}
use access_kit.Jobs.Laws.{is_running-true}

module _ (dates : Dates) (text_le locale_before : String → String → Bool) where
  abbrev complete : Queue → String → String → Option String → Option (QueuedJob × Queue)
  complete = complete_job dates text_le locale_before

  same_stored :
      (x y : QueuedJob) (p q : Queue)
      → ◌≡◌ {A = Option (QueuedJob × Queue)} (some (x, p)) (some (y, q))
      → (y ≡ x) × (q ≡ p)
  same_stored x y p q e = (cc, cc)

  not_again :
      (queue : Queue) (id at : String) (worker_id : Option String) (done : QueuedJob)
      → required_queued_job queue id ≡ some done
      → done.status ≡ completed
      → complete queue id at worker_id ≡ none
  unfolding complete_job
  not_again queue id at worker_id done e s = ground (arith, e, s)

  -- A job is completed only if it was running and its lease had not ended; the queue then holds it as
  -- completed, and it cannot be completed again.
  pub complete_job-once :
      (queue after : Queue) (id at : String) (worker_id : Option String) (done : QueuedJob)
      → complete_job dates text_le locale_before queue id at worker_id ≡ some (done, after)
      → ((job : QueuedJob) × (required_queued_job queue id ≡ some job)
          × (job.status ≡ running)
          × (lease_lost dates text_le locale_before at job ≡ false))
        × (done.status ≡ completed)
        × (required_queued_job after id ≡ some done)
        × ((later : String) (worker : Option String)
            → complete_job dates text_le locale_before after id later worker ≡ none)
  unfolding complete_job
  complete_job-once queue after id at worker_id done h =
      elim (Option-cases (required_queued_job queue id)) [
        | inl e ↦ absurd (ground (arith, e))
        | inr (job, e) ↦
            elim (Bool-cases (may_complete dates text_le locale_before job at worker_id)) [
              | inr barred ↦ absurd (ground (arith, e, barred))
              | inl free ↦
                  let (same, kept) = same_stored _ done _ after (rw (e, complete_job, free) at h) in
                  let is_done = ap (λ (x : QueuedJob). x.status) same in
                  let back =
                    subst (λ (q : Queue). required_queued_job q id ≡ some done) (sym kept)
                      (subst
                        (λ (d : QueuedJob).
                          required_queued_job
                            (record queue { queued_jobs = upsert_by_id queue.queued_jobs d }) id
                          ≡ some done)
                        same
                        (read_back queue id done
                          (ap (λ (x : QueuedJob). x.id) same ∙ required-id queue id job e))) in
                  (
                    (
                      job,
                      e,
                      is_running-true job.status (ground (arith, free)),
                      ground (arith, free),
                    ),
                    is_done,
                    back,
                    λ later worker. not_again after id later worker done back is_done,
                  )
            ]
      ]
