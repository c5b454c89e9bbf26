-- ===== src/Jobs/Transitions.antt =====
-- What reserveNextJob, completeJob and recordJobFailure of packages/core/src/reference-job-queue.ts make
-- of the queue that a commit reads. Where they throw, the answer is `none`. The order `<=` of texts and
-- `localeCompare` are arguments.
use access_kit.Prelude.{
  ℕ, suc, ◌+◌, String, Bool, not, ◌&&◌, ◌||◌, Option, none, some, List, [], ◌∷◌, if◌then◌else◌,
  ◌otherwise◌, or_else, leb, ltb, truthy, holds, filter_by, map,
}
use access_kit.Domain.{CanonicalId, IsoDateTime}
use access_kit.Domain.Dates.{Dates}
use access_kit.Jobs.Text.{lost_message}
use access_kit.Jobs.Model.{QueuedJob, Queue, queued, running, completed, dead_lettered}
use access_kit.Jobs.Entries.{
  priority_rank, is_queued, is_running, is_connector_reservable, upsert_by_id, required_queued_job,
  backoff_delay_ms, worker_differs, last_instant,
}

module _ (dates : Dates) (text_le locale_before : String → String → Bool) where
  unfoldable pub add_milliseconds : IsoDateTime → ℕ → Option IsoDateTime
  add_milliseconds at ms = elim (dates.parse at) [
    | none ↦ none
    | some n ↦ if leb (n + ms) last_instant then some (dates.to_iso_string (n + ms)) else none
  ]

  -- compareQueuedJobs gives a negative number.
  abbrev pub comes_first : QueuedJob → QueuedJob → Bool
  comes_first l r =
      ltb (priority_rank l.priority) (priority_rank r.priority)
      || (not (ltb (priority_rank r.priority) (priority_rank l.priority))
          && locale_before l.requested_at r.requested_at)

  -- A stable sort by it.
  unfoldable pub insert_job : QueuedJob → List QueuedJob → List QueuedJob
  insert_job job [] = job ∷ []
  insert_job job (j ∷ js) =
      let rest = insert_job job js in if comes_first j job then j ∷ rest else job ∷ j ∷ js

  unfoldable pub sort_jobs : List QueuedJob → List QueuedJob
  unfolding insert_job
  sort_jobs [] = []
  sort_jobs (j ∷ js) = insert_job j (sort_jobs js)

  -- `job.status !== "running" || !job.leaseExpiresAt || job.leaseExpiresAt > recoveredAt` is false.
  abbrev pub lease_lost : IsoDateTime → QueuedJob → Bool
  lease_lost at job =
      is_running job.status
      && (truthy job.lease_expires_at && holds (λ e. text_le e at) job.lease_expires_at)

  abbrev pub recover_job : IsoDateTime → QueuedJob → QueuedJob
  recover_job at job =
      if lease_lost at job
      then record job {
        status = queued;
        worker_id = none;
        lease_expires_at = none;
        available_at = at;
        updated_at = at;
        last_error = some (lost_message (job.lease_expires_at otherwise ""));
      }
      else job

  unfoldable pub recover_expired_running_jobs : Queue → IsoDateTime → Queue
  recover_expired_running_jobs queue at = record queue {
    queued_jobs = map (recover_job at) queue.queued_jobs;
  }

  abbrev pub is_eligible : Queue → IsoDateTime → QueuedJob → Bool
  is_eligible queue at job =
      is_queued job.status && (text_le job.available_at at && is_connector_reservable job queue)

  abbrev pub eligible_jobs : Queue → IsoDateTime → List QueuedJob
  eligible_jobs queue at = sort_jobs (filter_by (is_eligible queue at) queue.queued_jobs)

  abbrev pub default_lease_duration_ms : ℕ
  default_lease_duration_ms = 300000

  abbrev pub reserved_job : QueuedJob → CanonicalId → IsoDateTime → IsoDateTime → QueuedJob
  reserved_job job worker_id at lease_end = record job {
    status = running;
    worker_id = some worker_id;
    started_at = some at;
    lease_expires_at = some lease_end;
    updated_at = at;
    attempts = suc job.attempts;
  }

  -- reserveNextJob: the job that it reserves, if there is one, and the queue after it.
  unfoldable pub reserve_next_job :
      Queue → CanonicalId → IsoDateTime → Option ℕ → Option (Option QueuedJob × Queue)
  unfolding add_milliseconds sort_jobs recover_expired_running_jobs upsert_by_id
  reserve_next_job queue worker_id at lease_ms =
      let recovered = recover_expired_running_jobs queue at in
      elim (eligible_jobs recovered at) [
        | [] ↦ some (none, recovered)
        | job ∷ others ↦ elim (add_milliseconds at (lease_ms otherwise default_lease_duration_ms)) [
          | none ↦ none
          | some lease_end ↦
              let reserved = reserved_job job worker_id at lease_end in
              some (
                some reserved,
                record recovered { queued_jobs = upsert_by_id recovered.queued_jobs reserved },
              )
        ]
      ]

  -- The asserts of completeJob, and those of recordJobFailure.
  abbrev pub may_complete : QueuedJob → IsoDateTime → Option CanonicalId → Bool
  may_complete job at worker_id =
      is_running job.status
      && (not (truthy job.lease_expires_at && holds (λ e. text_le e at) job.lease_expires_at)
          && not (worker_differs worker_id job.worker_id))

  abbrev pub may_fail : QueuedJob → Option CanonicalId → Bool
  may_fail job worker_id = is_running job.status && not (worker_differs worker_id job.worker_id)

  abbrev pub stored : Queue → QueuedJob → QueuedJob × Queue
  stored queue job = (job, record queue { queued_jobs = upsert_by_id queue.queued_jobs job })

  unfoldable pub complete_job :
      Queue → CanonicalId → IsoDateTime → Option CanonicalId → Option (QueuedJob × Queue)
  unfolding required_queued_job upsert_by_id
  complete_job queue id at worker_id = elim (required_queued_job queue id) [
    | none ↦ none
    | some job ↦
        if may_complete job at worker_id
        then some (
            stored queue (record job {
              status = completed;
              worker_id = or_else worker_id job.worker_id;
              completed_at = some at;
              updated_at = at;
            }))
        else none
  ]

  -- A job that failed: queued again after its delay, or dead-lettered.
  -- `addMilliseconds(failedAt, backoffDelayMs(job))`, which throws at a delay of NaN.
  unfoldable pub retry_at : IsoDateTime → QueuedJob → Option IsoDateTime
  unfolding add_milliseconds backoff_delay_ms
  retry_at at job = elim (backoff_delay_ms job) [
    | none ↦ none
    | some delay ↦ add_milliseconds at delay
  ]

  unfoldable pub failed_job :
      QueuedJob → IsoDateTime → Option CanonicalId → String → Option QueuedJob
  unfolding retry_at
  failed_job job at worker_id error =
      if ltb job.attempts job.max_attempts
      then elim (retry_at at job) [
        | none ↦ none
        | some available_at ↦ some (record job {
          status = queued;
          worker_id = none;
          lease_expires_at = none;
          failed_at = some at;
          last_error = some error;
          available_at = available_at;
          updated_at = at;
        })
      ]
      else some (record job {
        status = dead_lettered;
        worker_id = or_else worker_id job.worker_id;
        failed_at = some at;
        dead_lettered_at = some at;
        last_error = some error;
        updated_at = at;
      })

  abbrev pub stored_option : Queue → Option QueuedJob → Option (QueuedJob × Queue)
  stored_option queue none = none
  stored_option queue (some job) = some (stored queue job)

  unfoldable pub record_job_failure :
      Queue → CanonicalId → IsoDateTime → Option CanonicalId → String → Option (QueuedJob × Queue)
  unfolding required_queued_job failed_job upsert_by_id
  record_job_failure queue id at worker_id error = elim (required_queued_job queue id) [
    | none ↦ none
    | some job ↦
        if may_fail job worker_id
        then stored_option queue (failed_job job at worker_id error)
        else none
  ]
