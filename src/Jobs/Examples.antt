-- ===== src/Jobs/Examples.antt =====
-- A queue of two jobs, and the theorems at it.
use access_kit.Prelude.{String, Option, Bool, true, false, some, none, [], ◌∷◌, ◌≡◌, refl}
use access_kit.Domain.{CanonicalId}
use access_kit.Domain.Json.{end}
use access_kit.Domain.Dates.{Dates}
use access_kit.Jobs.Entries
use access_kit.Jobs.Model.{
  JobKind, discovery, revocation, JobPriority, normal, emergency, running, QueuedJob, Queue,
  QueueRequest, completed,
}
use access_kit.Jobs.Entries.{create_queued_job, enqueue_normalized_job, required_queued_job}
use access_kit.Jobs.Transitions.{reserve_next_job, record_job_failure, complete_job, lease_lost}
use access_kit.Jobs.Upserts.{HoldsOnly}
use access_kit.Jobs.Laws.{
  IsReservation, FailsTo, reserve_next_job-IsReservation, record_job_failure-FailsTo,
}
use access_kit.Jobs.Idempotency.{enqueue-twice}
use access_kit.Jobs.Completion.{complete_job-once}

abbrev pub dates : Dates
dates = record { parse = λ s. some 1; to_iso_string = λ n. "2" }

abbrev pub not_after : String → String → Bool
not_after = λ s t. true

abbrev pub earlier : String → String → Bool
earlier = λ s t. false

abbrev pub identity : CanonicalId → String → JobKind → String
identity = λ c key kind. key

abbrev pub request : JobKind → JobPriority → String → QueueRequest
request kind priority key = record {
  kind = kind;
  connector_id = "directory";
  idempotency_key = key;
  payload = end;
  priority = priority;
  requested_at = "1";
  max_attempts = 3;
  backoff = record { initial_delay_ms = 30000; max_delay_ms = 900000; multiplier = none };
  approval = none;
  control = none;
  readiness_report_id = none;
  request_hash = key;
  replayed_from_job_id = none;
}

abbrev directory_scan : QueuedJob
directory_scan = create_queued_job identity (request discovery normal "scan")

abbrev revoke : QueuedJob
revoke = create_queued_job identity (request revocation emergency "revoke")

abbrev queue : Queue
queue = record {
  queued_jobs = directory_scan ∷ revoke ∷ [];
  connector_health = [];
  idempotency_records = [];
}

reserved :
    (job : QueuedJob) × (after : Queue) × (reserve_next_job dates not_after earlier queue "worker"
        "1" none
      ≡ some (some job, after))
unfolding reserve_next_job create_queued_job Entries.is_connector_reservable Entries.priority_rank
reserved = (_, _, refl)

reserve_next_job-IsReservation_example :
    IsReservation dates not_after earlier queue "1" "worker" reserved.0 reserved.1
reserve_next_job-IsReservation_example =
    reserve_next_job-IsReservation dates not_after earlier queue reserved.1 "1" "worker" none
      reserved.0 reserved.2

failed_one :
    (job : QueuedJob) × (after : Queue) × (record_job_failure dates not_after earlier reserved.1
        revoke.id "1" none "timeout"
      ≡ some (job, after))
unfolding record_job_failure create_queued_job reserved
failed_one = (_, _, refl)

record_job_failure-FailsTo_example :
    (job : QueuedJob) × (required_queued_job reserved.1 revoke.id ≡ some job)
    × (job.status ≡ running)
    × FailsTo dates not_after earlier job "1" failed_one.0
    × HoldsOnly reserved.1 failed_one.0 failed_one.1
record_job_failure-FailsTo_example =
    record_job_failure-FailsTo dates not_after earlier reserved.1 failed_one.1 revoke.id "1"
      "timeout" none failed_one.0 failed_one.2

enqueued :
    (job : QueuedJob) × (after : Queue) × (enqueue_normalized_job identity queue
        (request discovery normal "audit")
      ≡ some (job, after))
unfolding enqueue_normalized_job create_queued_job
enqueued = (_, _, refl)

new_id :
    required_queued_job queue (create_queued_job identity (request discovery normal "audit")).id
    ≡ none
unfolding required_queued_job create_queued_job
new_id = refl

enqueue-twice_example :
    enqueue_normalized_job identity enqueued.1 (request discovery normal "audit")
    ≡ some (enqueued.0, enqueued.1)
enqueue-twice_example =
    enqueue-twice identity queue (request discovery normal "audit") enqueued.0 enqueued.1
      (λ e. new_id) enqueued.2

completed_one :
    (job : QueuedJob) × (after : Queue) × (complete_job dates earlier earlier reserved.1 revoke.id
        "1" none
      ≡ some (job, after))
unfolding complete_job create_queued_job reserved
completed_one = (_, _, refl)

complete_job-once_example :
    ((job : QueuedJob) × (required_queued_job reserved.1 revoke.id ≡ some job)
      × (job.status ≡ running)
      × (lease_lost dates earlier earlier "1" job ≡ false))
    × (completed_one.0.status ≡ completed)
    × (required_queued_job completed_one.1 revoke.id ≡ some completed_one.0)
    × ((later : String) (worker : Option String)
        → complete_job dates earlier earlier completed_one.1 revoke.id later worker ≡ none)
complete_job-once_example =
    complete_job-once dates earlier earlier reserved.1 completed_one.1 revoke.id "1" none
      completed_one.0 completed_one.2
