-- ===== src/Jobs/Upserts.antt =====
-- What a job that is written into the queue of packages/core/src/reference-job-queue.ts changes there.
use access_kit.Prelude.{
  String, false, some, List, [], ◌∷◌, ◌≡◌, ◌≢◌, refl, subst, inl, inr, arith, Bool-cases, find_by,
  find_by-some, ◌==◌, eq_iff,
}
use access_kit.Jobs.Model.{QueuedJob, Queue}
use access_kit.Jobs.Entries.{required_queued_job, upsert_by_id}

find_by-upsert_by_id :
    (js : List QueuedJob) (job : QueuedJob)
    → find_by (λ j. j.id == job.id) (upsert_by_id js job) ≡ some job
unfolding upsert_by_id
find_by-upsert_by_id [] job = ground (arith, eq_iff job.id job.id)
find_by-upsert_by_id (j ∷ js) job = elim (Bool-cases (j.id == job.id)) [
  | inl e ↦ ground (arith, e, eq_iff job.id job.id)
  | inr e ↦ ground (arith, e, find_by-upsert_by_id js job)
]

find_by-upsert_other :
    (js : List QueuedJob) (job : QueuedJob) (id : String)
    → (job.id == id) ≡ false
    → find_by (λ j. j.id == id) (upsert_by_id js job) ≡ find_by (λ j. j.id == id) js
unfolding upsert_by_id
find_by-upsert_other [] job id other = ground (arith, other)
find_by-upsert_other (j ∷ js) job id other = elim (Bool-cases (j.id == job.id)) [
  | inl e ↦ ground (arith, e, other, eq_iff j.id job.id, eq_iff j.id id, eq_iff job.id id)
  | inr e ↦ ground (arith, e, find_by-upsert_other js job id other)
]

abbrev pub with_job : Queue → QueuedJob → Queue
with_job queue job = record queue { queued_jobs = upsert_by_id queue.queued_jobs job }

pub read_back :
    (queue : Queue) (id : String) (done : QueuedJob)
    → done.id ≡ id
    → required_queued_job (with_job queue done) id ≡ some done
unfolding required_queued_job
read_back queue id done e =
    subst (λ i. find_by (λ j. j.id == i) (upsert_by_id queue.queued_jobs done) ≡ some done) e
      (find_by-upsert_by_id queue.queued_jobs done)

pub required-id :
    (queue : Queue) (id : String) (job : QueuedJob)
    → required_queued_job queue id ≡ some job
    → job.id ≡ id
unfolding required_queued_job
required-id queue id job e =
    ground (arith, eq_iff job.id id, find_by-some (λ j. j.id == id) job queue.queued_jobs e)

-- Of the queue before, the one after has the job under its id; the job of every other id, the
-- connectors and the idempotency records are as they were.
pub record HoldsOnly (before : Queue) (job : QueuedJob) (after : Queue) : Type 0 where
  pub held : required_queued_job after job.id ≡ some job
  pub others :
      (id : String) → id ≢ job.id → required_queued_job after id ≡ required_queued_job before id
  pub same_health : after.connector_health ≡ before.connector_health
  pub same_records : after.idempotency_records ≡ before.idempotency_records

pub with_job-HoldsOnly :
    (queue : Queue) (job : QueuedJob) → HoldsOnly queue job (with_job queue job)
unfolding required_queued_job
with_job-HoldsOnly queue job = record {
  held = read_back queue job.id job refl;
  others = λ id apart.
      find_by-upsert_other queue.queued_jobs job id (elim (Bool-cases (job.id == id)) [
        | inl same ↦ absurd (apart (ground (arith, same, eq_iff job.id id)))
        | inr other ↦ other
      ]);
  same_health = refl;
  same_records = refl;
}
