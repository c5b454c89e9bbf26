-- ===== src/Jobs/Steps.antt =====
-- The operations on the queue of packages/core/src/reference-job-queue.ts as steps, and what every run
-- of them keeps.
use access_kit.Prelude.{
  String, Bool, false, some, List, [], ◌∷◌, ◌≡◌, refl, sym, subst, inl, inr, arith, In, All, All-In,
  find_by, ◌==◌, eq_iff, map, Bool-cases,
}
use access_kit.Domain.{CanonicalId, IsoDateTime}
use access_kit.Domain.Dates.{Dates}
use access_kit.Jobs.Model.{JobKind, QueuedJob, Queue, running, completed, dead_lettered, queued}
use access_kit.Jobs.Entries.{upsert_by_id}
use access_kit.Jobs.Transitions.{recover_job, recover_expired_running_jobs, lease_lost}
use access_kit.Jobs.Consistent.{
  JobIdentity, IsSound, IsConsistent, IsSame, IsSame-self, Carries, HasUniqueIds, with_id,
  carried-IsConsistent,
}

module _ (identity : CanonicalId → String → JobKind → String) (requests : List JobIdentity)
    (dates : Dates) (text_le locale_before : String → String → Bool) where
  Carries-self : (js : List QueuedJob) → Carries identity requests js js
  Carries-self [] = tt
  Carries-self (j ∷ js) = (IsSame-self identity requests j, Carries-self js)

  -- A job takes the place of the one that has its id.
  upsert-Carries :
      (js : List QueuedJob) (j k : QueuedJob)
      → find_by (with_id identity requests k.id) js ≡ some j
      → IsSame identity requests j k
      → Carries identity requests js (upsert_by_id js k)
  unfolding upsert_by_id
  upsert-Carries [] j k h s = absurd (cc)
  upsert-Carries (i ∷ js) j k h s = elim (Bool-cases (i.id == k.id)) [
    | inl same ↦
        let here : i ≡ j = ground (arith, same) in
        rw same (subst (λ x. IsSame identity requests x k) (sym here) s, Carries-self js)
    | inr other ↦
        rw other (IsSame-self identity requests i, upsert-Carries js j k (ground (arith, other)) s)
  ]

  upsert-IsSound :
      (js : List QueuedJob) (k : QueuedJob)
      → IsSound identity requests k
      → All (IsSound identity requests) js
      → All (IsSound identity requests) (upsert_by_id js k)
  unfolding upsert_by_id
  upsert-IsSound [] k s h = (s, tt)
  upsert-IsSound (i ∷ js) k s h = elim (Bool-cases (i.id == k.id)) [
    | inl same ↦ rw same (s, h.1)
    | inr other ↦ rw other (h.0, upsert-IsSound js k s h.1)
  ]

  -- A sound job with the id, the key and the hash of one that is there takes its place.
  pub upsert-IsConsistent :
      (q : Queue) (j k : QueuedJob)
      → find_by (with_id identity requests k.id) q.queued_jobs ≡ some j
      → IsSame identity requests j k
      → IsSound identity requests k
      → IsConsistent identity requests q
      → IsConsistent identity requests (record q { queued_jobs = upsert_by_id q.queued_jobs k })
  upsert-IsConsistent q j k found same sound h =
      carried-IsConsistent identity requests q (upsert_by_id q.queued_jobs k)
        (upsert-Carries q.queued_jobs j k found same) (upsert-IsSound q.queued_jobs k sound h.sound)
        h

  -- In a queue with unique ids, the search for the id of a job finds that job.
  pub find_own :
      (js : List QueuedJob) (j : QueuedJob)
      → HasUniqueIds identity requests js
      → In j js
      → find_by (with_id identity requests j.id) js ≡ some j
  find_own [] j u m = absurd m
  find_own (i ∷ js) j u (inl e) = ground (arith, e, eq_iff i.id i.id)
  find_own (i ∷ js) j u (inr m) =
      let other = All-In (λ (k : QueuedJob). (k.id == i.id) ≡ false) j js u.0 m in
      ground (arith, eq_iff i.id j.id, eq_iff j.id i.id, other, find_own js j u.1 m)

  recover_job-IsSame :
      (at : IsoDateTime) (j : QueuedJob)
      → IsSame identity requests j (recover_job dates text_le locale_before at j)
  recover_job-IsSame at j = elim (Bool-cases (lease_lost dates text_le locale_before at j)) [
    | inl lost ↦ rw lost (record { id_kept = refl; key_kept = refl; hash_kept = refl })
    | inr kept ↦ rw kept (IsSame-self identity requests j)
  ]

  recover_job-IsSound :
      (at : IsoDateTime) (j : QueuedJob)
      → IsSound identity requests j
      → IsSound identity requests (recover_job dates text_le locale_before at j)
  recover_job-IsSound at j s = elim (Bool-cases (lease_lost dates text_le locale_before at j)) [
    | inl lost ↦ rw lost (record {
      known = s.known;
      named = s.named;
      held = λ (e : queued ≡ running). absurd (cc);
      spent = λ (e : queued ≡ dead_lettered). absurd (cc);
      ended = λ (e : queued ≡ completed). absurd (cc);
    })
    | inr kept ↦ rw kept s
  ]

  recovered-Carries :
      (at : IsoDateTime) (js : List QueuedJob)
      → Carries identity requests js (map (recover_job dates text_le locale_before at) js)
  recovered-Carries at [] = tt
  recovered-Carries at (j ∷ js) = (recover_job-IsSame at j, recovered-Carries at js)

  recovered-IsSound :
      (at : IsoDateTime) (js : List QueuedJob)
      → All (IsSound identity requests) js
      → All (IsSound identity requests) (map (recover_job dates text_le locale_before at) js)
  recovered-IsSound at [] h = tt
  recovered-IsSound at (j ∷ js) h = (recover_job-IsSound at j h.0, recovered-IsSound at js h.1)

  pub recover-IsConsistent :
      (q : Queue) (at : IsoDateTime)
      → IsConsistent identity requests q
      → IsConsistent identity requests
          (recover_expired_running_jobs dates text_le locale_before q at)
  unfolding recover_expired_running_jobs
  recover-IsConsistent q at h =
      carried-IsConsistent identity requests q _ (recovered-Carries at q.queued_jobs)
        (recovered-IsSound at q.queued_jobs h.sound) h
