-- ===== src/Jobs/Order.antt =====
-- The order in which reserveNextJob of packages/core/src/reference-job-queue.ts takes jobs.
use access_kit.Prelude.{
  ◌≤◌, String, Bool, true, false, List, [], ◌∷◌, ◌≡◌, refl, sym, subst, ◌⊎◌, inl, inr, arith, In,
  Bool-cases,
}
use access_kit.Domain.Dates.{Dates}
use access_kit.Jobs.Model.{QueuedJob}
use access_kit.Jobs.Entries.{priority_rank}
use access_kit.Jobs.Transitions.{comes_first, insert_job, sort_jobs}

module _ (dates : Dates) (text_le locale_before : String → String → Bool) where
  -- A job that no other of a list goes before by its priority.
  abbrev pub LeadsAll : QueuedJob → List QueuedJob → Type 0
  LeadsAll j js = (k : QueuedJob) → In k js → priority_rank j.priority ≤ priority_rank k.priority

  abbrev inserted : QueuedJob → List QueuedJob → List QueuedJob
  inserted = insert_job dates text_le locale_before

  abbrev sorted : List QueuedJob → List QueuedJob
  sorted = sort_jobs dates text_le locale_before

  insert_behind :
      (job j : QueuedJob) (js : List QueuedJob)
      → comes_first dates text_le locale_before j job ≡ true
      → inserted job (j ∷ js) ≡ j ∷ inserted job js
  unfolding insert_job
  insert_behind job j js first = rw (first, insert_job) refl

  insert_before :
      (job j : QueuedJob) (js : List QueuedJob)
      → comes_first dates text_le locale_before j job ≡ false
      → inserted job (j ∷ js) ≡ job ∷ j ∷ js
  unfolding insert_job
  insert_before job j js later = rw (later, insert_job) refl

  insert_job-In :
      (k job : QueuedJob) (js : List QueuedJob) → In k (inserted job js) → (k ≡ job) ⊎ In k js
  unfolding insert_job
  insert_job-In k job [] (inl e) = inl e
  insert_job-In k job [] (inr m) = absurd m
  insert_job-In k job (j ∷ js) m =
      elim (Bool-cases (comes_first dates text_le locale_before j job)) [
        | inl first ↦ elim (subst (In k) (insert_behind job j js first) m) [
          | inl e ↦ inr (inl e)
          | inr there ↦ elim (insert_job-In k job js there) [ inl e ↦ inl e | inr n ↦ inr (inr n) ]
        ]
        | inr later ↦ subst (In k) (insert_before job j js later) m
      ]

  In-insert_job :
      (k job : QueuedJob) (js : List QueuedJob) → (k ≡ job) ⊎ In k js → In k (inserted job js)
  unfolding insert_job
  In-insert_job k job [] m = m
  In-insert_job k job (j ∷ js) m =
      elim (Bool-cases (comes_first dates text_le locale_before j job)) [
        | inl first ↦ subst (In k) (sym (insert_behind job j js first)) (elim m [
          | inl e ↦ inr (In-insert_job k job js (inl e))
          | inr (inl e) ↦ inl e
          | inr (inr n) ↦ inr (In-insert_job k job js (inr n))
        ])
        | inr later ↦ subst (In k) (sym (insert_before job j js later)) m
      ]

  sort_jobs-In : (k : QueuedJob) (js : List QueuedJob) → In k (sorted js) → In k js
  unfolding sort_jobs
  sort_jobs-In k [] m = m
  sort_jobs-In k (j ∷ js) m = elim (insert_job-In k j (sorted js) m) [
    | inl e ↦ inl e
    | inr n ↦ inr (sort_jobs-In k js n)
  ]

  In-sort_jobs : (k : QueuedJob) (js : List QueuedJob) → In k js → In k (sorted js)
  unfolding sort_jobs
  In-sort_jobs k [] m = m
  In-sort_jobs k (j ∷ js) (inl e) = In-insert_job k j (sorted js) (inl e)
  In-sort_jobs k (j ∷ js) (inr n) = In-insert_job k j (sorted js) (inr (In-sort_jobs k js n))

  abbrev HeadLeads : List QueuedJob → Type 0
  HeadLeads [] = Unit
  HeadLeads (j ∷ js) = LeadsAll j js

  comes_first-rank :
      (j k : QueuedJob)
      → comes_first dates text_le locale_before j k ≡ true
      → priority_rank j.priority ≤ priority_rank k.priority
  comes_first-rank j k h = ground arith

  comes_later-rank :
      (j k : QueuedJob)
      → comes_first dates text_le locale_before j k ≡ false
      → priority_rank k.priority ≤ priority_rank j.priority
  comes_later-rank j k h = ground arith

  insert_job-HeadLeads :
      (job : QueuedJob) (js : List QueuedJob) → HeadLeads js → HeadLeads (inserted job js)
  unfolding insert_job
  insert_job-HeadLeads job [] h = λ k m. absurd m
  insert_job-HeadLeads job (j ∷ js) h =
      elim (Bool-cases (comes_first dates text_le locale_before j job)) [
        | inl first ↦ subst HeadLeads (sym (insert_behind job j js first)) (λ k m.
            elim (insert_job-In k job js m) [
              | inl e ↦
                  subst (λ x. priority_rank j.priority ≤ priority_rank x.priority) (sym e)
                    (comes_first-rank j job first)
              | inr n ↦ h k n
            ])
        | inr later ↦ subst HeadLeads (sym (insert_before job j js later)) (λ k m. elim m [
          | inl e ↦
              subst (λ x. priority_rank job.priority ≤ priority_rank x.priority) (sym e)
                (comes_later-rank j job later)
          | inr n ↦ omega (arith, comes_later-rank j job later, h k n)
        ])
      ]

  sort_jobs-HeadLeads : (js : List QueuedJob) → HeadLeads (sorted js)
  unfolding sort_jobs
  sort_jobs-HeadLeads [] = tt
  sort_jobs-HeadLeads (j ∷ js) = insert_job-HeadLeads j (sorted js) (sort_jobs-HeadLeads js)

  -- The first of the sorted jobs is one of them, and none of them is of a more urgent priority.
  pub sort_jobs-LeadsAll :
      (js : List QueuedJob) (j : QueuedJob) (rest : List QueuedJob)
      → sorted js ≡ j ∷ rest
      → In j js × LeadsAll j js
  sort_jobs-LeadsAll js j rest e = (
    sort_jobs-In j js (subst (In j) (sym e) (inl refl)),
    λ k m. elim (subst (In k) e (In-sort_jobs k js m)) [
      | inl same ↦
          subst (λ x. priority_rank j.priority ≤ priority_rank x.priority) (sym same) (omega arith)
      | inr n ↦ subst HeadLeads e (sort_jobs-HeadLeads js) k n
    ],
  )
