-- ===== src/Jobs/Commit.antt =====
-- #commitSnapshot of packages/core/src/reference-job-queue.ts: read, mutate, and exchange what was read
-- for the new record, five times at most. Other processes may write to the store between the read
-- and the exchange; `others` says what they make of it.
use access_kit.Prelude.{
  ℕ, suc, zero, ◌<◌, String, true, false, Option, none, some, List, [], ◌≡◌, refl, sym, ap, ◌∙◌,
  inl, inr, arith, Bool-cases, Option-cases, ◌⊎◌, eq_refl,
}
use native.Mathlib.Decide.{dec_lt}
use access_kit.Domain.{IsoDateTime}
use access_kit.Domain.Json.{JsonRecord}
use access_kit.Audit.Text.{Printer}
use access_kit.Jobs.Model.{Queue}
use access_kit.Jobs.Snapshot.{
  JobSnapshot, empty_job_snapshot, empty_queue_snapshot, StoreRecord, SnapshotStore, create_record,
  read_current, read_current-current, compare_exchange_current, write_current, same_record,
  stable_hash, record_json,
}

-- How a commit ends, with the store that it leaves.
pub data Outcome (A : Type 0) : Type 0 where
  committed : A → SnapshotStore → Outcome A
  threw : SnapshotStore → Outcome A
  conflicted : SnapshotStore → Outcome A

-- The parameter `mutate`; every caller leaves the backup metadata as they are.
abbrev pub Mutation : Type 0 → Type 0
Mutation A = JobSnapshot → Queue → Option (JobSnapshot × Queue × A)

abbrev pub jobs_of : Option StoreRecord → JobSnapshot
jobs_of none = empty_job_snapshot
jobs_of (some r) = r.jobs

abbrev pub queue_of : Option StoreRecord → Queue
queue_of none = empty_queue_snapshot
queue_of (some r) = r.queue

abbrev pub metadata_of : Option StoreRecord → List JsonRecord
metadata_of none = []
metadata_of (some r) = r.backup_metadata

module _ (p : Printer) (digest lower : String → String) (tenant : String) {A : Type 0}
    (mutate : Mutation A) (stored_at : IsoDateTime)
    (others : ℕ → SnapshotStore → SnapshotStore) where
  -- The new record, and the result.
  abbrev pub new_record : Option StoreRecord → Option (StoreRecord × A)
  new_record expected = elim (mutate (jobs_of expected) (queue_of expected)) [
    | none ↦ none
    | some (jobs, queue, a) ↦
        elim (create_record p digest lower tenant stored_at jobs queue (metadata_of expected)) [
          | none ↦ none
          | some r ↦ some (r, a)
        ]
  ]

  abbrev exchanged : SnapshotStore → A → Option SnapshotStore → Outcome A
  exchanged seen a none = conflicted seen
  exchanged seen a (some after) = committed a after

  -- One round of the loop; conflicted where another round is tried.
  unfoldable pub attempt : ℕ → SnapshotStore → Outcome A
  attempt n store = elim (read_current p digest lower tenant store) [
    | none ↦ threw store
    | some expected ↦ elim (new_record expected) [
      | none ↦ threw store
      | some (r, a) ↦
          exchanged (others n store) a
            (compare_exchange_current p digest lower tenant (others n store) expected r)
    ]
  ]

  unfoldable pub commit_rounds : ℕ → SnapshotStore → Outcome A
  commit_rounds zero store = conflicted store
  commit_rounds (suc n) store = elim (attempt n store) [
    | committed a after ↦ committed a after
    | threw s ↦ threw s
    | conflicted s ↦ commit_rounds n s
  ]

  unfoldable pub commit_snapshot : SnapshotStore → Outcome A
  unfolding commit_rounds
  commit_snapshot store = commit_rounds 5 store

  -- What other writers make of a store in some of the rounds.
  pub data ByOthers (store : SnapshotStore) : SnapshotStore → Type 0 where
    unchanged : ByOthers store store
    written : (n : ℕ) {s : SnapshotStore} → ByOthers store s → ByOthers store (others n s)

  -- An atomic commit at the store `seen`: the mutation of a record that has the digest of the current
  -- one takes its place, and nothing else changes.
  pub record IsAtomic (store after : SnapshotStore) (a : A) : Type 0 where
    pub seen : SnapshotStore
    pub by_others : ByOthers store seen
    pub expected : Option StoreRecord
    pub read_from : SnapshotStore
    pub read_by_others : ByOthers store read_from
    pub was_read : read_current p digest lower tenant read_from ≡ some expected
    pub is_current : same_record p digest lower tenant seen.current expected ≡ true
    pub jobs : JobSnapshot
    pub queue : Queue
    pub mutated : mutate (jobs_of expected) (queue_of expected) ≡ some (jobs, queue, a)
    pub stored : StoreRecord
    pub created :
        create_record p digest lower tenant stored_at jobs queue (metadata_of expected)
        ≡ some stored
    pub written_at : after ≡ write_current p digest lower tenant seen stored

  attempt_won :
      (n : ℕ) (store : SnapshotStore) (expected : Option StoreRecord) (r : StoreRecord) (a : A)
      → read_current p digest lower tenant store ≡ some expected
      → new_record expected ≡ some (r, a)
      → same_record p digest lower tenant (others n store).current expected ≡ true
      → attempt n store ≡ committed a (write_current p digest lower tenant (others n store) r)
  unfolding attempt compare_exchange_current
  attempt_won n store expected r a e f same =
      rw (e, attempt) (rw (f, attempt) (rw (same, compare_exchange_current) refl))

  attempt_lost :
      (n : ℕ) (store : SnapshotStore) (expected : Option StoreRecord) (r : StoreRecord) (a : A)
      → read_current p digest lower tenant store ≡ some expected
      → new_record expected ≡ some (r, a)
      → same_record p digest lower tenant (others n store).current expected ≡ false
      → attempt n store ≡ conflicted (others n store)
  unfolding attempt compare_exchange_current
  attempt_lost n store expected r a e f other =
      rw (e, attempt) (rw (f, attempt) (rw (other, compare_exchange_current) refl))

  attempt_unread :
      (n : ℕ) (store : SnapshotStore)
      → read_current p digest lower tenant store ≡ none
      → attempt n store ≡ threw store
  unfolding attempt
  attempt_unread n store e = rw (e, attempt) refl

  attempt_barred :
      (n : ℕ) (store : SnapshotStore) (expected : Option StoreRecord)
      → read_current p digest lower tenant store ≡ some expected
      → new_record expected ≡ none
      → attempt n store ≡ threw store
  unfolding attempt
  attempt_barred n store expected e f = rw (e, attempt) (rw (f, attempt) refl)

  -- What an attempt does: it throws, it writes, or it loses to another writer.
  data Tried (n : ℕ) (store : SnapshotStore) : Type 0 where
    throws : attempt n store ≡ threw store → Tried n store
    wins :
        (expected : Option StoreRecord) (r : StoreRecord) (a : A)
        → read_current p digest lower tenant store ≡ some expected
        → new_record expected ≡ some (r, a)
        → same_record p digest lower tenant (others n store).current expected ≡ true
        → attempt n store ≡ committed a (write_current p digest lower tenant (others n store) r)
        → Tried n store
    loses :
        (expected : Option StoreRecord)
        → read_current p digest lower tenant store ≡ some expected
        → same_record p digest lower tenant (others n store).current expected ≡ false
        → attempt n store ≡ conflicted (others n store)
        → Tried n store

  tried : (n : ℕ) (store : SnapshotStore) → Tried n store
  tried n store = elim (Option-cases (read_current p digest lower tenant store)) [
    | inl e ↦ throws (attempt_unread n store e)
    | inr (expected, e) ↦ elim (Option-cases (new_record expected)) [
      | inl f ↦ throws (attempt_barred n store expected e f)
      | inr ((r, a), f) ↦
          elim (Bool-cases (same_record p digest lower tenant (others n store).current expected)) [
            | inl same ↦ wins expected r a e f same (attempt_won n store expected r a e f same)
            | inr other ↦ loses expected e other (attempt_lost n store expected r a e f other)
          ]
    ]
  ]

  new_record_parts :
      (expected : Option StoreRecord) (r : StoreRecord) (a : A)
      → new_record expected ≡ some (r, a)
      → (jobs : JobSnapshot) × (queue : Queue) × (mutate (jobs_of expected) (queue_of expected)
          ≡ some (jobs, queue, a))
        × (create_record p digest lower tenant stored_at jobs queue (metadata_of expected) ≡ some r)
  new_record_parts expected r a h =
      elim (Option-cases (mutate (jobs_of expected) (queue_of expected))) [
        | inl e ↦ absurd (ground (arith, e))
        | inr ((jobs, queue, b), e) ↦
            elim (Option-cases
              (create_record p digest lower tenant stored_at jobs queue (metadata_of expected))) [
                | inl f ↦ absurd (ground (arith, e, f))
                | inr (s, f) ↦ (jobs, queue, ground (arith, e, f), ground (arith, e, f))
              ]
      ]

  same_outcome :
      (a b : A) (s t : SnapshotStore)
      → ◌≡◌ {A = Outcome A} (committed a s) (committed b t)
      → (a ≡ b) × (s ≡ t)
  same_outcome a b s t e = (cc, cc)

  -- A commit that gives a result writes at most once: what other writers made of the store stays, but for the
  -- current record, which is the mutation of a record with the digest of the one it replaces. The result
  -- is that mutation's.
  pub commit_rounds-IsAtomic :
      (n : ℕ) (store after first : SnapshotStore) (a : A)
      → ByOthers first store
      → commit_rounds n store ≡ committed a after
      → IsAtomic first after a
  unfolding commit_rounds
  commit_rounds-IsAtomic zero store after first a by h = absurd (cc)
  commit_rounds-IsAtomic (suc n) store after first a by h = elim (tried n store) [
    | throws e ↦ absurd (ground (arith, e))
    | wins expected r b read made same e ↦
        let (jobs, queue, mutated, created) = new_record_parts expected r b made in
        let (result, end_store) = same_outcome b a _ after (rw (e, commit_rounds) at h) in
        record {
          seen = others n store;
          by_others = written n by;
          expected = expected;
          read_from = store;
          read_by_others = by;
          was_read = read;
          is_current = same;
          jobs = jobs;
          queue = queue;
          mutated = mutated ∙ ap (λ (x : A). some (jobs, queue, x)) result;
          stored = r;
          created = created;
          written_at = sym end_store;
        }
    | loses expected read other e ↦
        commit_rounds-IsAtomic n (others n store) after first a (written n by)
          (rw (e, commit_rounds) at h)
  ]

  same_record_self : (o : Option StoreRecord) → same_record p digest lower tenant o o ≡ true
  same_record_self none = refl
  same_record_self (some r) = eq_refl (stable_hash p digest lower tenant (record_json r))

  not_lost :
      (n : ℕ) (store : SnapshotStore) (expected : Option StoreRecord)
      → others n store ≡ store
      → read_current p digest lower tenant store ≡ some expected
      → same_record p digest lower tenant (others n store).current expected ≡ true
  not_lost n store expected quiet read = rw quiet (
      rw (read_current-current p digest lower tenant store expected read)
        (same_record_self expected))

  -- Where the other writers leave the store alone in one of the five rounds, a commit does not give up:
  -- it has a result, or the code throws.
  pub commit_rounds-ends :
      (n k : ℕ) (store : SnapshotStore)
      → k < n
      → ((s : SnapshotStore) → others k s ≡ s)
      → ((a : A) × (after : SnapshotStore) × (commit_rounds n store ≡ committed a after))
        ⊎ ((s : SnapshotStore) × (commit_rounds n store ≡ threw s))
  unfolding commit_rounds
  commit_rounds-ends zero k store lt quiet = absurd (omega arith)
  commit_rounds-ends (suc n) k store lt quiet = elim (tried n store) [
    | throws e ↦ inr (store, rw (e, commit_rounds) refl)
    | wins expected r b read made same e ↦
        inl (b, write_current p digest lower tenant (others n store) r, rw (e, commit_rounds) refl)
    | loses expected read other e ↦ elim (dec_lt k n) [
      | yes less ↦ rw (e, commit_rounds) (commit_rounds-ends n k (others n store) less quiet)
      | no more ↦
          let here : n ≡ k = omega arith in
          let kept = not_lost n store expected (rw here (quiet store)) read in
          absurd (ground (arith, kept, other))
    ]
  ]
