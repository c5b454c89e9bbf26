-- ===== src/Lib.antt =====
-- access-kit, the core library of packages/core: who may do what on which resource, and why.
--
-- The program keeps a graph of subjects, resources and relationship tuples (store.ts), compiles a
-- policy model into sets of relations by action (policy-model.ts), and decides requests over both
-- (engine.ts, decision-runtime.ts): a breadth-first search for a denial, one for a grant, and the
-- caveats of the path that was found. Around the decisions stand a chain of audit events (audit.ts)
-- and the lifecycle of drift findings (drift-lifecycle.ts); a queue holds the jobs of connectors
-- (reference-job-queue.ts).
--
-- The files, and what they model of packages/core/src:
--   Prelude            tests, lists and the library names that all modules share
--   JsMap, JsSet       JavaScript's Map and Set with text keys, in the order of insertion
--   Domain             domain/shared.ts: the entities and the request. Domain/Json has the values of a
--                      JsonRecord, Domain/Encoding how values are written in it; Domain/Dates has
--                      Date.parse and toISOString as an argument.
--   Store/Graph        store.ts: the graph of InMemoryRebacStore (upsertRelationship is
--                      upsert_relationship, and so on); Store/Index proves its index by subject right.
--   Policy             policy-model.ts: the model's types, compilePolicyModel (Policy/Compile) and
--                      validatePolicyModel (Policy/Checks, CaveatChecks, ConditionalChecks and
--                      Validation); Policy/Compile/Meaning says what the compiled sets hold, Policy/Valid
--                      what a valid model has, and Decision/Caveats/Validated what that is to the engine.
--   Decision/Runtime   decision-runtime.ts: DecisionTraversalGuard, the version pins, the bounds, the
--                      latency targets and createDecisionCacheMetadata (create_cache_metadata)
--   Decision/Visibility, Search, Paths, Cache, Caveats, Engine
--                      engine.ts: lifecycle and tenant tests; the search that findAllowPath and
--                      findDenyPath share; their verdicts on an edge; the cache of active
--                      relationships; the caveats; #buildDecisionContext. Decision/Engine/Spec is what
--                      a decision is about, stated without a search.
--   Decision/Results, Evaluate
--                      engine.ts: toDecisionResult (to_decision_result) and the JSON of a result; the
--                      constructor (normalize_options, new_engine), check, explain and #evaluate, with
--                      the decisions and audit events that they record in the store
--   Decision/System    an engine over a store that changes between decisions
--   Audit              audit.ts: AuditRecorder and verifyAuditChain; Audit/Text has stableStringify
--   Drift              drift-lifecycle.ts (Drift/Lifecycle) and domain/drift.ts (Drift/Model)
--   Secrets            secret-material-heuristics.ts, and assertNoSecretMaterial
--   Jobs               reference-job-queue.ts: Jobs/Model has the queue, Jobs/Entries and Transitions what
--                      a commit makes of the queue that it reads (enqueueNormalizedJob is
--                      enqueue_normalized_job, and so on). Jobs/Snapshot has the stored record and the
--                      in-memory store (reference-job-snapshot-store.ts, repository-envelopes.ts,
--                      reference-repositories.ts), Jobs/Commit the loop that exchanges records,
--                      Jobs/Requests, Adapter, Backups and Queries the operations over it, with filters
--                      in Jobs/Filters (drift-finding-filter.ts), and Jobs/Reach the stores that
--                      operations reach whose reads and writes interleave (Jobs/Reach/Operations:
--                      how the operations are steps between them). Jobs/Upserts is about
--                      what a job that is stored in a queue changes of it.
--   The files named Examples hold concrete inputs, and the theorems at them.
--
-- State is passed along: an operation on the store returns the graph after it, a search returns the
-- guard and the scope after it, and the engine's decision returns its scopes after it. The engine's
-- map of scopes is the list of the scopes in it, since a scope carries the parts of its own key; the
-- key is their text joined with NUL (Decision/Keys), so that texts that hold a NUL may share one. Code
-- that throws returns `none`.
--
-- Arguments stand for what is not in the repository: Date.parse and toISOString (Dates), toLowerCase and
-- trim (`lower`, `trim`), SHA-256 (`digest`), how JSON writes texts and numbers (Printer),
-- how texts compare, by <= and by localeCompare, and how numbers are taken from each other and rounded
-- by toFixed (Numbers). The clocks of an engine, and who asks, are given with each call (Readings).
-- The theorems hold for every choice of them, unless they name what they ask.
--
-- Fuel: the search runs for as many rounds as the guard allows scans, and one more. A round that goes
-- on either scans or empties the queue, and a subject enters the queue only with a scan, so the fuel
-- is never used up; Decision/Search/Complete proves it, and out_of_fuel is no outcome of a search.
-- The theorems on decisions ask that one node may be visited, without which the guard names a bound
-- that no search went over.
--
-- Not modelled: the callback onAuditEvent, which sees an event after it is recorded, the default
-- policy model and the graph fixture, which are data, the store's other maps, receipts of the job
-- queue and reads of its whole lists, the other repositories, persistence, governance and evidence,
-- and every package but packages/core. Numbers are finite doubles counted in units of
-- 2 ^ -1074; NaN and infinities do not come from JSON. The times, delays and attempts of the job queue
-- are whole numbers that a double holds exactly; a power of the backoff may pass every double.
pub mod Prelude
pub mod JsMap
pub mod JsSet
pub mod Domain
pub mod Store
pub mod Policy
pub mod Decision
pub mod Drift
pub mod Audit
pub mod Secrets
pub mod Jobs
