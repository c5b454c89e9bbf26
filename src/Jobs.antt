-- ===== src/Jobs.antt =====
-- packages/core/src/reference-job-queue.ts: the queue (Model, Entries, Transitions), the store that holds
-- it (Snapshot, Commit, Backups), the operations over both (Requests, Adapter, Queries), and what holds of
-- them.
pub mod Model
pub mod Entries
pub mod Transitions
pub mod Text
pub mod Order
pub mod Upserts
pub mod Laws
pub mod Idempotency
pub mod Completion
pub mod Encoding
pub mod Consistent
pub mod Enqueued
pub mod Steps
pub mod Runs
pub mod Requests
pub mod Adapter
pub mod Backups
pub mod Restore
pub mod Reach
pub mod Kept
pub mod StoreExamples
pub mod Filters
pub mod Queries
pub mod Snapshot
pub mod Commit
pub mod Examples
