-- ===== src/Store.antt =====
-- mem_etcd/src/store.rs: `Store`, the keys with their revisions. A request is one step, but in
-- Concurrent: the code holds the lock of the item or map that it changes. The shared `Arc<RwLock<TreeItem>>` are cells of
-- a heap, `items`, which both maps name by address. The size of a block of the log is a parameter
-- (1048576 in the code). Revisions are `usize` counts cast to `i64`: they are plain numbers here,
-- exact while the log stays below 2 ^ 63. Metrics, timers and locks are not modelled.
pub mod Types
pub mod Set
pub mod Spec
pub mod Read
pub mod Watch
pub mod Scan
mod Log
pub mod Revisions
mod Filing
pub mod Invariant
mod Kept
mod Writes
pub mod Sound
pub mod Effect
pub mod Mvcc
pub mod History
pub mod Snapshot
pub mod Query
pub mod Watchers
pub mod Sends
pub mod Requests
pub mod Simulation
pub mod Delivery
pub mod Feeds
pub mod Subscription
pub mod Concurrent
pub mod Serial
pub mod Race
pub mod Creation
pub mod Past
pub mod Changes
pub mod Compaction
pub mod Start
mod Tests
mod RunTests
