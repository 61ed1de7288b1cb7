-- ===== src/Aggregator.antt =====
-- crates/aggregator/src/lib.rs: flow records into per-thread counters, histories and snapshots.
pub mod Types
pub mod History
pub mod Record
pub mod Threads
pub mod Rotation
pub mod Csv
pub mod Publish
pub mod Loop
pub mod Control
pub mod Invariant
mod Tests
