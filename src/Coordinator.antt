-- ===== src/Coordinator.antt =====
-- public/relay-submission-coordinator.js: one submission at a time for each nullifier.
pub mod State
pub mod Run
pub mod Marks
pub mod Reconcile
pub mod Step
pub mod Locks
pub mod Effect
pub mod Invariant
pub mod Retention
pub mod Repeat
pub mod Refine
mod Tests
