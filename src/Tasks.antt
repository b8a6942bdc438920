-- ===== src/Tasks.antt =====
-- public/browser-task-coordinator.js: tasks of a browser, one after the other.
pub mod Queue
pub mod Invariant
pub mod Keeps
pub mod Serial
pub mod Drain
mod Tests
