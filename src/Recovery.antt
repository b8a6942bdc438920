-- ===== src/Recovery.antt =====
-- public/reservation-recovery.js and public/reservation-reconciliation.js: what may be done about the
-- reservations of an operation that did not come to its end.
pub mod Records
pub mod Assess
pub mod Replan
pub mod Groups
pub mod Unordered
pub mod Grouping
pub mod Succeeded
pub mod Reset
pub mod Rejected
pub mod Failed
pub mod Marking
mod Tests
