-- ===== src/Relay.antt =====
-- public/relay-reservation-state.js: what the wallet keeps of a relay withdrawal and when it may act.
pub mod Snapshot
pub mod Sanitize
pub mod Update
pub mod Readiness
pub mod Preflight
pub mod Records
pub mod Submission
pub mod Nullifiers
pub mod Evidence
pub mod Restored
pub mod Expiry
pub mod Fresh
mod Tests
