-- ===== src/Batch.antt =====
-- public/batch-transfer-state.js: planning, preparing and settling batch transfers.
pub mod Amounts
pub mod Select
pub mod Planning
pub mod Next
pub mod Preview
pub mod Coverage
pub mod Settled
pub mod Outputs
pub mod Targets
pub mod Prepared
pub mod Identities
pub mod Facts
mod Tests
