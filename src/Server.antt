-- ===== src/Server.antt =====
-- server-relay-submission.js: one submission at a time for each signer account, and what the relay server
-- learns of a transaction.
pub mod Outcomes
pub mod Serializer
pub mod Gate
pub mod Fence
mod Tests
