-- ===== src/Fees.antt =====
-- public/cosmos-fee.js, public/network-fee.js, public/deposit-funding.js, public/minimal-denom-input.js
-- and public/evm-wallet-nonce.js: amounts, fees and nonces.
pub mod Cosmos
pub mod Charged
pub mod Funding
pub mod Nonce
mod Tests
