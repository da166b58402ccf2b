-- ===== src/Faucet.antt =====
-- relayer/src/faucet: the faucet of Signet coins.
pub mod Store
pub mod Nonce
pub mod Request
pub mod Service
pub mod Claim
pub mod Events
pub mod Counts
pub mod Fair
pub mod Ledger
pub mod Limits
pub mod Reserves
pub mod Spends
pub mod Quiet
pub mod Apart
pub mod Nonces
mod Tests
