-- ===== src/Cctp.antt =====
-- relayer/src/cctp: the relay that completes on Base Sepolia the USDC transfers burned on Stellar.
pub mod Message
mod Tests
pub mod Accepted
pub mod Store
pub mod Job
pub mod Service
pub mod Mint
pub mod Relay
pub mod Quiet
pub mod SendSteps
pub mod Sends
pub mod Held
pub mod Upkeep
pub mod Settles
pub mod Polling
pub mod Jobs
pub mod Launch
pub mod Retry
pub mod Requests
pub mod Answers
pub mod Resume
