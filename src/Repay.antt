-- ===== src/Repay.antt =====
-- relayer/src/repay-watcher: the releases owed to borrowers who repaid in full.
pub mod Store
pub mod Poller
pub mod Rows
pub mod Owed
pub mod Attempts
mod Tests
