-- ===== src/Lend.antt =====
-- relayer/src/lend-events and relayer/src/lend-rebuild: the archive of the lending contract's events,
-- and the rebuilding of the relayer's state from the chain.
pub mod Archive
pub mod Poller
pub mod Replay
pub mod Rebuild
mod Growth
pub mod Agreement
pub mod Quiet
pub mod Safe
pub mod Changes
pub mod Account
mod Tests
