-- ===== src/Queue.antt =====
-- src/persisted-queue/repository.ts: the durable queue.
pub mod Index
pub mod State
pub mod Offer
pub mod Claim
pub mod Finalize
pub mod Cleanup
pub mod Consistent
pub mod Updates
pub mod Holder
pub mod Offered
pub mod Recovery
pub mod Freed
pub mod Taking
pub mod Claiming
pub mod Live
pub mod Cleaned
pub mod Tests
