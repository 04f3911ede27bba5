-- ===== src/Limiter.antt =====
-- src/persistence/rate-limiter.ts: the rate limiter's operations on the decoded state of one key.
-- Times and tokens are whole numbers.
pub mod State
pub mod Fixed
pub mod Bucket
pub mod Adaptive
pub mod Windows
pub mod Tokens
pub mod Phases
pub mod Epochs
pub mod Tests
