-- ===== src/RedisQueue.antt =====
-- internal/adapter/redisqueue: the waiting queue on a Redis sorted set.
pub mod Member
pub mod Scripts
pub mod Queue
pub mod Purge
pub mod Effects
pub mod WellFormed
pub mod Invariant
pub mod Restore
pub mod Retry
pub mod Fairness
pub mod Room
pub mod Refinement
