-- ===== src/Redis/SlidingLog.antt =====
-- store/redis.go: swlScript and AllowSlidingWindowLog of the Redis store; proofs.
pub mod Members
pub mod State
pub mod Contents
pub mod Outcomes
pub mod Step
pub mod Server
pub mod Exact
