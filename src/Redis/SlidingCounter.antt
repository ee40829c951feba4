-- ===== src/Redis/SlidingCounter.antt =====
-- store/redis.go: swcScript and AllowSlidingWindowCounter of the Redis store; proofs.
pub mod Step
pub mod Server
pub mod Exact
