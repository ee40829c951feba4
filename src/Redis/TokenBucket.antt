-- ===== src/Redis/TokenBucket.antt =====
-- store/redis.go: tbScript and AllowTokenBucket of the Redis store; proofs.
pub mod Step
pub mod Server
pub mod Burst
