-- ===== src/Redis/FixedWindow.antt =====
-- store/redis.go: fwScript and AllowFixedWindow of the Redis store; proofs.
pub mod Step
pub mod Counted
pub mod Keys
pub mod History
pub mod Server
pub mod Exact
