-- ===== src/Tests.antt =====
-- Runs of the theorems at concrete inputs, and the data that they run on.
mod Breakers
mod Windows
mod Buckets
mod Stores
mod Fallbacks
mod Limiters
mod Requests
mod Servers
mod Clients
mod RedisCommands
mod RedisServers
mod Forwarded
