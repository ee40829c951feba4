-- ===== src/Redis/Hashes.antt =====
-- The commands of a Redis server on hashes that tbScript of store/redis.go calls: what Redis documents
-- of them.
use rateshield.Prelude.{ℤ, ◌≡◌, true, some, Bytes, bytes_eq, if◌then◌else◌}
use rateshield.Go.{ok}
use rateshield.Redis.Commands.{
  Commands, IsRedis, bucket, live_at, deadline_of, bucket_in, is_bucket,
}

-- HMGET gives the two fields, if the hash is there, and changes nothing; HSET writes them, keeps the
-- deadline, and changes no other key.
pub record HasHashes {F : Type 0} (c : Commands F) (redis : IsRedis c) : Type 0 where
  pub hmget-ok :
      (t : ℤ) (k : Bytes) (d : c.D)
      → is_bucket (live_at t (redis.read k d)) ≡ true
      → (c.hmget t k d).0 ≡ ok (bucket_in (live_at t (redis.read k d)))
  pub read-hmget :
      (t : ℤ) (k : Bytes) (d : c.D) (j : Bytes) → redis.read j (c.hmget t k d).1 ≡ redis.read j d
  pub hset-ok :
      (t : ℤ) (k : Bytes) (tokens : F) (last_update : ℤ) (d : c.D)
      → is_bucket (live_at t (redis.read k d)) ≡ true
      → (n : ℤ) × ((c.hset t k tokens last_update d).0 ≡ ok n)
  pub read-hset :
      (t : ℤ) (k : Bytes) (tokens : F) (last_update : ℤ) (d : c.D) (j : Bytes)
      → is_bucket (live_at t (redis.read k d)) ≡ true
      → redis.read j (c.hset t k tokens last_update d).1 ≡ (
          if bytes_eq k j
          then some (bucket tokens last_update, deadline_of (live_at t (redis.read k d)))
          else redis.read j d)
