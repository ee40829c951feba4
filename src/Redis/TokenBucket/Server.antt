-- ===== src/Redis/TokenBucket/Server.antt =====
-- store/redis.go: AllowTokenBucket of the Redis store, over a client whose server runs tbScript.
use rateshield.Prelude.{
  ℕ, ◌≤◌, ◌≡◌, arith, ℤ, pos, ◌+ℤ◌, ◌≤ℤ◌, true, Option, none, some, [], ◌∷◌, ◌++◌, Bytes,
}
use rateshield.Go.Float.{Float64}
use rateshield.Go.Time.{Time, Duration, millisecond}
use rateshield.Memory.Requests.{lets_through}
use rateshield.Memory.Window.Order.{
  InEra, IsWindow, millis, width, unix_milli-eq, width_bounds, millis_bound,
}
use rateshield.Redis.{Client, Redis, float_arg, int_arg, tb_script, allow_token_bucket}
use rateshield.Redis.Commands.{Commands, IsRedis, bucket, live_at, bucket_in, is_bucket}
use rateshield.Redis.Hashes.{HasHashes}
use rateshield.Redis.Scripts.Bucket.{tb_run}
use rateshield.Redis.Server.{Serves, milliseconds-eq, allowed-flag, exact_floats, raw_of}
use rateshield.Redis.TokenBucket.Step.{start, covered, left, tb_run-start}

-- The instant of the last update, if there is one.
abbrev pub last_update_of : {F : Type 0} → Option (F × ℤ) → ℤ
last_update_of none = pos 0
last_update_of (some (tokens, last_update)) = last_update

-- The run of tbScript on numbers that are exact in Lua.
pub record ServesBucket {F : Type 0} ⦃fl : Float64 F⦄ (c : Commands F) (redis : IsRedis c)
    (client : Client F) (skew : ℕ) (serves : Serves c redis client skew) : Type 0 where
  pub run-tb_script :
      (key : Bytes) (rate : F) (capacity now n ttl : ℕ) (s : client.S)
      → capacity ≤ exact_floats
      → now ≤ 9223372036854
      → n ≤ exact_floats
      → ttl ≤ 9223372036854
      → let last =
          last_update_of
            (bucket_in (live_at (serves.clock_of s) (redis.read key (serves.data_of s)))) in
        pos 0 ≤ℤ last
        → last ≤ℤ pos exact_floats
        → let (reply, d) =
            tb_run c
              (serves.clock_of s)
              key
              rate
              (pos capacity)
              (pos now)
              (pos n)
              (pos ttl)
              (serves.data_of s) in
          let (raw, s') =
            client.run tb_script none
              (key ∷ [])
              (float_arg rate
                ∷ int_arg (pos capacity)
                ∷ int_arg (pos now)
                ∷ int_arg (pos n)
                ∷ int_arg (pos ttl)
                ∷ [])
              s in
          (raw ≡ raw_of reply) × (serves.data_of s' ≡ d)

module _ {F : Type 0} ⦃fl : Float64 F⦄ (c : Commands F) (redis : IsRedis c)
    (hashes : HasHashes c redis) (skew : ℕ) (r : Redis F) (serves : Serves c redis r.client skew)
    (runs : ServesBucket c redis r.client skew serves) (key : Bytes) (rate : F) (capacity : ℕ)
    (ttl : Duration) where
  open serves use {data_of, clock_of, arrive, data_of-arrive, clock_of-arrive}

  abbrev pub stored : r.client.S → Option (F × ℤ)
  stored s = bucket_in (live_at (clock_of s) (redis.read (r.prefix ++ key) (data_of s)))

  -- One call of AllowTokenBucket, on a key that holds a bucket or nothing.
  pub call-start :
      (t : Time) (n : ℕ) (s : r.client.S)
      → IsWindow ttl
      → millisecond ≤ℤ ttl
      → InEra t
      → capacity ≤ exact_floats
      → n ≤ exact_floats
      → let s1 = arrive t s in
        let d1 = data_of s1 in
        let key' = r.prefix ++ key in
        is_bucket (live_at (clock_of s1) (redis.read key' d1)) ≡ true
        → pos 0 ≤ℤ last_update_of (stored s1)
        → last_update_of (stored s1) ≤ℤ pos exact_floats
        → let (res, s', clock') =
            allow_token_bucket r none key rate (pos capacity) (pos n) ttl (λ _. t) s1 in
          let now = pos (millis t) in
          let passes =
            covered c redis hashes
              (clock_of s1)
              key'
              rate
              (pos capacity)
              now
              (pos n)
              (pos (width ttl))
              d1 in
          let tokens =
            left c redis hashes
              (clock_of s1)
              key'
              rate
              (pos capacity)
              now
              (pos n)
              (pos (width ttl))
              d1 in
          let last =
            (start c redis hashes
              (clock_of s1)
              key'
              rate
              (pos capacity)
              now
              (pos n)
              (pos (width ttl))
              d1).1 in
          (lets_through res ≡ passes)
          × (redis.read key' (data_of s')
              ≡ some (bucket tokens last, some (clock_of s1 +ℤ pos (width ttl))))
  unfolding allow_token_bucket
  call-start t n s w long era small few kind low high =
      let s1 = arrive t s in
      let a = millis t in
      let key' = r.prefix ++ key in
      let (wide, narrow) = width_bounds ttl w in
      let (same, after) =
        runs.run-tb_script key' rate capacity a n (width ttl) s1 small (millis_bound t era) few
          narrow low high in
      let ((reply, returns, allowed, remaining), holds) =
        tb_run-start c redis hashes (clock_of s1) key' rate (pos capacity) (pos a) (pos n)
          (pos (width ttl)) (data_of s1) kind (omega arith) in
      rw (milliseconds-eq ttl long, unix_milli-eq t era, same, returns, after)
        (
          allowed-flag reply
              (covered c redis hashes (clock_of s1) key' rate (pos capacity) (pos a) (pos n)
                (pos (width ttl)) (data_of s1))
              t allowed,
          holds,
        )
