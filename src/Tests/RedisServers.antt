-- ===== src/Tests/RedisServers.antt =====
-- The Redis store at concrete requests.
use rateshield.Prelude.{
  ℤ, pos, ◌≤◌, ◌+ℤ◌, ◌-ℤ◌, ◌≡◌, refl, arith, none, List, [], ◌∷◌, map, quot, lookup,
}
use rateshield.Go.Float.{int_float, ℤ-IsFloat64}
use rateshield.Go.Text.{bytes}
use rateshield.Go.Time.{Time, second, milliseconds}
use rateshield.Memory.Window.{window_ms}
use rateshield.Memory.{Memory, find, new}
use rateshield.Memory.FixedWindow.Quota.{promised}
use rateshield.Memory.FixedWindow.Quota as InMemory
use rateshield.Memory.Requests.{Request, IsTimeline}
use rateshield.Redis.FixedWindow.Exact.{redis_fixed_window_matches_memory}
use rateshield.Redis.FixedWindow.Server.{decided}
use rateshield.Redis.SlidingCounter.Server as SlidingCounter
use rateshield.Redis.SlidingCounter.Server.{ServesCounter}
use rateshield.Redis.SlidingCounter.Exact.{redis_sliding_counter_matches_memory}
use rateshield.Memory.SlidingCounter.Promise as CounterPromise
use rateshield.Memory.SlidingCounter.Estimate
use rateshield.Memory.SlidingCounter.Exact.{sliding_counter_keeps_estimate}
use rateshield.Redis.SlidingLog.Server as SlidingLog
use rateshield.Redis.SlidingLog.Server.{in_millis}
use rateshield.Redis.SlidingLog.Exact.{redis_sliding_log_counts_exactly}
use rateshield.Memory.SlidingLog.Promise as LogPromise
use rateshield.Memory.SlidingLog.Exact.{admitted}
use rateshield.Memory.TokenBucket.Burst as Burst
use rateshield.Redis.TokenBucket.Burst as TokenBucket
use rateshield.Redis.TokenBucket.Burst.{redis_token_bucket_burst_matches_memory}
use rateshield.Tests.RedisCommands.{
  commands, commands-IsRedis, commands-HasSets, commands-HasHashes, redis, client-Serves,
  client-ServesCounter, client-ServesBucket,
}

abbrev t : Time
t = pos 62135596801000000000

-- two requests in one second, and one in the next
abbrev requests : List Request
requests =
    record { at = t; n = 2 }
    ∷ record { at = pos 62135596801500000000; n = 2 }
    ∷ record { at = pos 62135596802000000000; n = 2 }
    ∷ []

requests-IsTimeline : IsTimeline 3 t requests
unfolding ◌-ℤ◌
requests-IsTimeline = ground arith

abbrev store : Memory ℤ
store = new

nothing_stored : find (bytes "k") store ≡ none
unfolding new find lookup
nothing_stored = refl

redis_fixed_window_matches_memory_example :
    let here =
      decided commands commands-IsRedis 0 redis client-Serves
        (bytes "k")
        3
        second
        second
        (pos 0, λ j. none)
        requests in
    (here ≡ promised 3 second [] requests)
    × (here ≡ InMemory.decided (bytes "k") 3 second second store requests)
redis_fixed_window_matches_memory_example =
    redis_fixed_window_matches_memory commands commands-IsRedis 0 redis client-Serves (bytes "k") 3
      second second t (pos 0, λ j. none) store requests
      (record { positive = omega arith; fits = omega arith }) (omega arith) (omega arith)
      requests-IsTimeline.1 requests-IsTimeline (omega arith, (omega arith, (omega arith, tt)))
      (λ i. refl) nothing_stored

-- units 1 and 2 of 3 in the window of the third request
redis_sliding_log_counts_exactly_example :
    let here =
      SlidingLog.decided commands commands-IsRedis commands-HasSets 0 redis client-Serves
        (bytes "k")
        3
        second
        (pos 2000000000)
        (pos 0, λ j. none)
        requests in
    (here ≡ LogPromise.promised 3 (pos 1000) [] (map in_millis requests))
    × (admitted (pos 500) (pos 500 +ℤ pos 1000) (map in_millis requests) here ≤ 3)
unfolding window_ms milliseconds quot
redis_sliding_log_counts_exactly_example =
    redis_sliding_log_counts_exactly commands commands-IsRedis commands-HasSets 0 redis
      client-Serves (bytes "k") 3 second (pos 2000000000) t (pos 500) (pos 0, λ j. none) requests
      (record { positive = omega arith; fits = omega arith }) (omega arith)
      (record { positive = omega arith; fits = omega arith }) (omega arith) (omega arith)
      requests-IsTimeline (omega arith, (omega arith, (omega arith, tt))) (omega arith) refl refl

redis_sliding_counter_matches_memory_example :
    let here =
      SlidingCounter.decided ℤ-IsFloat64 commands commands-IsRedis redis client-Serves
        client-ServesCounter
        (bytes "k")
        3
        second
        second
        (pos 0, λ j. none)
        requests in
    (here ≡ Estimate.promised ℤ 3 second [] requests)
    × (here ≡ CounterPromise.decided (bytes "k") 3 second second store requests)
redis_sliding_counter_matches_memory_example =
    redis_sliding_counter_matches_memory ℤ-IsFloat64 commands commands-IsRedis redis client-Serves
      client-ServesCounter (bytes "k") 3 second second t (pos 0, λ j. none) store requests
      (omega arith) (record { positive = omega arith; fits = omega arith }) (omega arith)
      requests-IsTimeline.1 requests-IsTimeline (omega arith, (omega arith, (omega arith, tt)))
      (λ i. refl) nothing_stored

sliding_counter_keeps_estimate_example :
    CounterPromise.decided (bytes "k") 3 second second store requests
    ≡ Estimate.promised ℤ 3 second [] requests
sliding_counter_keeps_estimate_example =
    sliding_counter_keeps_estimate ℤ-IsFloat64 (bytes "k") 3 second second t store requests
      (omega arith) (record { positive = omega arith; fits = omega arith }) (omega arith)
      requests-IsTimeline.1 nothing_stored requests-IsTimeline
      (omega arith, (omega arith, (omega arith, tt)))

redis_token_bucket_burst_matches_memory_example :
    let here =
      TokenBucket.decided ℤ-IsFloat64 commands commands-IsRedis commands-HasHashes 0 redis
        client-Serves client-ServesBucket
        (bytes "k")
        (pos 1)
        5
        second
        t
        (pos 0, λ j. none)
        (3 ∷ 3 ∷ 2 ∷ []) in
    (here ≡ Burst.promised 5 0 (3 ∷ 3 ∷ 2 ∷ []))
    × (here ≡ Burst.decided (bytes "k") (pos 1) 5 second t store (3 ∷ 3 ∷ 2 ∷ []))
redis_token_bucket_burst_matches_memory_example =
    redis_token_bucket_burst_matches_memory ℤ-IsFloat64 commands commands-IsRedis commands-HasHashes
      0 redis client-Serves client-ServesBucket (bytes "k") (pos 1) 5 second t (pos 0, λ j. none)
      store (3 ∷ 3 ∷ 2 ∷ []) (record { positive = omega arith; fits = omega arith }) (omega arith)
      (omega arith) requests-IsTimeline.1 (omega arith)
      (omega arith, (omega arith, (omega arith, tt))) refl nothing_stored
