-- ===== src/Redis/SlidingCounter/Exact.antt =====
-- store/redis.go, store/memory.go: AllowSlidingWindowCounter of the two stores, for all requests of a
-- key.
use rateshield.Prelude.{
  ℕ, ◌+◌, ◌*◌, ◌≤◌, ◌≡◌, refl, sym, ap₂, ◌∙◌, arith, ℤ, pos, ◌≤ℤ◌, none, List, [], ◌∷◌, ◌++◌, Bytes,
  All, All-map,
}
use rateshield.Go.Float.{Float64, IsFloat64}
use rateshield.Go.Time.{Time, Duration, millisecond}
use rateshield.Memory.{Memory, find}
use rateshield.Memory.FixedWindow.Quota.{History, record_request}
use rateshield.Memory.Requests.{Request, IsTimeline}
use rateshield.Memory.SlidingCounter.Exact.{sliding_counter_keeps_estimate}
use rateshield.Memory.SlidingCounter.Estimate
use rateshield.Memory.SlidingCounter.Estimate.{promised-eq}
use rateshield.Memory.SlidingCounter.Promise.{has_room, promised}
use rateshield.Memory.SlidingCounter.Promise as InMemory
use rateshield.Memory.Window.Order.{InEra, IsWindow}
use rateshield.Redis.{Redis, allow_sliding_window_counter}
use rateshield.Redis.Commands.{Commands, IsRedis}
use rateshield.Redis.Scripts.Counter.{counter_key}
use rateshield.Redis.Server.{Serves, exact_floats}
use rateshield.Redis.SlidingCounter.Server.{ServesCounter, decided, Tracks, call-Tracks}

module _ {F : Type 0} ⦃fl : Float64 F⦄ (laws : IsFloat64 F) (c : Commands F) (redis : IsRedis c)
    (r : Redis F) (serves : Serves c redis r.client 0)
    (counts : ServesCounter c redis r.client 0 serves) (key : Bytes) (limit : ℕ)
    (window ttl : Duration) where
  decided-promised :
      (last : Time) (h : History) (s : r.client.S) (qs : List Request)
      → limit ≤ 4503599627370496
      → IsWindow window
      → millisecond ≤ℤ window
      → IsTimeline limit last qs
      → All (λ (q : Request). 2 * limit + q.n ≤ exact_floats) qs
      → Tracks laws c redis r serves counts key limit window ttl h s
      → decided laws c redis r serves counts key limit window ttl s qs
        ≡ promised F limit window h qs
  unfolding decided promised
  decided-promised last h s [] small w long line exact tracks = refl
  decided-promised last h s (q ∷ qs) small w long (le, era, fits, line) (e, exact) tracks =
      let s' =
        (allow_sliding_window_counter r none key (pos limit) window (pos q.n) ttl (λ i. q.at)
          (serves.arrive q.at s)).1 in
      let (same, tracks') =
        call-Tracks laws c redis r serves counts key limit window ttl q h s small w long era e
          tracks in
      ap₂ ◌∷◌ same (
        decided-promised q.at (record_request (has_room F limit window h q) window h q) s' qs small
          w long line exact tracks')

-- By the laws of float64, for a client whose server runs swcScript over the commands of Redis, with
-- the clock of the caller, a limit up to 2^52, a window of at least a millisecond, a key without
-- counters on the server, and requests on one timeline, from 1970 to 2262, that together with twice
-- the limit are exact in a float64: AllowSlidingWindowCounter of the Redis store lets through what
-- the documented estimate from the units that it has admitted leaves room for, and so does that of a memory
-- store which has no entry of the key yet.
pub redis_sliding_counter_matches_memory :
    {F : Type 0} ⦃fl : Float64 F⦄ (laws : IsFloat64 F) (c : Commands F) (redis : IsRedis c)
    (r : Redis F) (serves : Serves c redis r.client 0)
    (counts : ServesCounter c redis r.client 0 serves) (key : Bytes) (limit : ℕ)
    (window ttl : Duration) (start : Time) (s : r.client.S) (m : Memory F) (qs : List Request)
    → limit ≤ 4503599627370496
    → IsWindow window
    → millisecond ≤ℤ window
    → InEra start
    → IsTimeline limit start qs
    → All (λ (q : Request). 2 * limit + q.n ≤ exact_floats) qs
    → ((i : ℤ) → redis.read (counter_key (r.prefix ++ key) i) (serves.data_of s) ≡ none)
    → find key m ≡ none
    → let here = decided laws c redis r serves counts key limit window ttl s qs in
      (here ≡ Estimate.promised F limit window [] qs)
      × (here ≡ InMemory.decided key limit window ttl m qs)
redis_sliding_counter_matches_memory {F = F} laws c redis r serves counts key limit window ttl start
      s m qs small w long era line exact empty fresh =
    let few : All (λ (q : Request). q.n ≤ 9007199254740992) qs =
      All-map _ _ (λ q le. omega (arith, le)) qs exact in
    let here =
      decided-promised laws c redis r serves counts key limit window ttl start [] s qs small w long
        line exact (λ i range. rw (empty i) refl)
      ∙ promised-eq laws limit window start [] qs w long line in
    (
      here,
      here
          ∙ sym (
              sliding_counter_keeps_estimate laws key limit window ttl start m qs small w long era
                fresh line few),
    )
