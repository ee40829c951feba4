-- ===== src/Redis/FixedWindow/Exact.antt =====
-- store/redis.go, store/memory.go: AllowFixedWindow of the two stores, for all requests of a key.
use rateshield.Prelude.{
  ℕ, ◌+◌, ◌*◌, ◌≤◌, ◌≡◌, refl, sym, ap₂, ◌∙◌, ◌≤ℤ◌, pos, none, List, [], ◌∷◌, ◌++◌, Bytes, All,
}
use rateshield.Go.Float.{Float64}
use rateshield.Go.Time.{Time, Duration, millisecond}
use rateshield.Memory.{Memory, find}
use rateshield.Memory.FixedWindow.Exact.{fixed_window_keeps_quota}
use rateshield.Memory.FixedWindow.Quota.{History, has_room, record_request, promised}
use rateshield.Memory.FixedWindow.Quota as InMemory
use rateshield.Memory.Requests.{Request, IsTimeline}
use rateshield.Memory.Window.Order.{InEra, IsWindow, width}
use rateshield.Redis.{Redis, allow_fixed_window}
use rateshield.Redis.Commands.{Commands, IsRedis}
use rateshield.Redis.FixedWindow.History.{counter}
use rateshield.Redis.FixedWindow.Server.{decided, Tracks, call-Tracks}
use rateshield.Redis.Server.{Serves, exact_floats}

module _ {F : Type 0} (c : Commands F) (redis : IsRedis c) (skew : ℕ) (r : Redis F)
    (serves : Serves c redis r.client skew) (key : Bytes) (limit : ℕ) (window ttl : Duration) where
  decided-promised :
      (last : Time) (h : History) (s : r.client.S) (qs : List Request)
      → IsWindow window
      → millisecond ≤ℤ window
      → 2 * skew ≤ width window
      → IsTimeline limit last qs
      → All (λ (q : Request). limit + q.n ≤ exact_floats) qs
      → Tracks c redis skew r serves key limit window ttl h s
      → decided c redis skew r serves key limit window ttl s qs ≡ promised limit window h qs
  unfolding decided promised
  decided-promised last h s [] w long half line exact tracks = refl
  decided-promised last h s (q ∷ qs) w long half (le, era, fits, line) (e, exact) tracks =
      let s' =
        (allow_fixed_window r none key (pos limit) window (pos q.n) ttl (λ i. q.at)
          (serves.arrive q.at s)).1 in
      let (same, tracks') =
        call-Tracks c redis skew r serves key limit window ttl q h s w long half era e tracks in
      ap₂ ◌∷◌ same (
        decided-promised q.at (record_request (has_room limit window h q) window h q) s' qs w long
          half line exact tracks')

-- For a client whose server runs fwScript over the commands of Redis, with a clock that is off by half
-- a window at most, a window of at least a millisecond, a key without counters on the server, and
-- requests on one timeline, from 1970 to 2262, that together with the limit are exact in a float64:
-- AllowFixedWindow of the Redis store lets through what the quota of each window has room for, and
-- so does that of a memory store which has no entry of the key yet.
pub redis_fixed_window_matches_memory :
    {F : Type 0} ⦃fl : Float64 F⦄ (c : Commands F) (redis : IsRedis c) (skew : ℕ) (r : Redis F)
    (serves : Serves c redis r.client skew) (key : Bytes) (limit : ℕ) (window ttl : Duration)
    (start : Time) (s : r.client.S) (m : Memory F) (qs : List Request)
    → IsWindow window
    → millisecond ≤ℤ window
    → 2 * skew ≤ width window
    → InEra start
    → IsTimeline limit start qs
    → All (λ (q : Request). limit + q.n ≤ exact_floats) qs
    → ((i : ℕ)
        → redis.read
            (counter c redis (r.prefix ++ key) limit (width window) skew i)
            (serves.data_of s)
          ≡ none)
    → find key m ≡ none
    → let here = decided c redis skew r serves key limit window ttl s qs in
      (here ≡ promised limit window [] qs) × (here ≡ InMemory.decided key limit window ttl m qs)
redis_fixed_window_matches_memory c redis skew r serves key limit window ttl start s m qs w long
      half era line exact empty fresh =
    let here =
      decided-promised c redis skew r serves key limit window ttl start [] s qs w long half line
        exact (λ i le. rw (empty i) refl) in
    (here, here ∙ sym (fixed_window_keeps_quota key limit window ttl start m qs w era fresh line))
