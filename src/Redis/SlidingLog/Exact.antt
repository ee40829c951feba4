-- ===== src/Redis/SlidingLog/Exact.antt =====
-- store/redis.go: AllowSlidingWindowLog of the Redis store, for all requests of a key.
use rateshield.Prelude.{
  ℕ, ◌+◌, ◌*◌, ◌≤◌, ◌≡◌, refl, ap₂, arith, pos, ◌+ℤ◌, ◌≤ℤ◌, Bool-cases, inl, inr, none, List, [],
  ◌∷◌, ◌++◌, map, Bytes, All, length, length-append, length-replicate, replicate,
}
use rateshield.Go.Time.{Time, Duration, millisecond}
use rateshield.Memory.Requests.{Request, IsTimeline}
use rateshield.Memory.SlidingLog.Evict.{filter_after}
use rateshield.Memory.SlidingLog.Exact.{admitted, admitted-le}
use rateshield.Memory.SlidingLog.Promise.{Log, has_room, record_request, promised}
use rateshield.Memory.Window.Order.{IsWindow, millis-le, width}
use rateshield.Redis.{Redis, allow_sliding_window_log}
use rateshield.Redis.Commands.{Commands, IsRedis}
use rateshield.Redis.Sets.{HasSets}
use rateshield.Redis.Scripts.Log.{log_key, seq_key}
use rateshield.Redis.Server.{Serves, exact_floats, exact_digits}
use rateshield.Redis.SlidingLog.Server.{in_millis, decided, Tracks, call-Tracks}

-- The units that the requests ask for.
abbrev pub units : List Request → ℕ
units [] = 0
units (q ∷ qs) = q.n + units qs

length-record_request :
    (limit : ℕ) (window : Duration) (h : Log) (q : Request)
    → length (record_request (has_room limit window h q) h q) ≤ length h + q.n
length-record_request limit window h q = elim (Bool-cases (has_room limit window h q)) [
  | inl room ↦
      rw room (omega (arith, length-append h (replicate q.n q.at), length-replicate q.n q.at))
  | inr full ↦ rw full (omega arith)
]

module _ {F : Type 0} (c : Commands F) (redis : IsRedis c) (sets : HasSets c redis) (skew : ℕ)
    (r : Redis F) (serves : Serves c redis r.client skew) (key : Bytes) (limit : ℕ)
    (window ttl : Duration) where
  decided-promised :
      (last : Time) (h : Log) (s : r.client.S) (qs : List Request)
      → IsWindow window
      → millisecond ≤ℤ window
      → IsWindow ttl
      → window ≤ℤ ttl
      → width window + 2 * skew ≤ width ttl
      → IsTimeline limit last qs
      → All (λ (q : Request). limit + q.n ≤ exact_floats) qs
      → length h + units qs ≤ exact_digits
      → Tracks c redis sets skew r serves key limit window ttl last h s
      → decided c redis sets skew r serves key limit window ttl s qs
        ≡ promised limit (pos (width window)) h (map in_millis qs)
  unfolding decided promised
  decided-promised last h s [] w long lw longer spare line exact digits tracks = refl
  decided-promised last h s (q ∷ qs) w long lw longer spare (le, era, fits, line) (e, exact) digits
        tracks =
      let s' =
        (allow_sliding_window_log r none key (pos limit) window (pos q.n) ttl (λ i. q.at)
          (serves.arrive q.at s)).1 in
      let (same, tracks') =
        call-Tracks c redis sets skew r serves key limit window ttl q last h s w long lw longer
          spare era (millis-le last q.at le) e (omega (arith, digits)) tracks in
      let room = has_room limit (pos (width window)) h (in_millis q) in
      let grown = length-record_request limit (pos (width window)) h (in_millis q) in
      ap₂ ◌∷◌ same (
        decided-promised q.at (record_request room h (in_millis q)) s' qs w long lw longer spare
          line exact (omega (arith, digits, grown)) tracks')

-- For a client whose server runs swlScript over the commands of Redis, with a clock that is off by at
-- most half of what the TTL lasts longer than the window, a window of at least a millisecond, a key
-- without a log and a sequence number on the server, and requests on one timeline, from 1970 to 2262,
-- whose numbers are exact in a float64 and whose units together have 14 digits at most:
-- AllowSlidingWindowLog of the Redis store lets a request through if and only if the units that it
-- has let through within the window that ends with the request leave room for it, in whole
-- milliseconds; and so the units that it lets through in any interval of the window's length stay
-- within the limit.
pub redis_sliding_log_counts_exactly :
    {F : Type 0} (c : Commands F) (redis : IsRedis c) (sets : HasSets c redis) (skew : ℕ)
    (r : Redis F) (serves : Serves c redis r.client skew) (key : Bytes) (limit : ℕ)
    (window ttl : Duration) (start lo : Time) (s : r.client.S) (qs : List Request)
    → IsWindow window
    → millisecond ≤ℤ window
    → IsWindow ttl
    → window ≤ℤ ttl
    → width window + 2 * skew ≤ width ttl
    → IsTimeline limit start qs
    → All (λ (q : Request). limit + q.n ≤ exact_floats) qs
    → units qs ≤ exact_digits
    → redis.read (log_key (r.prefix ++ key)) (serves.data_of s) ≡ none
    → redis.read (seq_key (r.prefix ++ key)) (serves.data_of s) ≡ none
    → let here = decided c redis sets skew r serves key limit window ttl s qs in
      (here ≡ promised limit (pos (width window)) [] (map in_millis qs))
      × (admitted lo (lo +ℤ pos (width window)) (map in_millis qs) here ≤ limit)
redis_sliding_log_counts_exactly c redis sets skew r serves key limit window ttl start lo s qs w
      long lw longer spare line exact digits no_log no_seq =
    let empty : Tracks c redis sets skew r serves key limit window ttl start [] s =
      rw (no_log, no_seq)
        (record {
          n = 0;
          few = omega arith;
          set_kind = refl;
          seq_kind = refl;
          seq_value = refl;
          numbered = tt;
          counts = λ z le. unfold filter_after in refl;
          latest = 0;
          no_later = omega arith;
          past = tt;
          kept = tt;
        }) in
    let same =
      decided-promised c redis sets skew r serves key limit window ttl start [] s qs w long lw
        longer spare line exact (omega (arith, digits)) empty in
    (same, rw same (admitted-le limit (pos (width window)) lo (map in_millis qs)))
