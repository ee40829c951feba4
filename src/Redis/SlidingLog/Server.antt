-- ===== src/Redis/SlidingLog/Server.antt =====
-- store/redis.go: AllowSlidingWindowLog of the Redis store, over a client whose server runs swlScript.
use rateshield.Prelude.{
  ℕ, ◌+◌, ◌*◌, ◌≤◌, ◌≡◌, arith, pos, ◌≤ℤ◌, plus_pos, Bool, none, List, [], ◌∷◌, ◌++◌, Bytes, length,
}
use rateshield.Go.Time.{Time, Duration, millisecond}
use rateshield.Memory.Requests.{Request, lets_through}
use rateshield.Memory.SlidingLog.Promise.{Log, has_room, record_request}
use rateshield.Memory.Window.Order.{
  InEra, IsWindow, millis, width, unix_milli-eq, width_bounds, millis_bound,
}
use rateshield.Redis.{Redis, allow_sliding_window_log}
use rateshield.Redis.Commands.{Commands, IsRedis}
use rateshield.Redis.Sets.{HasSets}
use rateshield.Redis.Server.{Serves, milliseconds-eq, allowed-flag, exact_floats, exact_digits}
use rateshield.Redis.SlidingLog.Contents.{Contents-Seen}
use rateshield.Redis.SlidingLog.Step as Step
use rateshield.Redis.SlidingLog.Step.{swl_run-Tracks, fits_in}

-- The request with its instant in whole milliseconds, as the script sees it.
abbrev pub in_millis : Request → Request
in_millis q = record { at = pos (millis q.at); n = q.n }

module _ {F : Type 0} (c : Commands F) (redis : IsRedis c) (sets : HasSets c redis) (skew : ℕ)
    (r : Redis F) (serves : Serves c redis r.client skew) (key : Bytes) (limit : ℕ)
    (window ttl : Duration) where
  open serves use {data_of, clock_of, arrive, data_of-arrive, clock_of-arrive, run-swl_script}

  -- What the store decides about the requests of a key, one after the other.
  unfoldable pub decided : r.client.S → List Request → List Bool
  decided s [] = []
  decided s (q ∷ qs) =
      let (res, s', clock') =
        allow_sliding_window_log r none key (pos limit) window (pos q.n) ttl (λ _. q.at)
          (arrive q.at s) in
      lets_through res ∷ decided s' qs

  abbrev pub Tracks : (last : Time) → Log → r.client.S → Type 0
  Tracks last h s =
      Step.Tracks c redis sets (r.prefix ++ key) limit (width window) skew (width ttl) (millis last)
        h (data_of s)

  -- One call of AllowSlidingWindowLog.
  pub call-Tracks :
      (q : Request) (last : Time) (h : Log) (s : r.client.S)
      → IsWindow window
      → millisecond ≤ℤ window
      → IsWindow ttl
      → window ≤ℤ ttl
      → width window + 2 * skew ≤ width ttl
      → InEra q.at
      → millis last ≤ millis q.at
      → limit + q.n ≤ exact_floats
      → length h + q.n ≤ exact_digits
      → Tracks last h s
      → let (res, s', clock') =
          allow_sliding_window_log r none key
            (pos limit)
            window
            (pos q.n)
            ttl
            (λ _. q.at)
            (arrive q.at s) in
        let room = has_room limit (pos (width window)) h (in_millis q) in
        (lets_through res ≡ room) × Tracks q.at (record_request room h (in_millis q)) s'
  unfolding allow_sliding_window_log
  call-Tracks q last h s w long lw longer spare era later exact digits tracks =
      let s1 = arrive q.at s in
      let a = millis q.at in
      let b = width window in
      let key' = r.prefix ++ key in
      let (wide, narrow) = width_bounds window w in
      let near = clock_of-arrive q.at s era in
      let tracks' : Step.Tracks c redis sets key' limit b skew (width ttl) (millis last) h
          (data_of s1) =
        rw (data_of-arrive q.at s) tracks in
      let seen =
        Contents-Seen b skew (width ttl) (millis last) a (clock_of s1) h later near spare _ _
          tracks' in
      let (same, left) =
        run-swl_script key' limit b a q.n (width ttl) s1 wide narrow (millis_bound q.at era)
          (width_bounds ttl lw).1 exact
          (rw (seen.seq_value, plus_pos seen.n q.n) (omega (arith, seen.few))) in
      let ((reply, returns, allowed), after) =
        swl_run-Tracks c redis sets key' limit b skew (width ttl) a q.n (millis last) h (data_of s1)
          (clock_of s1) tracks' later near spare wide (omega arith) in
      rw
        (
          milliseconds-eq window long,
          milliseconds-eq ttl (omega arith),
          unix_milli-eq q.at era,
          same,
          returns,
          left,
        )
        (allowed-flag reply (has_room limit (pos b) h (in_millis q)) q.at allowed, after)
