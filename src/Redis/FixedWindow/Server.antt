-- ===== src/Redis/FixedWindow/Server.antt =====
-- store/redis.go: AllowFixedWindow of the Redis store, over a client whose server runs fwScript.
use rateshield.Prelude.{
  ℕ, ◌+◌, ◌*◌, ◌/◌, ◌≤◌, ◌≡◌, arith, pos, ◌≤ℤ◌, Bool, none, List, [], ◌∷◌, ◌++◌, Bytes,
}
use rateshield.Go.Time.{Duration, millisecond}
use rateshield.Memory.FixedWindow.Quota.{History, has_room, record_request}
use rateshield.Memory.Requests.{Request, lets_through}
use rateshield.Memory.Window.Order.{
  InEra, IsWindow, millis, width, current_window_num-eq, unix_milli-eq, width_bounds, millis_bound,
}
use rateshield.Redis.{Redis, allow_fixed_window}
use rateshield.Redis.Server.{exact_floats, Serves, allowed-flag, milliseconds-eq}
use rateshield.Redis.Commands.{Commands, IsRedis}
use rateshield.Redis.FixedWindow.History.{TracksHistory, fits_in, fw_run-TracksHistory}

module _ {F : Type 0} (c : Commands F) (redis : IsRedis c) (skew : ℕ) (r : Redis F)
    (serves : Serves c redis r.client skew) (key : Bytes) (limit : ℕ) (window ttl : Duration) where
  open redis use {read}
  open serves use {data_of, clock_of, arrive, data_of-arrive, clock_of-arrive, run-fw_script}

  -- What the store decides about the requests of a key, one after the other.
  unfoldable pub decided : r.client.S → List Request → List Bool
  decided s [] = []
  decided s (q ∷ qs) =
      let (res, s', clock') =
        allow_fixed_window r none key (pos limit) window (pos q.n) ttl (λ _. q.at)
          (arrive q.at s) in
      lets_through res ∷ decided s' qs

  abbrev pub Tracks : History → r.client.S → Type 0
  Tracks h s = TracksHistory c redis (r.prefix ++ key) limit (width window) skew h (data_of s)

  -- One call of AllowFixedWindow.
  pub call-Tracks :
      (q : Request) (h : History) (s : r.client.S)
      → IsWindow window
      → millisecond ≤ℤ window
      → 2 * skew ≤ width window
      → InEra q.at
      → limit + q.n ≤ exact_floats
      → Tracks h s
      → let (res, s', clock') =
          allow_fixed_window r none key
            (pos limit)
            window
            (pos q.n)
            ttl
            (λ _. q.at)
            (arrive q.at s) in
        (lets_through res ≡ has_room limit window h q)
        × Tracks (record_request (has_room limit window h q) window h q) s'
  unfolding allow_fixed_window
  call-Tracks q h s w long half era exact tracks =
      let s1 = arrive q.at s in
      let a = millis q.at in
      let b = width window in
      let (wide, narrow) = width_bounds window w in
      let (same, left) =
        run-fw_script (r.prefix ++ key) limit b a q.n s1 wide narrow (millis_bound q.at era)
          exact in
      let tracks' : TracksHistory c redis (r.prefix ++ key) limit b skew h (data_of s1) =
        rw (data_of-arrive q.at s) tracks in
      let ((reply, returns, allowed), after) =
        fw_run-TracksHistory c redis (r.prefix ++ key) limit b skew a q.n h (data_of s1)
          (clock_of s1) wide half (omega (arith, millis_bound q.at era)) (omega arith)
          (clock_of-arrive q.at s era) tracks' in
      rw
        (
          current_window_num-eq q.at window era w,
          milliseconds-eq window long,
          unix_milli-eq q.at era,
          same,
          returns,
          left,
        )
        (
          allowed-flag reply (fits_in c redis (r.prefix ++ key) limit b skew (a / b) q.n h) q.at
              allowed,
          after,
        )
