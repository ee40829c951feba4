-- ===== src/Redis/SlidingCounter/Server.antt =====
-- store/redis.go: AllowSlidingWindowCounter of the Redis store, over a client whose server runs
-- swcScript.
use rateshield.Prelude.{
  ℕ, ◌+◌, ◌*◌, ◌/◌, ◌≤◌, ◌≡◌, sym, ap, ◌∙◌, arith, ℤ, pos, ◌+ℤ◌, ◌≤ℤ◌, +ℤ_parts, -ℤ_parts, plus_pos,
  eq_of_parts, floor_div, leb_ℤ, Bool, none, List, [], ◌∷◌, ◌++◌, Bytes, InInt64, int_laws,
}
use rateshield.Go.Float.{Float64, IsFloat64}
use rateshield.Go.Time.{Time, Duration, millisecond}
use rateshield.Memory.FixedWindow.Quota.{History, used, record_request}
use rateshield.Memory.Requests.{Request, lets_through}
use rateshield.Memory.SlidingCounter.Promise.{before, has_room}
use rateshield.Memory.SlidingCounter.Weight.{raw_estimate, raw_estimate_bounds, weight-eq}
use rateshield.Memory.Window.Order.{
  InEra, IsWindow, millis, width, number-le, current_window_num-eq, unix_milli-eq, width_bounds,
  millis_bound,
}
use rateshield.Redis.{Client, Redis, int_arg, swc_script, allow_sliding_window_counter}
use rateshield.Redis.Commands.{Commands, IsRedis, live_at, value_of}
use rateshield.Redis.FixedWindow.History.{IsNear}
use rateshield.Redis.FixedWindow.Step.{in_range, value-TracksStored}
use rateshield.Redis.Scripts.Counter.{counter_key, estimated, swc_run}
use rateshield.Redis.Server.{Serves, milliseconds-eq, allowed-flag, exact_floats, raw_of}
use rateshield.Redis.SlidingCounter.Step as Step
use rateshield.Redis.SlidingCounter.Step.{
  keep_until, counters_alive, live-le, swc_run-TracksHistory,
}

-- The run of swcScript on numbers that are exact in Lua.
pub record ServesCounter {F : Type 0} ⦃fl : Float64 F⦄ (c : Commands F) (redis : IsRedis c)
    (client : Client F) (skew : ℕ) (serves : Serves c redis client skew) : Type 0 where
  pub run-swc_script :
      (key : Bytes) (limit ms now n : ℕ) (s : client.S)
      → 1 ≤ ms
      → ms ≤ 9223372036854
      → now ≤ 9223372036854
      → 2 * limit + n ≤ exact_floats
      → let counted : ℤ → Type 0 = λ i.
        value_of (live_at (serves.clock_of s) (redis.read (counter_key key i) (serves.data_of s)))
        ≤ℤ pos limit in
        counted (pos (now / ms))
        → counted (before (pos (now / ms)))
        → let (reply, d) =
            swc_run c
              (serves.clock_of s)
              key
              (pos limit)
              (pos ms)
              (pos now)
              (pos n)
              (serves.data_of s) in
          let (raw, s') =
            client.run swc_script none
              (key ∷ [])
              (int_arg (pos limit) ∷ int_arg (pos ms) ∷ int_arg (pos now) ∷ int_arg (pos n) ∷ [])
              s in
          (raw ≡ raw_of reply) × (serves.data_of s' ≡ d)

module _ {F : Type 0} ⦃fl : Float64 F⦄ (laws : IsFloat64 F) where
  -- The estimate of the script is that of the memory store.
  estimated-eq :
      (t : Time) (window : Duration) (p n : ℕ)
      → InEra t
      → IsWindow window
      → p + n ≤ 9007199254740992
      → let x : F = raw_estimate t window (pos p) (pos n) in
        (estimated F (pos (width window)) (pos (millis t)) (pos p) (pos n) ≡ fl.to_int x)
        × (pos n ≤ℤ fl.to_int x)
  unfolding floor_div
  estimated-eq t window p n era w small =
      let (low, high, whole) =
        raw_estimate_bounds laws t window (pos p) (pos n) era w (omega arith) (omega arith)
          (rw (plus_pos p n) (omega arith)) in
      (
        ap (λ x. fl.floor_of (fl.fadd (fl.fmul (fl.of_int (pos p)) x) (fl.of_int (pos n))))
              (sym (weight-eq {F = F} t window era w))
            ∙ whole,
        low,
      )

same_clock : (a : ℕ) (t : ℤ) → IsNear 0 a t → t ≡ pos a
same_clock a t near =
    let late = near.late in
    let early = near.early in
    eq_of_parts t (pos a) (omega (int_laws, late, early, +ℤ_parts t (pos 0)))

module _ {F : Type 0} ⦃fl : Float64 F⦄ (laws : IsFloat64 F) (c : Commands F) (redis : IsRedis c)
    (r : Redis F) (serves : Serves c redis r.client 0)
    (counts : ServesCounter c redis r.client 0 serves) (key : Bytes) (limit : ℕ)
    (window ttl : Duration) where
  open serves use {data_of, clock_of, arrive, data_of-arrive, clock_of-arrive}

  -- What the store decides about the requests of a key, one after the other.
  unfoldable pub decided : r.client.S → List Request → List Bool
  decided s [] = []
  decided s (q ∷ qs) =
      let (res, s', clock') =
        allow_sliding_window_counter r none key (pos limit) window (pos q.n) ttl (λ _. q.at)
          (arrive q.at s) in
      lets_through res ∷ decided s' qs

  abbrev pub Tracks : History → r.client.S → Type 0
  Tracks h s = Step.TracksHistory c redis (r.prefix ++ key) limit (width window) h (data_of s)

  -- One call of AllowSlidingWindowCounter.
  pub call-Tracks :
      (q : Request) (h : History) (s : r.client.S)
      → limit ≤ 4503599627370496
      → IsWindow window
      → millisecond ≤ℤ window
      → InEra q.at
      → 2 * limit + q.n ≤ exact_floats
      → Tracks h s
      → let (res, s', clock') =
          allow_sliding_window_counter r none key
            (pos limit)
            window
            (pos q.n)
            ttl
            (λ _. q.at)
            (arrive q.at s) in
        let room = has_room F limit window h q in
        (lets_through res ≡ room) × Tracks (record_request room window h q) s'
  unfolding allow_sliding_window_counter
  call-Tracks q h s small w long era exact tracks =
      let s1 = arrive q.at s in
      let a = millis q.at in
      let b = width window in
      let i = pos (a / b) in
      let key' = r.prefix ++ key in
      let (wide, narrow) = width_bounds window w in
      let late = millis_bound q.at era in
      let e = same_clock a (clock_of s1) (clock_of-arrive q.at s era) in
      let tracks' : Step.TracksHistory c redis key' limit b h (data_of s1) =
        rw (data_of-arrive q.at s) tracks in
      let range : InInt64 i = in_range (a / b) (omega (arith, number-le a b)) in
      let range' : InInt64 (before i) = record {
        above = omega (arith, -ℤ_parts i (pos 1));
        below = omega (arith, number-le a b, -ℤ_parts i (pos 1));
      } in
      let now_le = (value-TracksStored limit (keep_until b i) (used i h) _ (tracks' i range)).1 in
      let prev_le =
        (value-TracksStored limit (keep_until b (before i)) (used (before i) h) _
          (tracks' (before i) range')).1 in
      let (alive, alive', kept) = counters_alive a b (clock_of s1) wide e in
      let (same, left) =
        counts.run-swc_script key' limit b a q.n s1 wide narrow late exact
          (live-le limit (keep_until b i) (used i h) (clock_of s1) _ (tracks' i range) alive)
          (live-le limit (keep_until b (before i)) (used (before i) h) (clock_of s1) _
            (tracks' (before i) range') alive') in
      let (guess, low) =
        estimated-eq laws q.at window (used (before i) h) (used i h) era w (omega arith) in
      let ((reply, returns, allowed), after) =
        swc_run-TracksHistory c redis key' limit b a q.n _ h (data_of s1) (clock_of s1) wide
          (omega (arith, late)) (omega arith) e tracks' guess low in
      let guess_at : ℤ → ℤ = λ v.
        fl.to_int (raw_estimate {F = F} q.at window (pos (used (before v) h)) (pos (used v h))) in
      let g = guess_at i in
      let num = current_window_num-eq q.at window era w in
      let rooms : has_room F limit window h q ≡ leb_ℤ (g +ℤ pos q.n) (pos limit) =
        ap (λ v. leb_ℤ (guess_at v +ℤ pos q.n) (pos limit)) num in
      rw (milliseconds-eq window long, unix_milli-eq q.at era, rooms, num, same, returns, left)
        (allowed-flag reply (leb_ℤ (g +ℤ pos q.n) (pos limit)) q.at allowed, after)
