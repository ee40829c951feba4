-- ===== src/Redis/Server.antt =====
-- store/redis.go: a client whose server runs the scripts over the commands of Redis.
use rateshield.Prelude.{
  ℕ, ◌+◌, ◌≤◌, ◌≡◌, refl, arith, ℤ, pos, negsuc, ◌+ℤ◌, ◌≤ℤ◌, Bool, true, false, none, [], ◌∷◌,
  Bytes, quot,
}
use rateshield.Go.{Outcome, ok, err}
use rateshield.Go.Time.{Time, Duration, millisecond, milliseconds}
use rateshield.Memory.Requests.{lets_through}
use rateshield.Memory.Window.{window_ms}
use rateshield.Memory.Window.Order.{InEra, millis, width}
use rateshield.Redis.{
  Client, Raw, slice, int_item, int_arg, fw_script, swl_script, parse_reply, parse_slice,
}
use rateshield.Redis.Commands.{Commands, IsRedis, live_at, value_of}
use rateshield.Redis.Scripts.{Reply, flag, fw_run}
use rateshield.Redis.Scripts.Log.{swl_run, seq_key}
use rateshield.Redis.FixedWindow.History.{IsNear}

-- Up to here a float64, and so a number of Lua, counts without gaps; and up to here Lua writes all
-- the digits of a number.
abbrev pub exact_floats : ℕ
exact_floats = 9007199254740992

abbrev pub exact_digits : ℕ
exact_digits = 99999999999999

-- The slice that the client makes of what a script returns.
abbrev pub raw_of : Outcome Reply → Outcome Raw
raw_of (ok r) = ok (
    slice
      (int_item r.allowed ∷ int_item r.remaining ∷ int_item r.reset_ms ∷ int_item r.retry_ms ∷ []))
raw_of (err e) = err e

-- A client of a server which has the commands of Redis: the data and the clock of the server, what it
-- is when a request made at an instant arrives, with the clock within `skew` milliseconds, and the
-- runs of fwScript and swlScript on numbers that are exact in Lua.
pub record Serves {F : Type 0} (c : Commands F) (redis : IsRedis c) (client : Client F) (skew : ℕ)
    : Type 0 where
  pub data_of : client.S → c.D
  pub clock_of : client.S → ℤ
  pub arrive : Time → client.S → client.S
  pub data_of-arrive : (t : Time) (s : client.S) → data_of (arrive t s) ≡ data_of s
  pub clock_of-arrive :
      (t : Time) (s : client.S) → InEra t → IsNear skew (millis t) (clock_of (arrive t s))
  pub run-fw_script :
      (key : Bytes) (limit ms now n : ℕ) (s : client.S)
      → 1 ≤ ms
      → ms ≤ 9223372036854
      → now ≤ 9223372036854
      → limit + n ≤ exact_floats
      → let (reply, d) =
          fw_run c (clock_of s) key (pos limit) (pos ms) (pos now) (pos n) (data_of s) in
        let (raw, s') =
          client.run fw_script none
            (key ∷ [])
            (int_arg (pos limit) ∷ int_arg (pos ms) ∷ int_arg (pos now) ∷ int_arg (pos n) ∷ [])
            s in
        (raw ≡ raw_of reply) × (data_of s' ≡ d)
  pub run-swl_script :
      (key : Bytes) (limit ms now n ttl : ℕ) (s : client.S)
      → 1 ≤ ms
      → ms ≤ 9223372036854
      → now ≤ 9223372036854
      → ttl ≤ 9223372036854
      → limit + n ≤ exact_floats
      → value_of (live_at (clock_of s) (redis.read (seq_key key) (data_of s))) +ℤ pos n
        ≤ℤ pos exact_digits
      → let (reply, d) =
          swl_run c (clock_of s) key (pos limit) (pos ms) (pos now) (pos n) (pos ttl) (data_of s) in
        let (raw, s') =
          client.run swl_script none
            (key ∷ [])
            (int_arg (pos limit)
              ∷ int_arg (pos ms)
              ∷ int_arg (pos now)
              ∷ int_arg (pos n)
              ∷ int_arg (pos ttl)
              ∷ [])
            s in
        (raw ≡ raw_of reply) × (data_of s' ≡ d)

pub milliseconds-eq :
    (window : Duration) → millisecond ≤ℤ window → milliseconds window ≡ pos (width window)
unfolding milliseconds window_ms quot
milliseconds-eq (pos w) h = ground arith
milliseconds-eq (negsuc w) h = ground arith

pub allowed-flag :
    (r : Reply) (b : Bool) (t : Time)
    → r.allowed ≡ flag b
    → lets_through (parse_reply (raw_of (ok r)) t) ≡ b
unfolding parse_reply parse_slice
allowed-flag r true t h = rw h refl
allowed-flag r false t h = rw h refl
