-- ===== src/Tests/Limiters.antt =====
-- The limiters at concrete inputs.
use rateshield.Memory.SlidingLog.Evict.{filter_after}
use rateshield.Prelude.{
  lookup, ℤ, pos, ◌*ℤ◌, ◌+ℤ◌, ◌-ℤ◌, int64, ◌≡◌, refl, arith, true, false, none, some, [], ◌∷◌, List,
}
use rateshield.Go.{ok}
use rateshield.Go.Time.{Time, Clock, second, hour}
use rateshield.Go.Float.{int_float}
use rateshield.Memory.{Memory, find, new}
use rateshield.Memory.Backend.{memory_store}
use rateshield.Memory.Requests.{Request, IsTimeline}
use rateshield.Memory.SlidingLog.Promise.{promised}
use rateshield.Limiter.SlidingWindow
use rateshield.Limiter.SlidingWindow.{SlidingWindow}
use rateshield.Limiter.Any.{Limiter, token_bucket, sliding_window}
use rateshield.Limiter.Promise.{in_memory, decided, sliding_window_limiter_is_exact}
use rateshield.Options
use rateshield.Options.{sliding_window_algorithm, with_algorithm, with_limit, with_window}
use rateshield.Options.Defaults.{default_ttl_cuts_long_windows}

abbrev t : Time
t = pos 62135596801000000000

abbrev clock : Clock
clock = λ i. t

abbrev five_tokens : Limiter ℤ
five_tokens =
    token_bucket
      (record { rate = pos 1; capacity = pos 5; store = memory_store int_float; ttl = hour })

abbrev store : Memory ℤ
store = new

nothing_stored : find (97 ∷ []) store ≡ none
unfolding new find lookup
nothing_stored = refl

abbrev two_then_two : List Request
two_then_two =
    record { at = t; n = 2 }
    ∷ record { at = pos 62135596801500000000; n = 2 }
    ∷ record { at = pos 62135596802000000000; n = 2 }
    ∷ []

two_then_two-IsTimeline : IsTimeline 3 t two_then_two
unfolding ◌-ℤ◌
two_then_two-IsTimeline = ground arith

sliding_window_limiter_is_exact_example :
    (SlidingWindow.new (record {
      limit = pos 3;
      window = second;
      store = some (memory_store int_float);
      ttl = pos 0;
    })
      ≡ ok (in_memory 3 second (pos 2_000_000_000)))
    × (decided (97 ∷ []) 3 second (pos 2_000_000_000) store two_then_two ≡ true ∷ false ∷ true ∷ [])
unfolding int64 promised ◌*ℤ◌ filter_after ◌-ℤ◌
sliding_window_limiter_is_exact_example =
    sliding_window_limiter_is_exact 97 [] 3 second t store two_then_two (omega arith) (omega arith)
      (omega arith) nothing_stored two_then_two-IsTimeline

-- two hours
abbrev long_window : ℤ
long_window = pos 7_200_000_000_000

-- the whole limit twice, a little more than an hour apart
abbrev whole_limit_twice : List Request
whole_limit_twice = record { at = t; n = 3 } ∷ record { at = pos 62135600401000000001; n = 3 } ∷ []

default_ttl_cuts_long_windows_example :
    (Options.new {F = ℤ} (
        with_algorithm sliding_window_algorithm ∷ with_limit (pos 3) ∷ with_window long_window ∷ [])
      ≡ ok (sliding_window (in_memory 3 long_window hour)))
    × (decided (97 ∷ []) 3 long_window hour store whole_limit_twice ≡ true ∷ true ∷ [])
    × (promised 3 long_window [] whole_limit_twice ≡ true ∷ false ∷ [])
unfolding ◌+ℤ◌
default_ttl_cuts_long_windows_example =
    default_ttl_cuts_long_windows 97 [] 3 long_window t (pos 62135600401000000001) store
      (omega arith) (omega arith) (ground arith) nothing_stored (omega arith) (omega arith)
