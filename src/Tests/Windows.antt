-- ===== src/Tests/Windows.antt =====
-- The windows of the memory store at concrete inputs: three requests per second, and what the log
-- and the counter make of them.
use rateshield.Memory.SlidingLog.Evict.{filter_after}
use rateshield.Prelude.{
  +ℤ_parts, ◌*ℤ◌, floor_div, quot, lookup, ◌≤◌, pos, ◌+ℤ◌, ◌-ℤ◌, ◌≤ℤ◌, ◌≡◌, refl, arith, true,
  false, none, some, List, [], ◌∷◌, Bytes, int64, if◌then◌else◌, leb_ℤ, ℤ,
}
use rateshield.Go.Time.{milliseconds, unix_milli, Time, second, hour, sub, of_unix_milli}
use rateshield.Go.Float.{int_float, ℤ-IsFloat64}
use rateshield.Memory.{Memory, MemEntry, find, new, zero_entry}
use rateshield.Memory.Window.{window_end, window_ms, current_window_num, live, wait_for_window}
use rateshield.Memory.Window.Order.{InEra, IsWindow}
use rateshield.Memory.Requests.{Request, IsTimeline}
use rateshield.Memory.FixedWindow.Quota
use rateshield.Memory.FixedWindow.Exact
use rateshield.Memory.FixedWindow.Exact.{fixed_window_keeps_quota, fixed_window_never_exceeds}
use rateshield.Memory.FixedWindow.{eval_fixed_window, fixed_window_entry}
use rateshield.Memory.FixedWindow.Retry.{fixed_window_wait_is_enough}
use rateshield.Memory.FixedWindow.Overflow.{fixed_window_overflow_admits}
use rateshield.Memory.SlidingLog.{cutoff}
use rateshield.Memory.SlidingLog.Promise
use rateshield.Memory.SlidingLog.Exact.{sliding_log_counts_exactly, sliding_log_never_exceeds}
use rateshield.Memory.SlidingLog.Forgets.{sliding_log_forgets_after_ttl}
use rateshield.Memory.SlidingCounter.{eval_sliding_window_counter, estimated_count}
use rateshield.Memory.SlidingCounter.Bounds.{
  started_at, InLimit, sliding_counter_stays_within_bounds,
}

abbrev key : Bytes
key = 97 ∷ []

-- one second, one and a half, and two after the start of 1970
abbrev t₁ : Time
t₁ = pos 62135596801000000000

abbrev t₂ : Time
t₂ = pos 62135596801500000000

abbrev t₃ : Time
t₃ = pos 62135596802000000000

abbrev two_then_two : List Request
two_then_two =
    record { at = t₁; n = 2 } ∷ record { at = t₂; n = 2 } ∷ record { at = t₃; n = 2 } ∷ []

two_then_two-IsTimeline : IsTimeline 3 t₁ two_then_two
unfolding ◌-ℤ◌
two_then_two-IsTimeline = ground arith

second-IsWindow : IsWindow second
second-IsWindow = ground arith

t₁-InEra : InEra t₁
unfolding ◌-ℤ◌
t₁-InEra = ground arith

t₂-InEra : InEra t₂
unfolding ◌-ℤ◌
t₂-InEra = ground arith

abbrev store : Memory ℤ
store = new

nothing_stored : find key store ≡ none
unfolding new find lookup
nothing_stored = refl

fixed_window_keeps_quota_example :
    Quota.decided key 3 second hour store two_then_two ≡ true ∷ false ∷ true ∷ []
unfolding Quota.promised current_window_num int64 quot unix_milli floor_div ◌-ℤ◌ window_ms
    milliseconds
fixed_window_keeps_quota_example =
    fixed_window_keeps_quota key 3 second hour t₁ store two_then_two second-IsWindow t₁-InEra
      nothing_stored two_then_two-IsTimeline

fixed_window_never_exceeds_example :
    Exact.admitted (pos 1) second two_then_two (Quota.decided key 3 second hour store two_then_two)
    ≤ 3
fixed_window_never_exceeds_example =
    fixed_window_never_exceeds key 3 second hour t₁ store two_then_two (pos 1) second-IsWindow
      t₁-InEra nothing_stored two_then_two-IsTimeline

sliding_log_counts_exactly_example :
    Promise.decided key 3 second hour store two_then_two ≡ true ∷ false ∷ true ∷ []
unfolding Promise.promised filter_after ◌-ℤ◌
sliding_log_counts_exactly_example =
    sliding_log_counts_exactly key 3 second hour t₁ store two_then_two second-IsWindow (omega arith)
      nothing_stored two_then_two-IsTimeline

sliding_log_never_exceeds_example :
    rateshield.Memory.SlidingLog.Exact.admitted t₁
      (t₁ +ℤ second)
      two_then_two
      (Promise.decided key 3 second hour store two_then_two)
    ≤ 3
sliding_log_never_exceeds_example =
    sliding_log_never_exceeds key 3 second hour t₁ t₁ store two_then_two second-IsWindow
      (omega arith) nothing_stored two_then_two-IsTimeline

-- the whole limit twice, one and a half seconds apart
abbrev whole_limit_twice : List Request
whole_limit_twice = record { at = t₁; n = 3 } ∷ record { at = pos 62135596802500000000; n = 3 } ∷ []

sliding_log_forgets_after_ttl_example :
    (Promise.decided key 3 hour second store whole_limit_twice ≡ true ∷ true ∷ [])
    × (Promise.promised 3 hour [] whole_limit_twice ≡ true ∷ false ∷ [])
unfolding ◌+ℤ◌
sliding_log_forgets_after_ttl_example =
    sliding_log_forgets_after_ttl key 3 hour second t₁ (pos 62135596802500000000) store
      (ground arith) nothing_stored (omega arith) (omega arith) (omega arith) (omega arith)
      (omega arith)

same_window : current_window_num t₁ second ≡ current_window_num t₂ second
unfolding current_window_num window_ms milliseconds unix_milli ◌-ℤ◌ floor_div int64 quot
same_window = ground arith

-- the second request is for 2^63 - 1 units
abbrev huge_second : List Request
huge_second = record { at = t₁; n = 1 } ∷ record { at = t₂; n = 9223372036854775807 } ∷ []

fixed_window_overflow_admits_example :
    (Quota.decided key 3 second hour store huge_second ≡ true ∷ true ∷ [])
    × (Quota.promised 3 second [] huge_second ≡ true ∷ false ∷ [])
fixed_window_overflow_admits_example =
    fixed_window_overflow_admits key 3 second hour t₁ t₂ 1 9223372036854775807 store second-IsWindow
      t₁-InEra t₂-InEra (omega arith) same_window nothing_stored (omega arith) (omega arith)
      (omega arith) (omega arith)

-- two requests in the window of `t₁`, three in the one before
abbrev busy : MemEntry ℤ
busy = record zero_entry { count = pos 2; prev_count = pos 3; window_num = pos 1; expires_at = t₃ }

sliding_counter_stays_within_bounds_example :
    let (res, e) = eval_sliding_window_counter (pos 3) second (pos 1) t₂ (some busy) in
    let start = started_at t₂ second (some busy) in
    let estimate = estimated_count t₂ second start in
    InLimit (pos 3) e
    × (pos 0 ≤ℤ res.remaining)
    × (res.remaining ≤ℤ pos 3)
    × (start.count ≤ℤ estimate)
    × (estimate ≤ℤ start.prev_count +ℤ start.count)
    × (res.allowed ≡ leb_ℤ (estimate +ℤ pos 1) (pos 3))
    × (e.count ≡ (if res.allowed then start.count +ℤ pos 1 else start.count))
sliding_counter_stays_within_bounds_example =
    sliding_counter_stays_within_bounds ℤ-IsFloat64 (pos 3) (pos 1) second t₂ (some busy)
      (omega arith) (omega arith) (omega arith) (omega arith) second-IsWindow t₂-InEra
      (ground arith)

-- three requests in the window of `t₁`
abbrev full : MemEntry ℤ
full = record zero_entry { count = pos 3; window_num = pos 1; expires_at = t₃ }

t₃-InEra : InEra t₃
unfolding ◌-ℤ◌
t₃-InEra = ground arith

full_refuses : (eval_fixed_window (pos 3) second (pos 2) t₂ (some full)).0.allowed ≡ false
unfolding eval_fixed_window fixed_window_entry live current_window_num window_ms milliseconds
    unix_milli window_end of_unix_milli wait_for_window sub floor_div quot int64 ◌+ℤ◌ ◌-ℤ◌ ◌*ℤ◌
full_refuses = refl

half_a_second :
    (eval_fixed_window (pos 3) second (pos 2) t₂ (some full)).0.retry_after ≡ pos 500_000_000
unfolding eval_fixed_window fixed_window_entry live current_window_num window_ms milliseconds
    unix_milli window_end of_unix_milli wait_for_window sub floor_div quot int64 ◌+ℤ◌ ◌-ℤ◌ ◌*ℤ◌
half_a_second = refl

fixed_window_wait_is_enough_example :
    (eval_fixed_window
      (pos 3)
      second
      (pos 2)
      t₃
      (some (eval_fixed_window (pos 3) second (pos 2) t₂ (some full)).1)).0.allowed
    ≡ true
fixed_window_wait_is_enough_example =
    fixed_window_wait_is_enough (pos 3) (pos 2) second t₂ t₃ (some full) second-IsWindow t₂-InEra
      t₃-InEra (omega arith) (omega arith) (omega arith) full_refuses
      (rw half_a_second (omega (arith, +ℤ_parts t₂ (pos 500_000_000))))
