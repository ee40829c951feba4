-- ===== src/Memory/Window.antt =====
-- store/memory.go: the arithmetic of windows that AllowFixedWindow and AllowSlidingWindowCounter
-- share, and the entry access that all four evaluations share.
use rateshield.Prelude.{
  ℤ, pos, ◌+ℤ◌, ◌-ℤ◌, ◌*ℤ◌, quot, leb_ℤ, ltb_ℤ, if◌then◌else◌, int64, Bool, true, false, Bytes,
  Option, none, some,
}
use rateshield.Go.{Outcome, ok, err, Context}
use rateshield.Go.Time.{
  Time, Duration, Clock, now, later, milliseconds, unix_milli, of_unix_milli, sub, after,
}
use rateshield.Store.{EvalResult, Answer}
use rateshield.Memory.{Memory, MemEntry, find, put}
pub mod Order

unfoldable pub window_ms : Duration → ℤ
window_ms window = let ms = milliseconds window in if leb_ℤ ms (pos 0) then pos 1 else ms

unfoldable pub current_window_num : Time → Duration → ℤ
current_window_num t window = int64 (quot (unix_milli t) (window_ms window))

unfoldable pub window_end : Time → Duration → Time
window_end t window =
    of_unix_milli (int64 (int64 (current_window_num t window +ℤ pos 1) *ℤ window_ms window))

-- `if x < 0 { x = 0 }`
abbrev pub at_least_zero : ℤ → ℤ
at_least_zero x = if ltb_ℤ x (pos 0) then pos 0 else x

-- The wait until the window ends, for a request that is refused.
unfoldable pub wait_for_window : Bool → Time → Duration → Duration
wait_for_window allowed t window =
    if allowed then pos 0 else at_least_zero (sub (window_end t window) t)

-- The entry that a lookup found, unless it has expired (`!ok || now.After(e.expiresAt)`).
unfoldable pub live : {F : Type 0} → Time → Option (MemEntry F) → Option (MemEntry F)
live t none = none
live t (some e) = if after t e.expires_at then none else some e

-- The frame of the four evaluations: the context's error, or the key's entry evaluated and stored.
unfoldable pub evaluate :
    {F : Type 0}
    → Context
    → Bytes
    → (Time → Option (MemEntry F) → EvalResult × MemEntry F)
    → Clock
    → Memory F
    → Answer (Memory F)
evaluate (some e) key eval clock m = (err e, m, clock)
evaluate none key eval clock m =
    let (res, entry) = eval (now clock) (find key m) in (ok res, put key entry m, later clock)
