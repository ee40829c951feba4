-- ===== src/Memory/FixedWindow.antt =====
-- store/memory.go: AllowFixedWindow.
use rateshield.Prelude.{
  ℤ, pos, ◌+ℤ◌, ◌-ℤ◌, leb_ℤ, eq_ℤ, if◌then◌else◌, int64, Bytes, Option, none, some,
}
use rateshield.Go.{Context}
use rateshield.Go.Time.{Time, Duration, Clock, add}
use rateshield.Go.Float.{Float64}
use rateshield.Store.{EvalResult, Answer}
use rateshield.Memory.{Memory, MemEntry, zero_entry}
use rateshield.Memory.Window.{
  current_window_num, window_end, at_least_zero, wait_for_window, live, evaluate,
}
pub mod Quota
pub mod Exact
pub mod Overflow
pub mod Retry

module _ {F : Type 0} ⦃fl : Float64 F⦄ where
  -- the entry that the evaluation starts from, from the live entry of the key
  unfoldable pub fixed_window_entry : Time → Duration → Option (MemEntry F) → MemEntry F
  fixed_window_entry t window none = record zero_entry {
    count = pos 0;
    window_num = current_window_num t window;
    last_upd = t;
  }
  fixed_window_entry t window (some e) =
      if eq_ℤ e.window_num (current_window_num t window)
      then e
      else record e { count = pos 0; window_num = current_window_num t window; last_upd = t }

  unfoldable pub eval_fixed_window :
      (limit : ℤ) (window : Duration) (n : ℤ) (t : Time)
      → Option (MemEntry F)
      → EvalResult × MemEntry F
  unfolding wait_for_window live
  eval_fixed_window limit window n t o =
      let e = record (fixed_window_entry t window (live t o)) {
        expires_at = add (window_end t window) window;
      } in
      let allowed = leb_ℤ (int64 (e.count +ℤ n)) limit in
      let e' = if allowed then record e { count = int64 (e.count +ℤ n) } else e in
      (
        record {
          allowed = allowed;
          remaining = at_least_zero (int64 (limit -ℤ e'.count));
          reset_at = window_end t window;
          retry_after = wait_for_window allowed t window;
        },
        e',
      )

  unfoldable pub allow_fixed_window :
      Context
      → Bytes
      → (limit : ℤ) → (window : Duration) → (n : ℤ) → (ttl : Duration) → Clock
      → Memory F
      → Answer (Memory F)
  unfolding evaluate
  allow_fixed_window ctx key limit window n ttl =
      evaluate ctx key (eval_fixed_window limit window n)
