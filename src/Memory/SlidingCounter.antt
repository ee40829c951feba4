-- ===== src/Memory/SlidingCounter.antt =====
-- store/memory.go: AllowSlidingWindowCounter.
use rateshield.Prelude.{
  ℤ, pos, ◌+ℤ◌, ◌-ℤ◌, ◌*ℤ◌, leb_ℤ, eq_ℤ, if◌then◌else◌, int64, Bytes, Option, none, some,
}
use rateshield.Go.{Context}
use rateshield.Go.Time.{Time, Duration, Clock, add, unix_milli}
use rateshield.Go.Float.{Float64}
use rateshield.Store.{EvalResult, Answer}
use rateshield.Memory.{Memory, MemEntry, zero_entry}
use rateshield.Memory.Window.{
  window_ms, current_window_num, window_end, at_least_zero, wait_for_window, live, evaluate,
}
pub mod Weight
pub mod Bounds
pub mod Promise
pub mod Estimate
pub mod Exact

module _ {F : Type 0} ⦃fl : Float64 F⦄ where
  -- the entry that the evaluation starts from: the count of the window before is kept as prev_count
  unfoldable pub counter_entry : Time → Duration → Option (MemEntry F) → MemEntry F
  counter_entry t window none = record zero_entry {
    count = pos 0;
    prev_count = pos 0;
    window_num = current_window_num t window;
    last_upd = t;
  }
  counter_entry t window (some e) =
      if eq_ℤ e.window_num (current_window_num t window) then e else record e {
        prev_count =
            if eq_ℤ (current_window_num t window) (int64 (e.window_num +ℤ pos 1))
            then e.count
            else pos 0;
        count = pos 0;
        window_num = current_window_num t window;
        last_upd = t;
      }

  -- the part of the window before that the sliding window still covers
  unfoldable pub weight : Time → Duration → F
  weight t window =
      let window_start_ms = int64 (current_window_num t window *ℤ window_ms window) in
      let time_into_window_ms = int64 (unix_milli t -ℤ window_start_ms) in
      let w =
        fl.fsub (fl.of_int (pos 1))
          (fl.fdiv (fl.of_int time_into_window_ms) (fl.of_int (window_ms window))) in
      if fl.flt w (fl.of_int (pos 0)) then fl.of_int (pos 0) else w

  unfoldable pub estimated_count : Time → Duration → MemEntry F → ℤ
  estimated_count t window e =
      fl.to_int (fl.fadd (fl.fmul (fl.of_int e.prev_count) (weight t window)) (fl.of_int e.count))

  unfoldable pub eval_sliding_window_counter :
      (limit : ℤ) (window : Duration) (n : ℤ) (t : Time)
      → Option (MemEntry F)
      → EvalResult × MemEntry F
  unfolding wait_for_window live
  eval_sliding_window_counter limit window n t o =
      let e = record (counter_entry t window (live t o)) {
        expires_at = add (window_end t window) window;
      } in
      let estimated = estimated_count t window e in
      let allowed = leb_ℤ (int64 (estimated +ℤ n)) limit in
      let e' = if allowed then record e { count = int64 (e.count +ℤ n) } else e in
      let estimated' = if allowed then int64 (estimated +ℤ n) else estimated in
      (
        record {
          allowed = allowed;
          remaining = at_least_zero (int64 (limit -ℤ estimated'));
          reset_at = window_end t window;
          retry_after = wait_for_window allowed t window;
        },
        e',
      )

  unfoldable pub allow_sliding_window_counter :
      Context
      → Bytes
      → (limit : ℤ) → (window : Duration) → (n : ℤ) → (ttl : Duration) → Clock
      → Memory F
      → Answer (Memory F)
  unfolding evaluate
  allow_sliding_window_counter ctx key limit window n ttl =
      evaluate ctx key (eval_sliding_window_counter limit window n)
