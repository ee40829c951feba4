-- ===== src/Memory/SlidingLog.antt =====
-- store/memory.go: AllowSlidingWindowLog.
use rateshield.Prelude.{
  ℕ, zero, suc, ◌+◌, ◌-◌, ℤ, pos, pos_part, ◌+ℤ◌, ◌-ℤ◌, leb_ℤ, if◌then◌else◌, int64, Bytes, Option,
  none, some, Bool, List, [], ◌∷◌, ◌++◌, length, drop, get_or,
}
use rateshield.Go.{Context}
use rateshield.Go.Time.{Time, Duration, Clock, after, add, sub, zero_time}
use rateshield.Go.Float.{Float64}
use rateshield.Store.{EvalResult, Answer}
use rateshield.Memory.{Memory, MemEntry, zero_entry}
use rateshield.Memory.Window.{at_least_zero, live, evaluate}
pub mod Evict
pub mod Promise
pub mod Exact
pub mod Forgets

-- `now.Add(-window)`
unfoldable pub window_start : Time → Duration → Time
window_start t window = add t (int64 (pos 0 -ℤ window))

-- the loop that finds the first entry inside the window
unfoldable pub cutoff : Time → List Time → ℕ
cutoff start [] = 0
cutoff start (r ∷ rs) = if after r start then 0 else suc (cutoff start rs)

-- the loop that appends `now` n times
unfoldable pub append_times : ℕ → Time → List Time → List Time
append_times zero t rs = rs
append_times (suc k) t rs = append_times k t (rs ++ (t ∷ []))

-- the timestamp of the last entry of a log that is not empty
unfoldable pub newest : List Time → Time
newest rs = get_or rs (length rs - 1) zero_time

-- the wait of a refused request, over a log that is not empty; `needed` is at most the log's length
-- where the log is read
unfoldable pub wait_for_log :
    (count limit : ℤ) (window : Duration) (n : ℤ) (t : Time) → List Time → Duration
wait_for_log count limit window n t rs =
    let needed = int64 (int64 (count +ℤ n) -ℤ limit) in
    let needed_to_expire = if leb_ℤ needed (pos 0) then pos 1 else needed in
    at_least_zero (
      if leb_ℤ needed_to_expire (pos (length rs))
      then sub (add (get_or rs (pos_part needed_to_expire - 1) zero_time) window) t
      else window)

-- the two results of an evaluation that depend on the log's being empty
unfoldable pub log_reset_at : Duration → Time → List Time → Time
unfolding newest
log_reset_at window t [] = t
log_reset_at window t (r ∷ rs) = add (newest (r ∷ rs)) window

unfoldable pub log_retry_after :
    Bool → (count limit : ℤ) (window : Duration) (n : ℤ) (t : Time) → List Time → Duration
unfolding wait_for_log
log_retry_after allowed count limit window n t [] = pos 0
log_retry_after allowed count limit window n t (r ∷ rs) =
    if allowed then pos 0 else wait_for_log count limit window n t (r ∷ rs)

module _ {F : Type 0} ⦃fl : Float64 F⦄ where
  unfoldable pub log_entry : Time → Option (MemEntry F) → MemEntry F
  log_entry t none = record zero_entry { requests = []; last_upd = t }
  log_entry t (some e) = e

  unfoldable pub eval_sliding_window_log :
      (limit : ℤ) (window ttl : Duration) (n : ℤ) (t : Time)
      → Option (MemEntry F)
      → EvalResult × MemEntry F
  unfolding live
  eval_sliding_window_log limit window ttl n t o =
      let e = log_entry t (live t o) in
      let kept = drop (cutoff (window_start t window) e.requests) e.requests in
      let current = pos (length kept) in
      let allowed = leb_ℤ (int64 (current +ℤ n)) limit in
      let requests = if allowed then append_times (pos_part n) t kept else kept in
      let current' = if allowed then int64 (current +ℤ n) else current in
      (
        record {
          allowed = allowed;
          remaining = at_least_zero (int64 (limit -ℤ current'));
          reset_at = log_reset_at window t requests;
          retry_after = log_retry_after allowed current' limit window n t requests;
        },
        record e { requests = requests; expires_at = add t ttl },
      )

  unfoldable pub allow_sliding_window_log :
      Context
      → Bytes
      → (limit : ℤ) → (window : Duration) → (n : ℤ) → (ttl : Duration) → Clock
      → Memory F
      → Answer (Memory F)
  unfolding evaluate
  allow_sliding_window_log ctx key limit window n ttl =
      evaluate ctx key (eval_sliding_window_log limit window ttl n)
