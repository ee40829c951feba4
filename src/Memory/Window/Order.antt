-- ===== src/Memory/Window/Order.antt =====
-- store/memory.go: the windows in the order of time. The laws hold from 1970 to 2262, where an
-- instant's Unix time in nanoseconds is an int64.
use rateshield.Prelude.{
  eq_ℤ, eq_of_parts, false, Bool-cases, inl, inr, ℕ, ◌+◌, ◌-◌, ◌*◌, ◌/◌, ◌≤◌, ◌<◌, ◌≡◌, refl, arith,
  pos, negsuc, pos_part, ◌-ℤ◌, ◌≤ℤ◌, ◌<ℤ◌, quot, floor_div, int64, int64-id, max_int64, times_pos,
  plus_pos,
}
use rateshield.Go.Time.{Time, Duration, unix_epoch, unix_milli, of_unix_milli, milliseconds}
use rateshield.Memory.Window.{window_ms, current_window_num, window_end}

-- An instant whose Unix time in nanoseconds is an int64 that is not negative.
pub record InEra (t : Time) : Type 0 where
  pub since_1970 : unix_epoch ≤ℤ t
  pub until_2262 : t -ℤ unix_epoch ≤ℤ max_int64

-- A duration that a limiter accepts as its window.
pub record IsWindow (window : Duration) : Type 0 where
  pub positive : pos 1 ≤ℤ window
  pub fits : window ≤ℤ max_int64

-- the milliseconds since 1970, and of a window, as natural numbers
abbrev pub epoch_nanos : ℕ
epoch_nanos = 62135596800000000000

abbrev pub millis : Time → ℕ
millis t = (pos_part t - epoch_nanos) / 1_000_000

abbrev pub width : Duration → ℕ
width window = pos_part (window_ms window)

pub window_ms-eq : (window : Duration) → IsWindow window → window_ms window ≡ pos (width window)
unfolding window_ms milliseconds quot
window_ms-eq (pos w) h = ground arith
window_ms-eq (negsuc w) h = ground arith

pub width_bounds :
    (window : Duration) → IsWindow window → (1 ≤ width window) × (width window ≤ 9223372036854)
unfolding window_ms milliseconds quot
width_bounds (pos w) h = ground arith
width_bounds (negsuc w) h = ground arith

pub unix_milli-eq : (t : Time) → InEra t → unix_milli t ≡ pos (millis t)
unfolding unix_milli ◌-ℤ◌ floor_div int64
unix_milli-eq (pos y) h = ground arith
unix_milli-eq (negsuc y) h = ground arith

pub millis_bound : (t : Time) → InEra t → millis t ≤ 9223372036854
unfolding ◌-ℤ◌
millis_bound (pos y) h = ground arith
millis_bound (negsuc y) h = ground arith

pub millis-le : (s t : Time) → s ≤ℤ t → millis s ≤ millis t
millis-le (pos x) (pos y) le = omega arith
millis-le (negsuc x) t le = omega arith
millis-le (pos x) (negsuc y) le = omega arith

-- the number of the window of an instant, as a natural number
abbrev pub number : Time → Duration → ℕ
number t window = millis t / width window

quot_pos : (a b : ℕ) → quot (pos a) (pos b) ≡ pos (a / b)
unfolding quot
quot_pos a b = refl

pub number-le : (a b : ℕ) → a / b ≤ a
number-le a b = grind arith

pub current_window_num-eq :
    (t : Time) (window : Duration)
    → InEra t
    → IsWindow window
    → current_window_num t window ≡ pos (number t window)
unfolding current_window_num
current_window_num-eq t window h w =
    rw (window_ms-eq window w, unix_milli-eq t h, quot_pos)
      (int64-id (pos (number t window)) (record {
        above = omega arith;
        below = omega (arith, millis_bound t h, number-le (millis t) (width window));
      }))

-- The end of the window of `m` milliseconds with `b` milliseconds to a window.
pub next_multiple : (m b : ℕ) → 1 ≤ b → (m < (m / b + 1) * b) × ((m / b + 1) * b ≤ m + b)
next_multiple m b h = grind arith

pub window_end-eq :
    (t : Time) (window : Duration)
    → InEra t
    → IsWindow window
    → window_end t window ≡ pos (epoch_nanos + (number t window + 1) * width window * 1_000_000)
unfolding window_end of_unix_milli
window_end-eq t window h w =
    let q = number t window in
    let bounds = next_multiple (millis t) (width window) (width_bounds window w).0 in
    let fits : q + 1 ≤ 9223372036855 =
      omega (arith, millis_bound t h, number-le (millis t) (width window)) in
    rw (
      current_window_num-eq t window h w,
      window_ms-eq window w,
      plus_pos q 1,
      int64-id (pos (q + 1)) (record { above = omega arith; below = omega arith }),
      times_pos (q + 1) (width window),
      int64-id (pos ((q + 1) * width window)) (record {
        above = omega arith;
        below = omega (arith, bounds, millis_bound t h, width_bounds window w);
      }),
      times_pos ((q + 1) * width window) 1_000_000,
      plus_pos epoch_nanos,
    )

-- A window ends after each of its instants.
pub lt-window_end :
    (t : Time) (window : Duration) → InEra t → IsWindow window → t <ℤ window_end t window
lt-window_end t window h w = rw (window_end-eq t window h w) (
    lt-next t (number t window + 1) (width window)
      (next_multiple (millis t) (width window) (width_bounds window w).0).0)
  where
    lt-next : (t : Time) (q b : ℕ) → millis t < q * b → t <ℤ pos (epoch_nanos + q * b * 1_000_000)
    lt-next (pos y) q b h = omega arith
    lt-next (negsuc y) q b h = omega arith

-- Windows are numbered in the order of time.
pub current_window_num_mono :
    (s t : Time) (window : Duration)
    → InEra s
    → InEra t
    → IsWindow window
    → s ≤ℤ t
    → current_window_num s window ≤ℤ current_window_num t window
current_window_num_mono s t window hs ht w le =
    rw (current_window_num-eq s window hs w, current_window_num-eq t window ht w)
      (omega (arith, quotients (millis s) (millis t) (width window) (millis-le s t le)))
  where
    quotients : (a b c : ℕ) → a ≤ b → a / c ≤ b / c
    quotients a b c h = grind arith

-- Instants of one window have one end of the window.
pub window_end_of_num :
    (s t : Time) (window : Duration)
    → current_window_num s window ≡ current_window_num t window
    → window_end s window ≡ window_end t window
unfolding window_end
window_end_of_num s t window e = rw e

near_end :
    (t : Time) (e b : ℕ)
    → InEra t
    → e ≤ millis t + b
    → b ≤ 9223372036854
    → pos (epoch_nanos + e * 1_000_000) -ℤ t ≤ℤ max_int64
unfolding ◌-ℤ◌
near_end (pos y) e b h le fits = ground (arith, h.since_1970)
near_end (negsuc y) e b h le fits = ground (arith, h.since_1970)

-- A window ends at most its length after each of its instants, and no later instant is one of it.
pub window_end_near :
    (t : Time) (window : Duration)
    → InEra t
    → IsWindow window
    → window_end t window -ℤ t ≤ℤ max_int64
window_end_near t window h w = rw (window_end-eq t window h w) (
    near_end t ((number t window + 1) * width window) (width window) h
      (next_multiple (millis t) (width window) (width_bounds window w).0).1
      (width_bounds window w).1)

pub window_end-later :
    (s t : Time) (window : Duration)
    → InEra t
    → IsWindow window
    → window_end s window ≤ℤ t
    → eq_ℤ (current_window_num s window) (current_window_num t window) ≡ false
window_end-later s t window h w le =
    elim (Bool-cases (eq_ℤ (current_window_num s window) (current_window_num t window))) [
      | inl same ↦
          let e = window_end_of_num s t window (eq_of_parts _ _ (ground arith)) in
          absurd (ground (arith, e, lt-window_end t window h w))
      | inr other ↦ other
    ]
