-- ===== src/Memory/SlidingCounter/Weight.antt =====
-- store/memory.go: the weight of the window before, and the estimate that AllowSlidingWindowCounter
-- makes with it, by the documented facts of float64 arithmetic.
use rateshield.Prelude.{
  ℕ, ◌+◌, ◌-◌, ◌*◌, ◌/◌, ◌%◌, ◌≤◌, ℤ, pos, ◌+ℤ◌, ◌-ℤ◌, ◌*ℤ◌, ◌≤ℤ◌, ◌≡◌, refl, ◌∙◌, ap,
  if◌then◌else◌, arith, eq_of_parts, +ℤ_parts, int_laws, times_pos, int64, int64-id, true, false,
  not, max_int64,
}
use rateshield.Go.Time.{Time, Duration, unix_milli}
use rateshield.Go.Float.{Float64, IsFloat64, ◌≼◌, nought, two53}
use rateshield.Memory.{MemEntry}
use rateshield.Memory.Window.{window_ms, current_window_num}
use rateshield.Memory.Window.Order.{
  InEra, IsWindow, millis, width, number, window_ms-eq, width_bounds, unix_milli-eq, millis_bound,
  current_window_num-eq,
}
use rateshield.Memory.SlidingCounter.{weight, estimated_count}

-- The milliseconds since the window of `t` began, as the code computes them.
abbrev time_into : Time → Duration → ℤ
time_into t window = int64 (unix_milli t -ℤ int64 (current_window_num t window *ℤ window_ms window))

rounded_down : (m b : ℕ) → 1 ≤ b → (m / b * b ≤ m) × (m ≤ m / b * b + b)
rounded_down m b h = grind arith

time_into-eq :
    (t : Time) (window : Duration)
    → InEra t
    → IsWindow window
    → (x : ℕ) × (time_into t window ≡ pos x)
      × (x ≤ width window)
      × (pos (millis t) -ℤ pos (number t window) *ℤ pos (width window) ≡ pos x)
      × (x ≡ millis t % width window)
time_into-eq t window h w =
    let q = number t window in
    let b = width window in
    let (below, above) = rounded_down (millis t) b (width_bounds window w).0 in
    let bound = millis_bound t h in
    (
      millis t - q * b,
      rw
          (
            current_window_num-eq t window h w,
            window_ms-eq window w,
            unix_milli-eq t h,
            times_pos q b,
            int64-id (pos (q * b))
                (record { above = omega arith; below = omega (arith, bound, below) }),
            minus_pos (millis t) (q * b) below,
          )
          (int64-id _ (record { above = omega arith; below = omega (arith, bound) })),
      omega (arith, above),
      rw (times_pos q b) (minus_pos (millis t) (q * b) below),
      remainder (millis t) b,
    )
  where
    minus_pos : (a b : ℕ) → b ≤ a → pos a -ℤ pos b ≡ pos (a - b)
    minus_pos a b le = eq_of_parts _ _ (omega int_laws)

    remainder : (m b : ℕ) → m - m / b * b ≡ m % b
    remainder m b = grind arith

-- The weight in terms of whole milliseconds.
pub weight-eq :
    {F : Type 0} ⦃fl : Float64 F⦄ (t : Time) (window : Duration)
    → InEra t
    → IsWindow window
    → let b = width window in
      let into = pos (millis t) -ℤ pos (number t window) *ℤ pos b in
      let w : F = fl.fsub (fl.of_int (pos 1)) (fl.fdiv (fl.of_int into) (fl.of_int (pos b))) in
      weight t window ≡ (if fl.flt w nought then nought else w)
unfolding weight
weight-eq t window h w =
    let (x, into, x_le, whole, rest) = time_into-eq t window h w in
    rw (into, window_ms-eq window w, whole) refl

module _ {F : Type 0} ⦃fl : Float64 F⦄ where
  -- The sum that is rounded down to the estimate, for counts `n` and, of the window before, `p`.
  abbrev pub raw_estimate : Time → Duration → (p n : ℤ) → F
  raw_estimate t window p n =
      fl.fadd (fl.fmul (fl.of_int p) (weight {F = F} t window)) (fl.of_int n)

module _ {F : Type 0} ⦃fl : Float64 F⦄ (laws : IsFloat64 F) where
  open laws use {
    of_int_mono, fle_trans, fle_number, flt-eq-not-fle, fsub_nonneg, fsub_le, fadd_grows, fadd_le,
    fmul_nonneg, fmul_le, fdiv_nonneg, fdiv_le_one, fle_exact, to_int_above, to_int_below,
    floor_of-to_int,
  }

  -- The share of a window of `b` milliseconds that `x` of them leave lies between 0 and 1.
  share_bounds :
      (x b : ℕ)
      → 1 ≤ b
      → b ≤ 9223372036854
      → x ≤ b
      → let w : F = fl.fsub (fl.of_int (pos 1)) (fl.fdiv (fl.of_int (pos x)) (fl.of_int (pos b))) in
        (nought ≼ w) × (w ≼ fl.of_int (pos 1)) × (fl.flt w nought ≡ false)
  share_bounds x b b1 b_max x_le =
      let one = fl.of_int (pos 1) in
      let ratio = fl.fdiv (fl.of_int (pos x)) (fl.of_int (pos b)) in
      let positive : fl.flt nought (fl.of_int (pos b)) ≡ true =
        flt-eq-not-fle nought (fl.of_int (pos b)) (of_int_mono _ _ (omega arith))
          (of_int_mono _ _ (omega arith))
        ∙ ap not (fle_exact (pos b) (pos 0) (omega arith) (omega arith) (omega arith) (omega arith))
        ∙ ground arith in
      let r0 : nought ≼ ratio =
        fdiv_nonneg (fl.of_int (pos x)) (fl.of_int (pos b)) (pos x) (omega arith)
          (of_int_mono _ _ (omega arith)) (of_int_mono _ _ (omega arith)) positive in
      let r1 : ratio ≼ one =
        fdiv_le_one (pos x) (pos b) (omega arith) (omega arith) (omega arith) (omega arith) in
      let o1 : one ≼ one = of_int_mono _ _ (omega arith) in
      let low : nought ≼ fl.fsub one ratio = fsub_nonneg one ratio (pos 1) (omega arith) r0 r1 o1 in
      let high : fl.fsub one ratio ≼ one = fsub_le one ratio (pos 1) (omega arith) r0 r1 o1 in
      (
        low,
        high,
        flt-eq-not-fle (fl.fsub one ratio) nought (fle_number _ _ low).1 (fle_number _ _ low).0
            ∙ ap not low,
      )

  -- The weight lies between 0 and 1, for a window that is positive and an instant from 1970 to 2262.
  pub weight_bounds :
      (t : Time) (window : Duration)
      → InEra t
      → IsWindow window
      → (nought ≼ weight {F = F} t window) × (weight {F = F} t window ≼ fl.of_int (pos 1))
  unfolding weight
  weight_bounds t window h w =
      let (x, into, x_le, whole, rest) = time_into-eq t window h w in
      let (b1, b_max) = width_bounds window w in
      let (low, high, not_below) = share_bounds x (width window) b1 b_max x_le in
      rw (into, window_ms-eq window w, not_below) (low, high)

  -- The weight is one less the elapsed part of the window, and is never cut off at zero.
  pub weight-share :
      (t : Time) (window : Duration)
      → InEra t
      → IsWindow window
      → let b = width window in
        weight {F = F} t window
        ≡ fl.fsub (fl.of_int (pos 1)) (fl.fdiv (fl.of_int (pos (millis t % b))) (fl.of_int (pos b)))
  unfolding weight
  weight-share t window h w =
      let (x, into, x_le, whole, rest) = time_into-eq t window h w in
      let (b1, b_max) = width_bounds window w in
      let (low, high, not_below) = share_bounds x (width window) b1 b_max x_le in
      rw (into, window_ms-eq window w, not_below, ← rest) refl

  -- For counts that are not negative and whose sum is at most 2^53, the estimate lies between the
  -- count of the window and that count plus the count of the window before, and rounding down gives
  -- what the conversion to an integer gives.
  pub raw_estimate_bounds :
      (t : Time) (window : Duration) (p n : ℤ)
      → InEra t
      → IsWindow window
      → pos 0 ≤ℤ n
      → pos 0 ≤ℤ p
      → p +ℤ n ≤ℤ two53
      → let x : F = raw_estimate t window p n in
        (n ≤ℤ fl.to_int x) × (fl.to_int x ≤ℤ p +ℤ n) × (fl.floor_of x ≡ fl.to_int x)
  raw_estimate_bounds t window p n h w n0 p0 small =
      let (w0, w1) = weight_bounds t window h w in
      let prev = fl.of_int p in
      let count = fl.of_int n in
      let p_le : p ≤ℤ max_int64 = omega (arith, +ℤ_parts p n) in
      let prev0 : nought ≼ prev = of_int_mono _ _ p0 in
      let prev_refl : prev ≼ prev = of_int_mono _ _ (omega arith) in
      let product0 =
        fmul_nonneg prev (weight {F = F} t window) p (pos 1) p_le (omega arith) prev0 prev_refl w0
          w1 in
      let product_le = fmul_le prev (weight {F = F} t window) p p_le prev0 prev_refl w0 w1 in
      let product = fl.fmul prev (weight {F = F} t window) in
      let count0 : nought ≼ count = of_int_mono _ _ n0 in
      let count_refl : count ≼ count = of_int_mono _ _ (omega arith) in
      let grows : count ≼ fl.fadd product count = fadd_grows product count product0 count0 in
      let sum0 : nought ≼ fl.fadd product count = fle_trans _ _ _ count0 grows in
      let sum_le : fl.fadd product count ≼ fl.of_int (p +ℤ n) =
        fadd_le product count p n p0 n0 small product0 product_le count0 count_refl in
      let sum53 = fle_trans _ _ _ sum_le (of_int_mono (p +ℤ n) two53 small) in
      (
        to_int_above (fl.fadd product count) n (omega (arith, +ℤ_parts p n)) sum0 sum53 grows,
        to_int_below (fl.fadd product count) (p +ℤ n) sum0 sum_le small,
        floor_of-to_int (fl.fadd product count) sum0 sum53,
      )

  pub estimate_bounds :
      (t : Time) (window : Duration) (e : MemEntry F)
      → InEra t
      → IsWindow window
      → pos 0 ≤ℤ e.count
      → pos 0 ≤ℤ e.prev_count
      → e.prev_count +ℤ e.count ≤ℤ two53
      → (e.count ≤ℤ estimated_count t window e)
        × (estimated_count t window e ≤ℤ e.prev_count +ℤ e.count)
  unfolding estimated_count
  estimate_bounds t window e h w c0 p0 small =
      let (low, high, whole) = raw_estimate_bounds t window e.prev_count e.count h w c0 p0 small in
      (low, high)
