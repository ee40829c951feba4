-- ===== src/Memory/SlidingCounter/Bounds.antt =====
-- store/memory.go: AllowSlidingWindowCounter keeps its counts and its answers within the limit.
use rateshield.Prelude.{
  ℤ, pos, ◌+ℤ◌, ◌-ℤ◌, ◌≤ℤ◌, ◌≡◌, refl, arith, +ℤ_parts, -ℤ_parts, int_laws, int64, int64-id, Option,
  none, some, if◌then◌else◌, Bool-cases, inl, inr, leb_ℤ,
}
use rateshield.Go.Time.{Time, Duration, add}
use rateshield.Go.Float.{Float64, IsFloat64}
use rateshield.Memory.{MemEntry}
use rateshield.Memory.Window.{window_end, live}
use rateshield.Memory.Window.Order.{InEra, IsWindow}
use rateshield.Memory.SlidingCounter.{counter_entry, estimated_count, eval_sliding_window_counter}
use rateshield.Memory.SlidingCounter.Weight.{estimate_bounds}

module _ {F : Type 0} ⦃fl : Float64 F⦄ where
  -- The counts of both windows lie between zero and the limit.
  pub record InLimit (limit : ℤ) (e : MemEntry F) : Type 0 where
    pub count_low : pos 0 ≤ℤ e.count
    pub count_high : e.count ≤ℤ limit
    pub prev_low : pos 0 ≤ℤ e.prev_count
    pub prev_high : e.prev_count ≤ℤ limit

  -- The entry of a key, if it has one, counts in that range.
  abbrev pub Counts : ℤ → Option (MemEntry F) → Type 0
  Counts limit none = Unit {0}
  Counts limit (some e) = InLimit limit e

  entry-InLimit :
      (limit : ℤ) (t : Time) (window : Duration) (o : Option (MemEntry F))
      → pos 0 ≤ℤ limit
      → Counts limit o
      → InLimit limit (counter_entry t window (live t o))
  unfolding counter_entry live
  entry-InLimit limit t window none nonneg h = ground arith
  entry-InLimit limit t window (some e) nonneg h = ground arith

-- The entry that the estimate is made of.
abbrev pub started_at :
    {F : Type 0} → ⦃fl : Float64 F⦄ → Time → Duration → Option (MemEntry F) → MemEntry F
started_at t window o = record (counter_entry t window (live t o)) {
  expires_at = add (window_end t window) window;
}

module _ {F : Type 0} ⦃fl : Float64 F⦄ (laws : IsFloat64 F) where
  -- By the laws of float64: for a limit from zero to 2^52, a request for `n` units from none to
  -- 2^62, a positive window and an instant from 1970 to 2262, on a key whose counts lie between
  -- zero and the limit: the counts still do after the evaluation, the remainder does, the estimate
  -- lies between the count of the window and that count plus the one of the window before, the
  -- request passes if and only if the estimate and its units together are within the limit, and
  -- only then it is counted.
  pub sliding_counter_stays_within_bounds :
      (limit n : ℤ) (window : Duration) (t : Time) (o : Option (MemEntry F))
      → pos 0 ≤ℤ limit
      → limit ≤ℤ pos 4503599627370496
      → pos 0 ≤ℤ n
      → n ≤ℤ pos 4611686018427387904
      → IsWindow window
      → InEra t
      → Counts limit o
      → let (res, e) = eval_sliding_window_counter limit window n t o in
        let start = started_at t window o in
        let estimate = estimated_count t window start in
        InLimit limit e
        × (pos 0 ≤ℤ res.remaining)
        × (res.remaining ≤ℤ limit)
        × (start.count ≤ℤ estimate)
        × (estimate ≤ℤ start.prev_count +ℤ start.count)
        × (res.allowed ≡ leb_ℤ (estimate +ℤ n) limit)
        × (e.count ≡ (if res.allowed then start.count +ℤ n else start.count))
  unfolding eval_sliding_window_counter
  sliding_counter_stays_within_bounds limit n window t o nonneg small n0 n62 w era h =
      let start = started_at t window o in
      let k = entry-InLimit limit t window o nonneg h in
      let estimate = estimated_count t window start in
      let (low, high) =
        estimate_bounds laws t window start era w k.count_low k.prev_low
          (omega (arith, k.count_high, k.prev_high, +ℤ_parts start.prev_count start.count)) in
      let count_le : start.count ≤ℤ limit = k.count_high in
      let prev_le : start.prev_count ≤ℤ limit = k.prev_high in
      let count0 : pos 0 ≤ℤ start.count = k.count_low in
      let sum = +ℤ_parts start.prev_count start.count in
      let s1 : int64 (estimate +ℤ n) ≡ estimate +ℤ n =
        int64-id _ (record { above = omega (int_laws, sum); below = omega (int_laws, sum) }) in
      let s2 : int64 (start.count +ℤ n) ≡ start.count +ℤ n =
        int64-id _ (record { above = omega int_laws; below = omega int_laws }) in
      let s3 : int64 (limit -ℤ (estimate +ℤ n)) ≡ limit -ℤ (estimate +ℤ n) =
        int64-id _ (record { above = omega (int_laws, sum); below = omega (int_laws, sum) }) in
      let s4 : int64 (limit -ℤ estimate) ≡ limit -ℤ estimate =
        int64-id _ (record { above = omega (int_laws, sum); below = omega (int_laws, sum) }) in
      elim (Bool-cases (leb_ℤ (estimate +ℤ n) limit)) [
        | inl room ↦
            let fits : estimate +ℤ n ≤ℤ limit = ground arith in
            rw (s1, room, s2, s3)
              (
                record {
                  count_low = omega int_laws;
                  count_high = omega int_laws;
                  prev_low = k.prev_low;
                  prev_high = k.prev_high;
                },
                ground (arith, -ℤ_parts limit (estimate +ℤ n), fits),
                ground (
                  arith,
                  -ℤ_parts limit (estimate +ℤ n),
                  fits,
                  +ℤ_parts estimate n,
                  low,
                  count0,
                  n0,
                ),
                low,
                high,
                refl,
                refl,
              )
        | inr full ↦
            rw (s1, full, s4)
              (
                record {
                  count_low = k.count_low;
                  count_high = k.count_high;
                  prev_low = k.prev_low;
                  prev_high = k.prev_high;
                },
                ground (arith, -ℤ_parts limit estimate),
                ground (arith, -ℤ_parts limit estimate, low, count0),
                low,
                high,
                refl,
                refl,
              )
      ]
