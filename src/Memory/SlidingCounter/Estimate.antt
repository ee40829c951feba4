-- ===== src/Memory/SlidingCounter/Estimate.antt =====
-- docs/algorithms.md, the sliding window counter: the estimate of the documentation, and that
-- store/memory.go, AllowSlidingWindowCounter makes the same one from its window number and its weight.
use rateshield.Prelude.{
  ℕ, ◌/◌, ◌%◌, ◌≡◌, refl, ap, ap₂, arith, ℤ, pos, negsuc, pos_part, ◌+ℤ◌, ◌≤ℤ◌, leb_ℤ, quot, Bool,
  true, false, List, [], ◌∷◌, if◌then◌else◌, Bool-cases, inl, inr,
}
use rateshield.Go.Time.{Time, Duration, millisecond, milliseconds}
use rateshield.Go.Float.{Float64, IsFloat64}
use rateshield.Memory.Requests.{Request, IsTimeline}
use rateshield.Memory.Window.{window_ms, current_window_num}
use rateshield.Memory.Window.Order.{InEra, IsWindow, millis, width, current_window_num-eq}
use rateshield.Memory.FixedWindow.Quota.{History, used}
use rateshield.Memory.SlidingCounter.{weight}
use rateshield.Memory.SlidingCounter.Weight.{weight-share}
use rateshield.Memory.SlidingCounter.Promise as InCode
use rateshield.Memory.SlidingCounter.Promise.{before}

-- The whole milliseconds of a window.
abbrev pub whole_millis : Duration → ℕ
whole_millis window = pos_part window / 1_000_000

-- The windows are numbered from 1970 on.
abbrev pub window_of : Time → Duration → ℤ
window_of t window = pos (millis t / whole_millis window)

module _ (F : Type 0) ⦃fl : Float64 F⦄ where
  -- `1 - (t - t_start) / window`, in milliseconds
  abbrev pub share : Time → Duration → F
  share t window =
      let b = whole_millis window in
      fl.fsub (fl.of_int (pos 1)) (fl.fdiv (fl.of_int (pos (millis t % b))) (fl.of_int (pos b)))

  -- `Count_prev * (1 - (t - t_start) / window) + Count_curr`, rounded down, where the counts are the
  -- units admitted in the window of `t` and in the one before.
  abbrev pub estimate : Time → Duration → History → ℤ
  estimate t window h =
      let w = window_of t window in
      fl.to_int (
        fl.fadd (fl.fmul (fl.of_int (pos (used (before w) h))) (share t window))
          (fl.of_int (pos (used w h))))

  -- A request passes if and only if the estimate and its units together are within the limit.
  abbrev pub has_room : ℕ → Duration → History → Request → Bool
  has_room limit window h r = leb_ℤ (estimate r.at window h +ℤ pos r.n) (pos limit)

  -- The promise for the requests of a key, after the units that were admitted.
  unfoldable pub promised : ℕ → Duration → History → List Request → List Bool
  promised limit window h [] = []
  promised limit window h (r ∷ rs) =
      if has_room limit window h r
      then true ∷ promised limit window ((window_of r.at window, r.n) ∷ h) rs
      else false ∷ promised limit window h rs

width-whole :
    (window : Duration)
    → IsWindow window
    → millisecond ≤ℤ window
    → width window ≡ whole_millis window
unfolding window_ms milliseconds quot
width-whole (pos w) h long = ground arith
width-whole (negsuc w) h long = ground arith

module _ {F : Type 0} ⦃fl : Float64 F⦄ (laws : IsFloat64 F) where
  has_room-eq :
      (limit : ℕ) (window : Duration) (h : History) (r : Request)
      → IsWindow window
      → millisecond ≤ℤ window
      → InEra r.at
      → (current_window_num r.at window ≡ window_of r.at window)
        × (InCode.has_room F limit window h r ≡ has_room F limit window h r)
  has_room-eq limit window h r w long era =
      let num : current_window_num r.at window ≡ window_of r.at window =
        rw (width-whole window w long) at (current_window_num-eq r.at window era w) in
      let part : weight {F = F} r.at window ≡ share F r.at window =
        rw (width-whole window w long) at (weight-share laws r.at window era w) in
      (
        num,
        ap₂
            (λ (v : ℤ) (x : F).
              leb_ℤ
                (fl.to_int (
                    fl.fadd (fl.fmul (fl.of_int (pos (used (before v) h))) x)
                      (fl.of_int (pos (used v h))))
                  +ℤ pos r.n)
                (pos limit))
            num part,
      )

  -- The two promises are one.
  pub promised-eq :
      (limit : ℕ) (window : Duration) (start : Time) (h : History) (rs : List Request)
      → IsWindow window
      → millisecond ≤ℤ window
      → IsTimeline limit start rs
      → InCode.promised F limit window h rs ≡ promised F limit window h rs
  unfolding promised InCode.promised
  promised-eq limit window start h [] w long line = refl
  promised-eq limit window start h (r ∷ rs) w long (le, era, fits, line) =
      let (num, same) = has_room-eq limit window h r w long era in
      elim (Bool-cases (has_room F limit window h r)) [
        | inl room ↦
            rw (same, room, num)
              (ap (λ bs. true ∷ bs)
                (promised-eq limit window r.at ((window_of r.at window, r.n) ∷ h) rs w long line))
        | inr full ↦
            rw (same, full) (ap (λ bs. false ∷ bs) (promised-eq limit window r.at h rs w long line))
      ]
