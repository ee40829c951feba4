-- ===== src/Options/Defaults.antt =====
-- options.go: what New makes of its options.
use rateshield.Prelude.{
  ℕ, ◌+◌, ◌≤◌, pos, ◌+ℤ◌, +ℤ_parts, ◌<ℤ◌, ◌≡◌, refl, ◌∙◌, arith, true, false, Bytes, none, List, [],
  ◌∷◌, leb_ℤ,
}
use rateshield.Go.{ok}
use rateshield.Go.Time.{Time, Duration, hour}
use rateshield.Go.Float.{Float64}
use rateshield.Memory.{Memory, find}
use rateshield.Memory.SlidingLog.Promise.{promised}
use rateshield.Memory.SlidingLog.Forgets.{sliding_log_forgets_after_ttl}
use rateshield.Memory.Window.Order.{IsWindow}
use rateshield.Memory.Requests.{Request}
use rateshield.Limiter.Any.{sliding_window}
use rateshield.Limiter.Promise.{in_memory, decided, decided-store}
use rateshield.Options.{
  Setting, sliding_window_algorithm, with_algorithm, with_limit, with_window, new,
}

module _ {F : Type 0} ⦃fl : Float64 F⦄ where
  -- New with the sliding window algorithm, a limit and a window, both positive, and no TTL makes a
  -- limiter over a memory store whose TTL is one hour, whatever the window; if twice the limit is
  -- an int64, the limiter lets two requests for the whole limit through that are more than an hour
  -- apart and still within one window, for a key that is not empty and has no entry yet, where the
  -- promise of the log refuses the second.
  pub default_ttl_cuts_long_windows :
      (c : ℕ) (key : Bytes) (limit : ℕ) (window : Duration) (s t : Time) (m : Memory F)
      → 1 ≤ limit
      → limit + limit ≤ 9223372036854775807
      → IsWindow window
      → find (c ∷ key) m ≡ none
      → s +ℤ hour <ℤ t
      → t <ℤ s +ℤ window
      → let opts : List (Setting F) =
          with_algorithm sliding_window_algorithm
          ∷ with_limit (pos limit)
          ∷ with_window window
          ∷ [] in
        let rs : List Request = record { at = s; n = limit } ∷ record { at = t; n = limit } ∷ [] in
        (new opts ≡ ok (sliding_window (in_memory limit window hour)))
        × (decided (c ∷ key) limit window hour m rs ≡ true ∷ true ∷ [])
        × (promised limit window [] rs ≡ true ∷ false ∷ [])
  unfolding new with_algorithm with_limit with_window
  default_ttl_cuts_long_windows c key limit window s t m one fits w empty gone within =
      let limited : leb_ℤ (pos limit) (pos 0) ≡ false = ground arith in
      let timed : leb_ℤ window (pos 0) ≡ false = ground (arith, w.positive) in
      let rs : List Request = record { at = s; n = limit } ∷ record { at = t; n = limit } ∷ [] in
      let (lets_both, refuses) =
        sliding_log_forgets_after_ttl (c ∷ key) limit window hour s t m w empty one fits gone
          (omega (arith, +ℤ_parts s hour)) within in
      (rw (limited, timed) refl, decided-store c key limit window hour m rs ∙ lets_both, refuses)
