-- ===== src/Memory/FixedWindow/Retry.antt =====
-- store/memory.go: the wait that AllowFixedWindow reports is enough.
use rateshield.Prelude.{
  ℤ, pos, ◌+ℤ◌, ◌≤ℤ◌, ◌≡◌, refl, arith, eq_ℤ, eq_of_parts, +ℤ_parts, -ℤ_parts, int64, int64-id,
  max_int64, true, false, Option, none, some, Bool-cases, inl, inr,
}
use rateshield.Go.Time.{Time, Duration, add, sub}
use rateshield.Go.Float.{Float64}
use rateshield.Memory.{MemEntry}
use rateshield.Memory.Window.{current_window_num, window_end, wait_for_window, live}
use rateshield.Memory.Window.Order.{
  InEra, IsWindow, lt-window_end, window_end_near, window_end-later,
}
use rateshield.Memory.FixedWindow.{fixed_window_entry, eval_fixed_window}

-- The wait of a refused request ends when its window does.
wait-window_end :
    (t : Time) (window : Duration)
    → InEra t
    → IsWindow window
    → add t (wait_for_window false t window) ≡ window_end t window
unfolding wait_for_window sub
wait-window_end t window h w =
    eq_of_parts _ _
      (grind (arith, window_end_near t window h w, lt-window_end t window h w, -ℤ_parts, +ℤ_parts))

module _ {F : Type 0} ⦃fl : Float64 F⦄ where
  -- An evaluation leaves an entry of its own window.
  entry-window_num :
      (t : Time) (window : Duration) (o : Option (MemEntry F))
      → (fixed_window_entry t window o).window_num ≡ current_window_num t window
  unfolding fixed_window_entry
  entry-window_num t window none = refl
  entry-window_num t window (some e) =
      elim (Bool-cases (eq_ℤ e.window_num (current_window_num t window))) [
        | inl same ↦ rw same (eq_of_parts _ _ (ground arith))
        | inr other ↦ rw other refl
      ]

  -- An entry of another window counts from zero.
  entry_of_other_window :
      (t : Time) (window : Duration) (e : MemEntry F)
      → eq_ℤ e.window_num (current_window_num t window) ≡ false
      → (fixed_window_entry t window (live t (some e))).count ≡ pos 0
  unfolding fixed_window_entry live
  entry_of_other_window t window e other = ground arith

  -- If a request for `n` units, none to the limit, is refused at an instant from 1970 to 2262 and
  -- comes again, with no request of the key in between, once the wait that was reported is over, but
  -- still until 2262, it passes.
  pub fixed_window_wait_is_enough :
      (limit n : ℤ) (window : Duration) (t t' : Time) (o : Option (MemEntry F))
      → IsWindow window
      → InEra t
      → InEra t'
      → pos 0 ≤ℤ n
      → n ≤ℤ limit
      → limit ≤ℤ max_int64
      → (eval_fixed_window limit window n t o).0.allowed ≡ false
      → add t (eval_fixed_window limit window n t o).0.retry_after ≤ℤ t'
      → (eval_fixed_window limit window n t'
          (some (eval_fixed_window limit window n t o).1)).0.allowed
        ≡ true
  unfolding eval_fixed_window
  fixed_window_wait_is_enough limit n window t t' o w h h' n0 le fits refused waited =
      let e = (eval_fixed_window limit window n t o).1 in
      let end : window_end t window ≤ℤ t' =
        rw (← wait-window_end t window h w) (rw refused at waited) in
      let num : e.window_num ≡ current_window_num t window =
        rw refused (entry-window_num t window (live t o)) in
      let other : eq_ℤ e.window_num (current_window_num t' window) ≡ false =
        rw num (window_end-later t t' window h' w end) in
      let zero_plus : pos 0 +ℤ n ≡ n = eq_of_parts _ _ (ground (arith, +ℤ_parts (pos 0) n)) in
      let sum : int64 (pos 0 +ℤ n) ≡ n =
        rw zero_plus (int64-id n (record { above = omega arith; below = omega arith })) in
      rw (entry_of_other_window t' window e other, sum) (ground arith)
