-- ===== src/Memory/FixedWindow/Overflow.antt =====
-- store/memory.go: AllowFixedWindow past the range of an int64.
use rateshield.Prelude.{
  ℕ, ◌+◌, ◌≤◌, ◌<◌, ◌≡◌, refl, ◌∙◌, ap₂, arith, pos, ◌+ℤ◌, ◌≤ℤ◌, ◌<ℤ◌, plus_pos, int64, int64_wraps,
  true, false, Option, none, some, List, [], ◌∷◌, Bytes, leb,
}
use rateshield.Go.Time.{Time, Duration}
use rateshield.Go.Float.{Float64}
use rateshield.Memory.{Memory, MemEntry, find, put}
use rateshield.Memory.Shards.{find-put_self}
use rateshield.Memory.Window.{current_window_num, live}
use rateshield.Memory.Window.Order.{InEra, IsWindow}
use rateshield.Memory.Requests.{Request}
use rateshield.Memory.FixedWindow.{fixed_window_entry, eval_fixed_window, allow_fixed_window}
use rateshield.Memory.FixedWindow.Quota.{
  History, used, promised, decided, Tracks, Starts, entry-Starts, eval-Tracks,
}

module _ {F : Type 0} ⦃fl : Float64 F⦄ where
  -- A sum past the range is negative, and below every limit.
  overflow_allows :
      (limit : ℕ) (window : Duration) (t : Time) (u n : ℕ) (h : History) (o : Option (MemEntry F))
      → Starts limit window t h (fixed_window_entry t window (live t o))
      → used (current_window_num t window) h ≡ u
      → u ≤ 9223372036854775807
      → n ≤ 9223372036854775807
      → 9223372036854775807 < u + n
      → (eval_fixed_window (pos limit) window (pos n) t o).0.allowed ≡ true
  unfolding eval_fixed_window
  overflow_allows limit window t u n h o s e ul nl over =
      let count = (fixed_window_entry t window (live t o)).count in
      let sum : count +ℤ pos n ≡ pos (u + n) = rw (s.counts, e) (plus_pos u n) in
      let negative : int64 (pos (u + n)) <ℤ pos 0 =
        int64_wraps (pos (u + n)) (omega arith) (omega arith) in
      rw sum (ground arith)

  -- For a key with no entry yet, a request for `u` units, at most the limit, and after it one in
  -- the same window, between 1970 and 2262, for so many units, in the range of int64, that the sum
  -- of both is past that range are both let through, where the promise refuses the second. The
  -- limit and `u` together are in the range.
  pub fixed_window_overflow_admits :
      (key : Bytes) (limit : ℕ) (window ttl : Duration) (s t : Time) (u n : ℕ) (m : Memory F)
      → IsWindow window
      → InEra s
      → InEra t
      → s ≤ℤ t
      → current_window_num s window ≡ current_window_num t window
      → find key m ≡ none
      → u ≤ limit
      → limit + u ≤ 9223372036854775807
      → n ≤ 9223372036854775807
      → 9223372036854775807 < u + n
      → let rs : List Request = record { at = s; n = u } ∷ record { at = t; n = n } ∷ [] in
        (decided key limit window ttl m rs ≡ true ∷ true ∷ [])
        × (promised limit window [] rs ≡ true ∷ false ∷ [])
  unfolding decided promised allow_fixed_window
  fixed_window_overflow_admits key limit window ttl s t u n m w es et le same empty ul fits nl
        over =
      let o = find key m in
      let e = (eval_fixed_window (pos limit) window (pos u) s o).1 in
      let num = current_window_num s window in
      let room : leb (0 + u) limit ≡ true = ground arith in
      let (first, tracks) =
        eval-Tracks limit window s u [] o fits
          (entry-Starts limit window s s [] o w es es (omega arith) (rw empty (λ v. refl))) in
      let stored : find key (put key e m) ≡ some e = find-put_self key e m in
      let h : History = (num, u) ∷ [] in
      let tracked : Tracks limit window s h (find key (put key e m)) =
        rw stored (rw room at tracks) in
      let starts = entry-Starts limit window s t h (find key (put key e m)) w es et le tracked in
      let used_there : used (current_window_num t window) h ≡ u = rw (← same) (ground arith) in
      (
        ap₂ (λ a b. a ∷ b ∷ []) (first ∙ room)
            (overflow_allows limit window t u n h (find key (put key e m)) starts used_there
              (omega arith) nl over),
        rw room (rw used_there (ground arith)),
      )
