-- ===== src/Memory/SlidingLog/Forgets.antt =====
-- store/memory.go: AllowSlidingWindowLog with a TTL that is shorter than the window.
use rateshield.Prelude.{
  ℕ, ◌+◌, ◌≤◌, ◌≡◌, refl, ◌∙◌, ap₂, arith, pos, ◌+ℤ◌, ◌-ℤ◌, ◌<ℤ◌, +ℤ_parts, -ℤ_parts, true, false,
  Option, none, List, [], ◌∷◌, Bytes, leb, length, replicate, length-replicate,
}
use rateshield.Go.Time.{Time, Duration}
use rateshield.Go.Float.{Float64}
use rateshield.Memory.{Memory, MemEntry, find, put}
use rateshield.Memory.Shards.{find-put_self}
use rateshield.Memory.Window.{live}
use rateshield.Memory.Window.Order.{IsWindow}
use rateshield.Memory.Requests.{Request}
use rateshield.Memory.SlidingLog.{
  cutoff, log_entry, eval_sliding_window_log, allow_sliding_window_log,
}
use rateshield.Memory.SlidingLog.Evict.{filter_after, filter_after-replicate}
use rateshield.Memory.SlidingLog.Promise.{promised, decided, Starts, kept_at, eval-Tracks}

module _ {F : Type 0} ⦃fl : Float64 F⦄ where
  -- A key without a live entry starts from an empty log.
  dead-Starts :
      (limit : ℕ) (window : Duration) (t : Time) (o : Option (MemEntry F))
      → live t o ≡ none
      → Starts limit window t [] (kept_at window t o)
  unfolding log_entry cutoff filter_after
  dead-Starts limit window t o dead =
      rw dead (record { kept_is = refl; bounded = omega arith; sorted = tt; past = tt })

  -- For a key with no entry yet and a limit of at least one, twice which is an int64, two requests
  -- for the whole limit, the second after the TTL of the first but still within its window, are
  -- both let through, where the promise refuses the second.
  pub sliding_log_forgets_after_ttl :
      (key : Bytes) (limit : ℕ) (window ttl : Duration) (s t : Time) (m : Memory F)
      → IsWindow window
      → find key m ≡ none
      → 1 ≤ limit
      → limit + limit ≤ 9223372036854775807
      → s +ℤ ttl <ℤ t
      → s <ℤ t
      → t <ℤ s +ℤ window
      → let rs : List Request = record { at = s; n = limit } ∷ record { at = t; n = limit } ∷ [] in
        (decided key limit window ttl m rs ≡ true ∷ true ∷ [])
        × (promised limit window [] rs ≡ true ∷ false ∷ [])
  unfolding decided promised allow_sliding_window_log filter_after
  sliding_log_forgets_after_ttl key limit window ttl s t m w empty one fits gone later_ within =
      let o = find key m in
      let e = (eval_sliding_window_log (pos limit) window ttl (pos limit) s o).1 in
      let room : leb (0 + limit) limit ≡ true = ground arith in
      let (first, tracks) =
        eval-Tracks limit window ttl s limit [] o w fits
          (dead-Starts limit window s o (rw empty (unfold live in refl))) in
      let dead : live t (find key (put key e m)) ≡ none =
        rw (find-put_self key e m) (unfold live in rw tracks.expires (ground arith)) in
      let (second, _) =
        eval-Tracks limit window ttl t limit [] (find key (put key e m)) w fits
          (dead-Starts limit window t (find key (put key e m)) dead) in
      let inside : t -ℤ window <ℤ s = omega (arith, -ℤ_parts t window, +ℤ_parts s window) in
      let counted : length (filter_after (t -ℤ window) (replicate limit s)) ≡ limit =
        rw (filter_after-replicate (t -ℤ window) s limit inside) (length-replicate limit s) in
      (ap₂ (λ a b. a ∷ b ∷ []) (first ∙ room) (second ∙ room), rw room (rw counted (ground arith)))
