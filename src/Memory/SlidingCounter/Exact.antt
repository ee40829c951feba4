-- ===== src/Memory/SlidingCounter/Exact.antt =====
-- store/memory.go: AllowSlidingWindowCounter keeps to its estimate, for all requests of a key.
use rateshield.Prelude.{
  ℕ, ◌+◌, ◌≤◌, ◌≡◌, refl, sym, ap, ap₂, ◌∙◌, All, arith, ℤ, pos, ◌+ℤ◌, ◌≤ℤ◌, ◌<ℤ◌, leb_ℤ, +ℤ_parts,
  -ℤ_parts, int_laws, plus_pos, int64, int64-id, Option, none, some, List, [], ◌∷◌, Bytes,
  Bool-cases, inl, inr,
}
use rateshield.Go.Time.{Time, Duration, add, millisecond}
use rateshield.Go.Float.{Float64, IsFloat64}
use rateshield.Memory.{Memory, MemEntry, find, put}
use rateshield.Memory.Shards.{find-put_self}
use rateshield.Memory.Window.{current_window_num, window_end, live}
use rateshield.Memory.Window.Order.{InEra, IsWindow}
use rateshield.Memory.Requests.{Request, IsTimeline}
use rateshield.Memory.FixedWindow.Quota.{History, used, record_request}
use rateshield.Memory.SlidingCounter.{
  counter_entry, estimated_count, eval_sliding_window_counter, allow_sliding_window_counter,
}
use rateshield.Memory.SlidingCounter.Weight.{estimate_bounds}
use rateshield.Memory.SlidingCounter.Estimate
use rateshield.Memory.SlidingCounter.Estimate.{promised-eq}
use rateshield.Memory.SlidingCounter.Promise.{
  before, estimate, has_room, promised, decided, Starts, Tracks, entry-Starts,
}

used_now :
    (b : ℤ) (n : ℕ) (h : History)
    → (used b ((b, n) ∷ h) ≡ used b h + n) × (used (before b) ((b, n) ∷ h) ≡ used (before b) h)
used_now b n h = (ground arith, ground (arith, -ℤ_parts b (pos 1)))

used_then : (b v : ℤ) (n : ℕ) (h : History) → b <ℤ v → used v ((b, n) ∷ h) ≡ used v h
used_then b v n h lt = ground arith

module _ {F : Type 0} ⦃fl : Float64 F⦄ (laws : IsFloat64 F) where
  -- The evaluation decides as promised, and the entry that it leaves keeps track.
  pub eval-Tracks :
      (limit : ℕ) (window : Duration) (t : Time) (n : ℕ) (h : History) (o : Option (MemEntry F))
      → limit ≤ 4503599627370496
      → n ≤ 9007199254740992
      → IsWindow window
      → InEra t
      → Starts limit (current_window_num t window) h (counter_entry t window (live t o))
      → let r : Request = record { at = t; n = n } in
        let (res, e) = eval_sliding_window_counter (pos limit) window (pos n) t o in
        (res.allowed ≡ has_room F limit window h r)
        × Tracks limit window t (record_request (has_room F limit window h r) window h r) (some e)
  unfolding eval_sliding_window_counter estimated_count
  eval-Tracks limit window t n h o small few w et k =
      let b = current_window_num t window in
      let e = counter_entry t window (live t o) in
      let guess = estimate F t window h in
      let (low, high) =
        estimate_bounds laws t window e et w (rw k.counts (omega arith))
          (rw k.prev_counts (omega arith))
          (rw (k.counts, k.prev_counts, plus_pos (used (before b) h) (used b h))
            (omega (arith, k.bounded, k.prev_bounded))) in
      let bounded = k.bounded in
      let prev_bounded = k.prev_bounded in
      let start : MemEntry F = record e { expires_at = add (window_end t window) window } in
      let same : estimated_count t window start ≡ guess = rw (k.counts, k.prev_counts) refl in
      let sum = plus_pos (used (before b) h) (used b h) in
      let low' : pos (used b h) ≤ℤ guess = ground (arith, low, same, k.counts) in
      let high' : guess ≤ℤ pos (used (before b) h) +ℤ pos (used b h) =
        ground (arith, high, same, k.counts, k.prev_counts, sum) in
      let s1 : int64 (guess +ℤ pos n) ≡ guess +ℤ pos n =
        int64-id _ (record { above = omega int_laws; below = omega int_laws }) in
      let s2 : int64 (pos (used b h) +ℤ pos n) ≡ pos (used b h + n) =
        rw (plus_pos (used b h) n)
          (int64-id _ (record { above = omega arith; below = omega arith })) in
      elim (Bool-cases (leb_ℤ (guess +ℤ pos n) (pos limit))) [
        | inl room ↦
            let fits : used b h + n ≤ limit = ground (arith, room, low', +ℤ_parts guess (pos n)) in
            let (grown, left) = used_now b n h in
            rw (same, s1, room, k.counts, s2)
              (
                refl,
                (
                  record {
                    num = k.num;
                    counts = ap pos (sym grown);
                    prev_counts = rw left k.prev_counts;
                    bounded = omega (arith, grown);
                    prev_bounded = omega (arith, left);
                    no_future = λ v lt. used_then b v n h lt ∙ k.no_future v lt;
                  },
                  refl,
                ),
              )
        | inr full ↦
            rw (same, s1, full)
              (
                refl,
                (
                  record {
                    num = k.num;
                    counts = k.counts;
                    prev_counts = k.prev_counts;
                    bounded = k.bounded;
                    prev_bounded = k.prev_bounded;
                    no_future = k.no_future;
                  },
                  refl,
                ),
              )
      ]

  decided-promised :
      (key : Bytes) (limit : ℕ) (window ttl : Duration) (last : Time) (h : History) (m : Memory F)
      (rs : List Request)
      → limit ≤ 4503599627370496
      → IsWindow window
      → millisecond ≤ℤ window
      → InEra last
      → Tracks limit window last h (find key m)
      → IsTimeline limit last rs
      → All (λ (r : Request). r.n ≤ 9007199254740992) rs
      → decided key limit window ttl m rs ≡ promised F limit window h rs
  unfolding decided promised allow_sliding_window_counter
  decided-promised key limit window ttl last h m [] small w long el k line few = refl
  decided-promised key limit window ttl last h m (r ∷ rs) small w long el k (le, et, fits, line)
        (f, few) =
      let o = find key m in
      let (res, e) = eval_sliding_window_counter (pos limit) window (pos r.n) r.at o in
      let h' = record_request (has_room F limit window h r) window h r in
      let (same, tracks) =
        eval-Tracks limit window r.at r.n h o small f w et
          (entry-Starts limit window last r.at h o w long el et le k) in
      let stored : find key (put key e m) ≡ some e = find-put_self key e m in
      let kept : Tracks limit window r.at h' (find key (put key e m)) = rw stored tracks in
      ap₂ ◌∷◌ same (
        decided-promised key limit window ttl r.at h' (put key e m) rs small w long et kept line
          few)

  -- By the laws of float64: for a limit up to 2^52, a window of at least a millisecond, a key with no
  -- entry yet, and requests for at most 2^53 units each on a timeline from 1970 to 2262, the store
  -- lets a request through if and only if the documented estimate leaves room for it under the
  -- limit: the units that it has admitted to the key in the window before, times one less the elapsed
  -- part of the request's window, plus those that it has admitted in the request's window, rounded
  -- down, for windows numbered from 1970 on in whole milliseconds.
  pub sliding_counter_keeps_estimate :
      (key : Bytes) (limit : ℕ) (window ttl : Duration) (start : Time) (m : Memory F)
      (rs : List Request)
      → limit ≤ 4503599627370496
      → IsWindow window
      → millisecond ≤ℤ window
      → InEra start
      → find key m ≡ none
      → IsTimeline limit start rs
      → All (λ (r : Request). r.n ≤ 9007199254740992) rs
      → decided key limit window ttl m rs ≡ Estimate.promised F limit window [] rs
  sliding_counter_keeps_estimate key limit window ttl start m rs small w long es empty line few =
      decided-promised key limit window ttl start [] m rs small w long es (rw empty (λ v. refl))
        line few
      ∙ promised-eq laws limit window start [] rs w long line
