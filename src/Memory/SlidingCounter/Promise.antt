-- ===== src/Memory/SlidingCounter/Promise.antt =====
-- store/memory.go: AllowSlidingWindowCounter against the estimate that it promises, for all requests
-- of a key.
use rateshield.Prelude.{
  ℕ, ◌+◌, ◌*◌, ◌/◌, ◌≤◌, ◌≡◌, refl, sym, ap, arith, true, ℤ, pos, negsuc, ◌+ℤ◌, ◌-ℤ◌, ◌≤ℤ◌, ◌<ℤ◌,
  eq_ℤ, leb_ℤ, ltb_ℤ, quot, eq_of_parts, +ℤ_parts, -ℤ_parts, int_laws, plus_pos, int64, int64-id,
  Bool, Option, none, some, List, [], ◌∷◌, Bytes, if◌then◌else◌, Bool-cases, inl, inr,
}
use rateshield.Go.Time.{Time, Duration, after, add, millisecond, milliseconds}
use rateshield.Go.Float.{Float64}
use rateshield.Memory.{Memory, MemEntry}
use rateshield.Memory.Window.{window_ms, current_window_num, window_end, live}
use rateshield.Memory.Window.Order.{
  InEra, IsWindow, millis, width, width_bounds, millis_bound, number-le, number,
  current_window_num-eq, window_end-eq, epoch_nanos, current_window_num_mono,
}
use rateshield.Memory.Requests.{Request, lets_through}
use rateshield.Memory.FixedWindow.Quota.{History, used, record_request}
use rateshield.Memory.SlidingCounter.{weight, counter_entry, allow_sliding_window_counter}

-- The number of the window before.
abbrev pub before : ℤ → ℤ
before w = w -ℤ pos 1

module _ (F : Type 0) ⦃fl : Float64 F⦄ where
  -- The estimate from what was admitted in the window of `t` and in the one before.
  abbrev pub estimate : Time → Duration → History → ℤ
  estimate t window h =
      let w = current_window_num t window in
      fl.to_int (
        fl.fadd (fl.fmul (fl.of_int (pos (used (before w) h))) (weight {F = F} t window))
          (fl.of_int (pos (used w h))))

  -- The promise: a request passes if and only if the estimate leaves room for it.
  abbrev pub has_room : ℕ → Duration → History → Request → Bool
  has_room limit window h r = leb_ℤ (estimate r.at window h +ℤ pos r.n) (pos limit)

  unfoldable pub promised : ℕ → Duration → History → List Request → List Bool
  promised limit window h [] = []
  promised limit window h (r ∷ rs) =
      let b = has_room limit window h r in
      b ∷ promised limit window (record_request b window h r) rs

module _ {F : Type 0} ⦃fl : Float64 F⦄ where
  -- What the store decides about the requests of a key, one after the other.
  unfoldable pub decided : Bytes → ℕ → (window ttl : Duration) → Memory F → List Request → List Bool
  decided key limit window ttl m [] = []
  decided key limit window ttl m (r ∷ rs) =
      let (res, m', clock') =
        allow_sliding_window_counter none key (pos limit) window (pos r.n) ttl (λ _. r.at) m in
      lets_through res ∷ decided key limit window ttl m' rs

  -- The counts of an entry agree with the history, where `w` is its window.
  pub record Starts (limit : ℕ) (w : ℤ) (h : History) (e : MemEntry F) : Type 0 where
    pub num : e.window_num ≡ w
    pub counts : e.count ≡ pos (used w h)
    pub prev_counts : e.prev_count ≡ pos (used (before w) h)
    pub bounded : used w h ≤ limit
    pub prev_bounded : used (before w) h ≤ limit
    pub no_future : (v : ℤ) → w <ℤ v → used v h ≡ 0

  -- So does the entry of a key up to the instant `last`.
  abbrev pub Tracks : ℕ → Duration → Time → History → Option (MemEntry F) → Type 0
  Tracks limit window last h none = (w : ℤ) → used w h ≡ 0
  Tracks limit window last h (some e) =
      Starts limit (current_window_num last window) h e
      × (e.expires_at ≡ add (window_end last window) window)

multiple-le : (k m b : ℕ) → 1 ≤ b → k * b ≤ m → k ≤ m / b
multiple-le k m b h le = grind arith

two_ends :
    (window : Duration) (last t : Time)
    → millisecond ≤ℤ window
    → ltb_ℤ (pos (epoch_nanos + (number last window + 1) * width window * 1_000_000) +ℤ window) t
      ≡ true
    → (number last window + 2) * width window ≤ millis t
unfolding window_ms milliseconds quot ◌+ℤ◌
two_ends (pos w) last (pos y) long h = ground arith
two_ends (pos w) last (negsuc y) long h = ground arith
two_ends (negsuc w) last t long h = ground arith

-- An entry has not expired in its window and in the next one.
skips :
    (window : Duration) (last t : Time)
    → IsWindow window
    → millisecond ≤ℤ window
    → InEra last
    → InEra t
    → after t (add (window_end last window) window) ≡ true
    → current_window_num last window +ℤ pos 2 ≤ℤ current_window_num t window
skips window last t w long el et h =
    let later : ltb_ℤ
          (pos (epoch_nanos + (number last window + 1) * width window * 1_000_000) +ℤ window) t
        ≡ true =
      rw (← window_end-eq last window el w) h in
    let le = two_ends window last t long later in
    rw
      (
        current_window_num-eq last window el w,
        current_window_num-eq t window et w,
        plus_pos (number last window) 2,
      )
      (omega (
        arith,
        multiple-le (number last window + 2) (millis t) (width window) (width_bounds window w).0 le,
      ))

-- The number of a window leaves room for one more in the range of int64.
after_num :
    (last : Time) (window : Duration)
    → InEra last
    → IsWindow window
    → int64 (current_window_num last window +ℤ pos 1) ≡ current_window_num last window +ℤ pos 1
after_num last window el w = rw (current_window_num-eq last window el w) (
    int64-id _ (record {
      above = omega int_laws;
      below = omega (int_laws, number-le (millis last) (width window), millis_bound last el);
    }))

module _ {F : Type 0} ⦃fl : Float64 F⦄ where
  -- The entry of an earlier window, moved to the window `b`.
  moved-Starts :
      (limit : ℕ) (a b : ℤ) (h : History) (e : MemEntry F) (t : Time)
      → a <ℤ b
      → int64 (a +ℤ pos 1) ≡ a +ℤ pos 1
      → Starts limit a h e
      → Starts limit b h (record e {
        prev_count = if eq_ℤ b (int64 (a +ℤ pos 1)) then e.count else pos 0;
        count = pos 0;
        window_num = b;
        last_upd = t;
      })
  moved-Starts limit a b h e t lt in_range k =
      let now_unused : used b h ≡ 0 = k.no_future b lt in
      rw in_range (elim (Bool-cases (eq_ℤ b (a +ℤ pos 1))) [
        | inl next ↦
            let same : a ≡ before b =
              eq_of_parts _ _ (ground (arith, -ℤ_parts b (pos 1), +ℤ_parts a (pos 1))) in
            rw next (record {
              num = refl;
              counts = ap pos (sym now_unused);
              prev_counts = rw (← same) k.counts;
              bounded = omega (arith, now_unused);
              prev_bounded = rw (← same) k.bounded;
              no_future = λ v lt'. k.no_future v (omega arith);
            })
        | inr far ↦
            let prev_unused : used (before b) h ≡ 0 =
              k.no_future (before b)
                (ground (arith, far, -ℤ_parts b (pos 1), +ℤ_parts a (pos 1))) in
            rw far (record {
              num = refl;
              counts = ap pos (sym now_unused);
              prev_counts = ap pos (sym prev_unused);
              bounded = omega (arith, now_unused);
              prev_bounded = omega (arith, prev_unused);
              no_future = λ v lt'. k.no_future v (omega arith);
            })
      ])

  pub entry-Starts :
      (limit : ℕ) (window : Duration) (last t : Time) (h : History) (o : Option (MemEntry F))
      → IsWindow window
      → millisecond ≤ℤ window
      → InEra last
      → InEra t
      → last ≤ℤ t
      → Tracks limit window last h o
      → Starts limit (current_window_num t window) h (counter_entry t window (live t o))
  unfolding counter_entry live
  entry-Starts limit window last t h none w long el et le k = record {
    num = refl;
    counts = ap pos (sym (k _));
    prev_counts = ap pos (sym (k _));
    bounded = omega (arith, k (current_window_num t window));
    prev_bounded = omega (arith, k (before (current_window_num t window)));
    no_future = λ v lt. k v;
  }
  entry-Starts limit window last t h (some e) w long el et le (k, expires) =
      let a = current_window_num last window in
      let b = current_window_num t window in
      let ordered : a ≤ℤ b = current_window_num_mono last t window el et w le in
      elim (Bool-cases (after t e.expires_at)) [
        | inl old ↦
            let apart = skips window last t w long el et (rw (← expires) old) in
            let now_unused : used b h ≡ 0 =
              k.no_future b (omega (arith, apart, +ℤ_parts a (pos 2))) in
            let prev_unused : used (before b) h ≡ 0 =
              k.no_future (before b)
                (omega (arith, apart, -ℤ_parts b (pos 1), +ℤ_parts a (pos 2))) in
            rw old (record {
              num = refl;
              counts = ap pos (sym now_unused);
              prev_counts = ap pos (sym prev_unused);
              bounded = omega (arith, now_unused);
              prev_bounded = omega (arith, prev_unused);
              no_future = λ v lt. k.no_future v (omega (arith, ordered));
            })
        | inr young ↦
            rw (young, k.num)
              (elim (Bool-cases (eq_ℤ a b)) [
                | inl same ↦
                    let ab : a ≡ b = eq_of_parts a b (ground arith) in
                    rw (same, ← ab)
                      (record {
                        num = refl;
                        counts = k.counts;
                        prev_counts = k.prev_counts;
                        bounded = k.bounded;
                        prev_bounded = k.prev_bounded;
                        no_future = k.no_future;
                      })
                | inr other ↦
                    rw other
                      (moved-Starts limit a b h e t (ground arith) (after_num last window el w) k)
              ])
      ]
