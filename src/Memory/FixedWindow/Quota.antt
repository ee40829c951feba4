-- ===== src/Memory/FixedWindow/Quota.antt =====
-- store/memory.go: AllowFixedWindow against the quota that it promises, for all requests of a key.
use rateshield.Prelude.{
  ℕ, ◌+◌, ◌≤◌, ◌≡◌, refl, sym, ap, arith, ℤ, pos, ◌+ℤ◌, ◌≤ℤ◌, ◌<ℤ◌, eq_ℤ, eq_of_parts, +ℤ_parts,
  int64, sum_fits, Bool, false, Option, none, some, List, [], ◌∷◌, Bytes, leb, if◌then◌else◌,
  Bool-cases, inl, inr,
}
use rateshield.Go.Time.{Time, Duration, after, add}
use rateshield.Go.Float.{Float64}
use rateshield.Memory.{Memory, MemEntry}
use rateshield.Memory.Window.{current_window_num, window_end, live}
use rateshield.Memory.Window.Order.{
  InEra, IsWindow, lt-window_end, current_window_num_mono, window_end_of_num,
}
use rateshield.Memory.Requests.{Request, lets_through}
use rateshield.Memory.FixedWindow.{fixed_window_entry, eval_fixed_window, allow_fixed_window}

-- The units admitted so far, each with the number of its window.
abbrev pub History : Type 0
History = List (ℤ × ℕ)

-- The units admitted in one window.
abbrev pub used : ℤ → History → ℕ
used w [] = 0
used w ((v, n) ∷ h) = (if eq_ℤ v w then n else 0) + used w h

-- The promise: a request passes if and only if its window has room for it.
abbrev pub has_room : ℕ → Duration → History → Request → Bool
has_room limit window h r = leb (used (current_window_num r.at window) h + r.n) limit

abbrev pub record_request : Bool → Duration → History → Request → History
record_request admitted window h r =
    if admitted then (current_window_num r.at window, r.n) ∷ h else h

unfoldable pub promised : ℕ → Duration → History → List Request → List Bool
promised limit window h [] = []
promised limit window h (r ∷ rs) =
    let b = has_room limit window h r in b ∷ promised limit window (record_request b window h r) rs

-- An entry of the window of `t` has not expired at `t`.
not_expired :
    (window : Duration) (last t : Time)
    → IsWindow window
    → InEra t
    → current_window_num last window ≡ current_window_num t window
    → after t (add (window_end last window) window) ≡ false
not_expired window last t w et same =
    rw (window_end_of_num last t window same) (
      ground
        (arith, +ℤ_parts (window_end t window) window, lt-window_end t window et w, w.positive))

module _ {F : Type 0} ⦃fl : Float64 F⦄ where
  -- What the store decides about the requests of a key, one after the other.
  unfoldable pub decided : Bytes → ℕ → (window ttl : Duration) → Memory F → List Request → List Bool
  decided key limit window ttl m [] = []
  decided key limit window ttl m (r ∷ rs) =
      let (res, m', clock') =
        allow_fixed_window none key (pos limit) window (pos r.n) ttl (λ _. r.at) m in
      lets_through res ∷ decided key limit window ttl m' rs

  -- The entry of a key agrees with the history up to the instant `last`.
  pub record EntryTracks (limit : ℕ) (window : Duration) (last : Time) (h : History)
      (e : MemEntry F) : Type 0 where
    pub num : e.window_num ≡ current_window_num last window
    pub counts : e.count ≡ pos (used (current_window_num last window) h)
    pub bounded : used (current_window_num last window) h ≤ limit
    pub no_future : (w : ℤ) → current_window_num last window <ℤ w → used w h ≡ 0
    pub expires : e.expires_at ≡ add (window_end last window) window

  abbrev pub Tracks : ℕ → Duration → Time → History → Option (MemEntry F) → Type 0
  Tracks limit window last h none = (w : ℤ) → used w h ≡ 0
  Tracks limit window last h (some e) = EntryTracks limit window last h e

  -- What the evaluation starts from at `t`.
  pub record Starts (limit : ℕ) (window : Duration) (t : Time) (h : History) (e : MemEntry F)
      : Type 0 where
    pub num : e.window_num ≡ current_window_num t window
    pub counts : e.count ≡ pos (used (current_window_num t window) h)
    pub bounded : used (current_window_num t window) h ≤ limit
    pub no_future : (w : ℤ) → current_window_num t window <ℤ w → used w h ≡ 0

  pub entry-Starts :
      (limit : ℕ) (window : Duration) (last t : Time) (h : History) (o : Option (MemEntry F))
      → IsWindow window
      → InEra last
      → InEra t
      → last ≤ℤ t
      → Tracks limit window last h o
      → Starts limit window t h (fixed_window_entry t window (live t o))
  unfolding fixed_window_entry live
  entry-Starts limit window last t h none w el et le k = record {
    num = refl;
    counts = ap pos (sym (k _));
    bounded = omega (arith, k (current_window_num t window));
    no_future = λ v lt. k v;
  }
  entry-Starts limit window last t h (some e) w el et le k =
      let a = current_window_num last window in
      let b = current_window_num t window in
      let ordered : a ≤ℤ b = current_window_num_mono last t window el et w le in
      elim (Bool-cases (eq_ℤ a b)) [
        | inl same ↦
            let ab : a ≡ b = eq_of_parts a b (ground arith) in
            let young : after t e.expires_at ≡ false =
              rw k.expires (not_expired window last t w et ab) in
            rw young (record {
              num = ground (arith, k.num);
              counts = ground (arith, k.num, k.counts);
              bounded = ground (arith, k.bounded);
              no_future = λ v lt. k.no_future v (ground arith);
            })
        | inr other ↦
            let none_used : used b h ≡ 0 = k.no_future b (ground arith) in
            record {
              num = ground (arith, k.num);
              counts = ground (arith, k.num, none_used);
              bounded = omega (arith, none_used);
              no_future = λ v lt. k.no_future v (ground arith);
            }
      ]

  pub eval-Tracks :
      (limit : ℕ) (window : Duration) (t : Time) (n : ℕ) (h : History) (o : Option (MemEntry F))
      → limit + n ≤ 9223372036854775807
      → Starts limit window t h (fixed_window_entry t window (live t o))
      → let r : Request = record { at = t; n = n } in
        let (res, e) = eval_fixed_window (pos limit) window (pos n) t o in
        (res.allowed ≡ has_room limit window h r)
        × EntryTracks limit window t (record_request (has_room limit window h r) window h r) e
  unfolding eval_fixed_window
  eval-Tracks limit window t n h o fits s =
      let b = current_window_num t window in
      let e = fixed_window_entry t window (live t o) in
      let sum : int64 (e.count +ℤ pos n) ≡ pos (used b h + n) =
        rw s.counts (sum_fits limit (used b h) n s.bounded fits) in
      (
        ground (arith, sum),
        record {
          num = ground (arith, s.num);
          counts = ground (arith, sum, s.counts);
          bounded = ground (arith, s.bounded);
          no_future = λ v lt. ground (arith, s.no_future v lt);
          expires = ground arith;
        },
      )
