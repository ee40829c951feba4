-- ===== src/Redis/SlidingCounter/Step.antt =====
-- store/redis.go: one run of swcScript against the history of a key. The server's clock is the
-- caller's here: a counter is read up to the very end of the window after its own, where it expires.
use rateshield.Prelude.{
  ℕ, ◌+◌, ◌*◌, ◌/◌, ◌≤◌, ◌≡◌, ◌≢◌, refl, sym, ap, arith, ℤ, pos, ◌+ℤ◌, ◌*ℤ◌, ◌≤ℤ◌, ◌<ℤ◌, +ℤ_parts,
  -ℤ_parts, eq_of_parts, int_laws, plus_pos, times_pos, eq_ℤ, leb_ℤ, floor_div, Bool, true, false,
  ◌∷◌, Bytes, if◌then◌else◌, Bool-cases, inl, inr, InInt64, none, some,
}
use mathlib.Core.Path.{subst}
use rateshield.Go.{ok}
use rateshield.Go.Float.{Float64}
use rateshield.Go.Text.{bytes}
use rateshield.Memory.FixedWindow.Quota.{History, used}
use rateshield.Memory.SlidingCounter.Promise.{before}
use rateshield.Memory.Window.Order.{next_multiple, number-le}
use rateshield.Redis.Commands.{
  Commands, IsRedis, Stored, number, live_at, value_of, number_in, is_number,
}
use rateshield.Redis.Scripts.{Reply, flag, after-ok, expire, pure}
use rateshield.Redis.Scripts.Counter.{
  counter_key, estimated, or_zero, count_under, count_units, swc_run,
}
use rateshield.Redis.FixedWindow.Step.{
  in_range, TracksStored, live-TracksStored, value-TracksStored, Holds, Holds-self,
}
use rateshield.Redis.FixedWindow.Counted.{counted, expiring-Holds}
use rateshield.Redis.FixedWindow.Keys.{window_keys_differ}

-- The instant, in milliseconds, up to which the counter of a window must be kept.
abbrev pub keep_until : ℕ → ℤ → ℤ
keep_until b i = (i +ℤ pos 2) *ℤ pos b

-- At `a`, both counters are alive, and a new one is kept for long enough.
pub counters_alive :
    (a b : ℕ) (t : ℤ)
    → 1 ≤ b
    → t ≡ pos a
    → (t <ℤ keep_until b (pos (a / b)))
      × (t <ℤ keep_until b (before (pos (a / b))))
      × (keep_until b (pos (a / b)) ≤ℤ t +ℤ pos (b * 2))
counters_alive a b t wide e =
    let (inside, close) = next_multiple a b wide in
    let i = a / b in
    let back : before (pos i) +ℤ pos 2 ≡ pos (i + 1) = eq_of_parts _ _ (omega int_laws) in
    rw (e, back, plus_pos i 2, times_pos (i + 2) b, times_pos (i + 1) b, plus_pos a (b * 2))
      (omega (arith, inside), omega (arith, inside), omega (arith, close))

module _ {F : Type 0} (limit : ℕ) (keep : ℤ) where
  found_number :
      (u : ℕ) (o : Stored F) → TracksStored limit keep u o → or_zero (number_in o) ≡ pos u
  found_number u none h = rw h refl
  found_number u (some (number v, some deadline)) h = h.0
  found_number u _ h = absurd h

  -- What a script reads of a counter is within the limit.
  pub live-le :
      (u : ℕ) (t : ℤ) (o : Stored F)
      → TracksStored limit keep u o
      → t <ℤ keep
      → value_of (live_at t o) ≤ℤ pos limit
  live-le u t o tracks lt =
      let (live, kind) = live-TracksStored limit keep u t o tracks lt in
      let (value, le) = value-TracksStored limit keep u o tracks in rw (live, value) (omega arith)

module _ {F : Type 0} ⦃fl : Float64 F⦄ (c : Commands F) (redis : IsRedis c) where
  open redis use {read, get-ok, read-get}

  count_under-ok :
      (t : ℤ) (k : Bytes) (limit u : ℕ) (keep : ℤ) (d : c.D)
      → TracksStored limit keep u (read k d)
      → t <ℤ keep
      → let run = count_under c t k d in
        (run.0 ≡ ok (pos u)) × ((j : Bytes) → read j run.1 ≡ read j d)
  unfolding count_under
  count_under-ok t k limit u keep d tracks lt =
      let (live, kind) = live-TracksStored limit keep u t (read k d) tracks lt in
      let kind' : is_number (live_at t (read k d)) ≡ true = rw live kind in
      let found = get-ok t k d kind' in
      rw (after-ok _ (c.get t k d) _ found, live, found_number limit keep u (read k d) tracks)
        (refl, λ j. read-get t k d j)

  module _ (k : Bytes) (limit u n b : ℕ) (keep t : ℤ) (d : c.D)
      (tracks : TracksStored limit keep u (read k d)) (fits : limit + n ≤ 9223372036854775807)
      (lt : t <ℤ keep) (long : keep ≤ℤ t +ℤ pos (b * 2)) (wide : pos 1 ≤ℤ pos (b * 2)) where
    count_units-Holds :
        let run = count_units c t k (pos b) (pos n) d in
        (run.0 ≡ ok tt)
        × (x : ℤ) × (keep ≤ℤ x)
        × Holds c redis k d (number (pos (u + n))) (some x) run.1
    unfolding count_units
    count_units-Holds =
        let (value, first) =
          counted c redis k limit u n keep t (pos (b * 2)) d tracks fits lt long wide in
        let kept =
          expiring-Holds c redis k limit u n keep t (pos (b * 2)) d tracks fits lt long wide in
        rw (after-ok _ (c.incr_by t k (pos n) d) _ value, times_pos b 2)
          (expired (eq_ℤ (pos (u + n)) (pos n)) kept)
      where
        -- whether the counter is new or not
        expired :
            (new : Bool)
            → let d' = (c.incr_by t k (pos n) d).1 in
              (x : ℤ) × (keep ≤ℤ x)
                × Holds c redis k d
                    (number (pos (u + n)))
                    (some x)
                    (if new then c.pexpire t k (pos (b * 2)) d' else d')
              → let run = (if new then expire c t k (pos (b * 2)) else pure tt) d' in
                (run.0 ≡ ok (tt {0}))
                × (x : ℤ) × (keep ≤ℤ x)
                × Holds c redis k d (number (pos (u + n))) (some x) run.1
        expired true (x, le, h) = (refl, x, le, h)
        expired false (x, le, h) = (refl, x, le, h)

module _ {F : Type 0} ⦃fl : Float64 F⦄ (c : Commands F) (redis : IsRedis c) (key : Bytes)
    (limit b : ℕ) where
  open redis use {read}

  abbrev pub counter : ℤ → Bytes
  counter i = counter_key key i

  -- The server has for every window what the history has admitted in it.
  abbrev pub TracksHistory : History → c.D → Type 0
  TracksHistory h d =
      (i : ℤ) → InInt64 i → TracksStored limit (keep_until b i) (used i h) (read (counter i) d)

  reads-TracksHistory :
      (h : History) (d d' : c.D)
      → ((j : Bytes) → read j d' ≡ read j d)
      → TracksHistory h d
      → TracksHistory h d'
  reads-TracksHistory h d d' same tracks i fits = rw (same (counter i)) (tracks i fits)

  -- A window whose counter takes `n` more units.
  Holds-TracksHistory :
      (i : ℤ) (n : ℕ) (x : ℤ) (h : History) (d d' : c.D)
      → InInt64 i
      → used i h + n ≤ limit
      → keep_until b i ≤ℤ x
      → TracksHistory h d
      → Holds c redis (counter i) d (number (pos (used i h + n))) (some x) d'
      → TracksHistory ((i, n) ∷ h) d'
  Holds-TracksHistory i n x h d d' range room later tracks holds j range' =
      elim (Bool-cases (eq_ℤ i j)) [
        | inl same ↦
            let e : i ≡ j = eq_of_parts i j (ground arith) in
            let self =
              Holds-self c redis (counter i) d (number (pos (used i h + n))) (some x) d' holds in
            let grown : used i ((i, n) ∷ h) ≡ used i h + n = ground arith in
            let here : TracksStored limit (keep_until b i) (used i ((i, n) ∷ h))
                (read (counter i) d') =
              rw self (ap pos (sym grown), omega (arith, grown), later) in
            subst
              (λ k. TracksStored limit (keep_until b k) (used k ((i, n) ∷ h)) (read (counter k) d'))
              e here
        | inr other ↦
            let ne : i ≢ j = λ e. absurd (ground (arith, other, e)) in
            let apart = window_keys_differ key (bytes ":swc:") i j range range' ne in
            let kept : used j ((i, n) ∷ h) ≡ used j h = ground (arith, other) in
            rw (holds (counter j), apart, kept) (tracks j range')
      ]

  -- A run, by a caller whose clock shows `a`, of a request for `n` units.
  pub swc_run-TracksHistory :
      (a n : ℕ) (guess : ℤ) (h : History) (d : c.D) (t : ℤ)
      → 1 ≤ b
      → a ≤ 9223372036854775806
      → limit + n ≤ 9223372036854775807
      → t ≡ pos a
      → TracksHistory h d
      → let i = pos (a / b) in
        let room = leb_ℤ (guess +ℤ pos n) (pos limit) in
        let (reply, d') = swc_run c t key (pos limit) (pos b) (pos a) (pos n) d in
        (estimated F (pos b) (pos a) (pos (used (before i) h)) (pos (used i h)) ≡ guess)
        → pos (used i h) ≤ℤ guess
        → ((r : Reply) × (reply ≡ ok r) × (r.allowed ≡ flag room))
          × TracksHistory (if room then (i, n) ∷ h else h) d'
  unfolding swc_run floor_div
  swc_run-TracksHistory a n guess h d t wide late fits e tracks is_guess low =
      let i = pos (a / b) in
      let (alive, alive', long) = counters_alive a b t wide e in
      let range : InInt64 i = in_range (a / b) (omega (arith, number-le a b)) in
      let range' : InInt64 (before i) = record {
        above = omega (arith, -ℤ_parts i (pos 1));
        below = omega (arith, number-le a b, -ℤ_parts i (pos 1));
      } in
      let (curr, same) =
        count_under-ok c redis t (counter i) limit (used i h) (keep_until b i) d (tracks i range)
          alive in
      let d1 = (count_under c t (counter i) d).1 in
      let tracks1 = reads-TracksHistory h d d1 same tracks in
      let (prev, same') =
        count_under-ok c redis t (counter (before i)) limit (used (before i) h)
          (keep_until b (before i)) d1 (tracks1 (before i) range') alive' in
      let d2 = (count_under c t (counter (before i)) d1).1 in
      let tracks2 = reads-TracksHistory h d1 d2 same' tracks1 in
      let (done, x, later, holds) =
        count_units-Holds c redis (counter i) limit (used i h) n b (keep_until b i) t d2
          (tracks2 i range) fits alive long (omega arith) in
      elim (Bool-cases (leb_ℤ (guess +ℤ pos n) (pos limit))) [
        | inl room ↦
            let fits : used i h + n ≤ limit = ground (arith, room, low, +ℤ_parts guess (pos n)) in
            rw
              (
                after-ok _ (count_under c t (counter i) d) _ curr,
                after-ok _ (count_under c t (counter (before i)) d1) _ prev,
                is_guess,
                room,
                after-ok _ (count_units c t (counter i) (pos b) (pos n) d2) tt done,
              )
              ((_, refl, refl), Holds-TracksHistory i n x h d2 _ range fits later tracks2 holds)
        | inr full ↦
            rw
              (
                after-ok _ (count_under c t (counter i) d) _ curr,
                after-ok _ (count_under c t (counter (before i)) d1) _ prev,
                is_guess,
                full,
              )
              ((_, refl, refl), tracks2)
      ]
