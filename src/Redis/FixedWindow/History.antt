-- ===== src/Redis/FixedWindow/History.antt =====
-- store/redis.go: runs of fwScript against the history of a fixed window.
use rateshield.Prelude.{
  ℕ, ap, pos_part, ◌+◌, ◌*◌, ◌/◌, ◌≤◌, ◌≡◌, ◌≢◌, arith, ℤ, pos, ◌+ℤ◌, ◌*ℤ◌, ◌≤ℤ◌, ◌<ℤ◌, +ℤ_parts,
  times_pos, floor_div, Bool, ◌∷◌, Bytes, leb, ◌==◌, if◌then◌else◌, Bool-cases, inl, inr,
}
use rateshield.Go.{Outcome, ok}
use rateshield.Go.Text.{bytes}
use rateshield.Memory.FixedWindow.Quota.{History, used}
use rateshield.Memory.Window.Order.{next_multiple, number-le}
use rateshield.Redis.Commands.{Commands, IsRedis}
use rateshield.Redis.Scripts.{Reply, flag, fw_run, window_key}
use rateshield.Redis.FixedWindow.Step.{TracksStored, in_range}
use rateshield.Redis.FixedWindow.Counted.{Decides, counted-Decides}
use rateshield.Redis.FixedWindow.Keys.{window_keys_differ}

-- The instant, in milliseconds, up to which the counter of a window must be kept: `skew` after its end.
abbrev pub keep_until : (b skew i : ℕ) → ℤ
keep_until b skew i = pos ((i + 1) * b + skew)

-- A clock of the server that is within `skew` of the caller's.
pub record IsNear (skew a : ℕ) (t : ℤ) : Type 0 where
  pub late : pos a ≤ℤ t +ℤ pos skew
  pub early : t ≤ℤ pos (a + skew)

-- Half a window of skew leaves the current counter alive, and the deadline of a new one late enough.
current_window :
    (a b skew : ℕ) (t : ℤ)
    → 1 ≤ b
    → 2 * skew ≤ b
    → IsNear skew a t
    → (t <ℤ keep_until b skew (a / b)) × (keep_until b skew (a / b) ≤ℤ t +ℤ pos (b * 2))
current_window a b skew t wide half near =
    let (inside, close) = next_multiple a b wide in
    let late = near.late in
    let early = near.early in
    (
      omega (arith, inside, early),
      omega (arith, close, late, +ℤ_parts t (pos skew), +ℤ_parts t (pos (b * 2))),
    )

module _ {F : Type 0} (c : Commands F) (redis : IsRedis c) (key : Bytes) (limit b skew : ℕ) where
  open redis use {read}

  abbrev pub counter : ℕ → Bytes
  counter i = window_key key (bytes ":fw:") (pos i)

  -- The server has for every window what the history has admitted in it.
  abbrev pub TracksHistory : History → c.D → Type 0
  TracksHistory h d =
      (i : ℕ)
      → i ≤ 9223372036854775807
      → TracksStored limit (keep_until b skew i) (used (pos i) h) (read (counter i) d)

  -- Whether a window has room for `n` units, and the history after it is asked.
  abbrev pub fits_in : (i n : ℕ) → History → Bool
  fits_in i n h = leb (used (pos i) h + n) limit

  abbrev pub counted_in : (i n : ℕ) → History → History
  counted_in i n h = if fits_in i n h then (pos i, n) ∷ h else h

  used_self :
      (i n : ℕ) (h : History)
      → used (pos i) (counted_in i n h)
        ≡ (if fits_in i n h then used (pos i) h + n else used (pos i) h)
  used_self i n h = ground arith

  used_other : (i j n : ℕ) (h : History) → i ≢ j → used (pos j) (counted_in i n h) ≡ used (pos j) h
  used_other i j n h ne = ground arith

  Decides-TracksHistory :
      (i n : ℕ) (h : History) (d : c.D) (run : Outcome Reply × c.D)
      → i ≤ 9223372036854775807
      → TracksHistory h d
      → Decides c redis (counter i) limit (keep_until b skew i) (used (pos i) h) n d run
      → TracksHistory (counted_in i n h) run.1
  Decides-TracksHistory i n h d run bound tracks decides j bound' = elim (Bool-cases (i == j)) [
    | inl same ↦ let e : i ≡ j = ground arith in rw (← e, used_self i n h) decides.tracks
    | inr other ↦
        let ne : i ≢ j = ground arith in
        let kept = decides.others (counter j) (
          window_keys_differ key (bytes ":fw:") (pos i) (pos j) (in_range i bound)
            (in_range j bound') (λ e. ne (ap pos_part e))) in
        rw (kept, used_other i j n h ne) (tracks j bound')
  ]

  -- A run, by a caller whose clock shows `a`, of a request for `n` units.
  pub fw_run-TracksHistory :
      (a n : ℕ) (h : History) (d : c.D) (t : ℤ)
      → 1 ≤ b
      → 2 * skew ≤ b
      → a ≤ 9223372036854775807
      → limit + n ≤ 9223372036854775807
      → IsNear skew a t
      → TracksHistory h d
      → let i = a / b in
        let (reply, d') = fw_run c t key (pos limit) (pos b) (pos a) (pos n) d in
        ((r : Reply) × (reply ≡ ok r) × (r.allowed ≡ flag (fits_in i n h)))
        × TracksHistory (counted_in i n h) d'
  unfolding fw_run floor_div
  fw_run-TracksHistory a n h d t wide half late fits near tracks =
      let i = a / b in
      let bound : i ≤ 9223372036854775807 = omega (arith, number-le a b) in
      let (before, long) = current_window a b skew t wide half near in
      let run = fw_run c t key (pos limit) (pos b) (pos a) (pos n) d in
      let twice : pos b *ℤ pos 2 ≡ pos (b * 2) = times_pos b 2 in
      let decides : Decides c redis (counter i) limit (keep_until b skew i) (used (pos i) h) n d
          run =
        counted-Decides c redis (counter i) limit (used (pos i) h) n (keep_until b skew i) t
          (pos (b * 2)) d (tracks i bound) fits before long (omega arith) (pos b)
          ((pos i +ℤ pos 1) *ℤ pos b) (pos a) twice in
      (
        (decides.reply, decides.returns, decides.allowed),
        Decides-TracksHistory i n h d run bound tracks decides,
      )
