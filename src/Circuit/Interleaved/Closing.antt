-- ===== src/Circuit/Interleaved/Closing.antt =====
-- internal/circuit/circuit.go: what goroutines must do to close a breaker, in whatever order they run.
use rateshield.Prelude.{
  ℕ, ◌+◌, ◌≤◌, ℤ, pos, ◌≤ℤ◌, ◌+ℤ◌, ◌≡◌, refl, arith, +ℤ_parts, int64, int64-InInt64, int64-id,
  int64_wraps, max_int64, InInt64, ltb_ℤ, Bool, true, false, List, [], ◌∷◌, All, ◌==◌, Bool-cases,
  inl, inr,
}
use rateshield.Go.Time.{Time}
use rateshield.Circuit.{Breaker, Call, closed, open_, is_state, reset_call}
use rateshield.Circuit.Interleaved.{
  Point, idle, allow_load, allow_now, allow_deadline, allow_swap, allow_zero, allow_again,
  success_load, success_clear, success_add, success_lock, success_check, close_failures,
  close_successes, close_state, failure_load, failure_add, trip_lock, trip_now, trip_deadline,
  trip_failures, trip_successes, trip_state, reset_lock, reset_state, reset_failures,
  reset_successes, reset_deadline, unlock, Shared, advance, Move, begin, go_on, begun, move, moves,
}

-- A goroutine that has counted enough successes, before it closes the breaker.
abbrev has_enough : Point → Bool
has_enough success_lock = true
has_enough success_check = true
has_enough close_failures = true
has_enough close_successes = true
has_enough close_state = true
has_enough _ = false

-- A goroutine inside Reset.
abbrev resets : Point → Bool
resets reset_lock = true
resets reset_state = true
resets reset_failures = true
resets reset_successes = true
resets reset_deadline = true
resets _ = false

-- The successes that an operation counts.
abbrev added : Point → ℕ
added success_add = 1
added _ = 0

-- What holds of one goroutine and the breaker when `k` successes have been counted.
record Local (bound : ℤ) (k : ℕ) (p : Point) (b : Breaker) : Type 0 where
  same : b.success_threshold ≡ bound
  ranged : InInt64 b.success_count
  few : b.success_count ≤ℤ pos k
  reported : has_enough p ≡ true → bound ≤ℤ pos k
  quiet : resets p ≡ false
  closing : is_state b.state closed ≡ true → bound ≤ℤ pos k

-- A count goes up by one at most, also where it wraps around.
next_count :
    (c : ℤ) (k : ℕ)
    → InInt64 c
    → c ≤ℤ pos k
    → InInt64 (int64 (c +ℤ pos 1)) × (int64 (c +ℤ pos 1) ≤ℤ pos (k + 1))
next_count c k range le =
    let sum = +ℤ_parts c (pos 1) in
    elim (Bool-cases (ltb_ℤ c max_int64)) [
      | inl small ↦
          let same : int64 (c +ℤ pos 1) ≡ c +ℤ pos 1 =
            int64-id (c +ℤ pos 1)
              (record { above = ground (arith, sum, range.above); below = ground (arith, sum) }) in
          (int64-InInt64 (c +ℤ pos 1), rw same (omega (arith, sum, le)))
      | inr large ↦
          let wrapped =
            int64_wraps (c +ℤ pos 1) (ground (arith, sum, range.below))
              (ground (arith, sum, range.below)) in
          (int64-InInt64 (c +ℤ pos 1), omega (arith, wrapped))
    ]

advance-Local :
    (bound : ℤ) (k : ℕ) (t : Time) (p : Point) (l : Bool) (b : Breaker)
    → Local bound k p b
    → let (p', l', b') = advance t p l b in Local bound (k + added p) p' b'
unfolding advance
advance-Local bound k t idle l b h = ground arith
advance-Local bound k t allow_load l b h = ground arith
advance-Local bound k t allow_now l b h = ground arith
advance-Local bound k t (allow_deadline now) l b h = ground arith
advance-Local bound k t allow_swap l b h = ground arith
advance-Local bound k t allow_zero l b h = ground arith
advance-Local bound k t allow_again l b h = ground arith
advance-Local bound k t success_load l b h = ground arith
advance-Local bound k t success_clear l b h = ground arith
advance-Local bound k t success_add l b h =
    let next = next_count b.success_count k h.ranged h.few in ground (arith, next)
advance-Local bound k t success_lock l b h = ground arith
advance-Local bound k t success_check l b h = ground arith
advance-Local bound k t close_failures l b h = ground arith
advance-Local bound k t close_successes l b h = ground arith
advance-Local bound k t close_state l b h = ground arith
advance-Local bound k t failure_load l b h = ground arith
advance-Local bound k t failure_add l b h = ground arith
advance-Local bound k t trip_lock l b h = ground arith
advance-Local bound k t trip_now l b h = ground arith
advance-Local bound k t (trip_deadline now) l b h = ground arith
advance-Local bound k t trip_failures l b h = ground arith
advance-Local bound k t trip_successes l b h = ground arith
advance-Local bound k t trip_state l b h = ground arith
advance-Local bound k t reset_lock l b h = ground arith
advance-Local bound k t reset_state l b h = ground arith
advance-Local bound k t reset_failures l b h = ground arith
advance-Local bound k t reset_successes l b h = ground arith
advance-Local bound k t reset_deadline l b h = ground arith
advance-Local bound k t unlock l b h = ground arith

-- What an operation of one goroutine leaves for another one.
Local-other :
    (bound : ℤ) (k k' : ℕ) (p q : Point) (b b' : Breaker)
    → k ≤ k'
    → Local bound k' p b'
    → Local bound k q b
    → Local bound k' q b'
Local-other bound k k' p q b b' le h g = record {
  same = h.same;
  ranged = h.ranged;
  few = h.few;
  reported = λ e. omega (arith, g.reported e);
  quiet = g.quiet;
  closing = h.closing;
}

abbrev pub is_reset : Move → Bool
is_reset (begin i reset_call) = true
is_reset _ = false

begun-Local :
    (bound : ℤ) (k i : ℕ) (c : Call) (p : Point) (b : Breaker)
    → is_reset (begin i c) ≡ false
    → Local bound k p b
    → Local bound k (begun c p) b
begun-Local bound k i c p b h g = ground arith

-- The successes that a move counts, and those of a sequence of moves.
abbrev added_by : Move → Shared → ℕ
added_by (begin i c) s = 0
added_by (go_on i t) s = added (s.points i)

unfoldable pub counted : List Move → Shared → ℕ
counted [] s = 0
counted (m ∷ ms) s = added_by m s + counted ms (move m s)

move-Local :
    (bound : ℤ) (k : ℕ) (m : Move) (s : Shared)
    → is_reset m ≡ false
    → ((i : ℕ) → Local bound k (s.points i) s.breaker)
    → (j : ℕ) → Local bound (k + added_by m s) ((move m s).points j) (move m s).breaker
unfolding move
move-Local bound k (begin i c) s quiet h j =
    let none_added : k + 0 ≡ k = omega arith in
    elim (Bool-cases (i == j)) [
      | inl same ↦
          rw (none_added, same) (begun-Local bound k i c (s.points i) s.breaker quiet (h i))
      | inr other ↦ rw (none_added, other) (h j)
    ]
move-Local bound k (go_on i t) s quiet h j =
    let here = advance-Local bound k t (s.points i) s.locked s.breaker (h i) in
    let (p, l, b) = advance t (s.points i) s.locked s.breaker in
    elim (Bool-cases (i == j)) [
      | inl same ↦ rw same here
      | inr other ↦ rw other (
          Local-other bound k (k + added (s.points i)) p (s.points j) s.breaker b (omega arith) here
            (h j))
    ]

moves-Local :
    (bound : ℤ) (k : ℕ) (ms : List Move) (s : Shared)
    → All (λ (m : Move). is_reset m ≡ false) ms
    → ((i : ℕ) → Local bound k (s.points i) s.breaker)
    → (j : ℕ) → Local bound (k + counted ms s) ((moves ms s).points j) (moves ms s).breaker
unfolding counted moves
moves-Local bound k [] s quiet h j = let none_added : k + 0 ≡ k = omega arith in rw none_added (h j)
moves-Local bound k (m ∷ ms) s (q, quiet) h j =
    let sum : k + (added_by m s + counted ms (move m s))
        ≡ k + added_by m s + counted ms (move m s) =
      omega arith in
    rw sum (moves-Local bound (k + added_by m s) ms (move m s) quiet (move-Local bound k m s q h) j)

-- In whatever order the operations of any number of goroutines run, none of which calls Reset, and
-- whatever the instants are: from an open breaker whose count of successes is zero and which nobody
-- is calling, a closed breaker is reached only after ReportSuccess has counted as many successes as
-- the success threshold.
pub interleaved_closing_needs_successes :
    (ms : List Move) (s : Shared)
    → ((i : ℕ) → s.points i ≡ idle)
    → s.breaker.state ≡ open_
    → s.breaker.success_count ≡ pos 0
    → All (λ (m : Move). is_reset m ≡ false) ms
    → (moves ms s).breaker.state ≡ closed
    → s.breaker.success_threshold ≤ℤ pos (counted ms s)
interleaved_closing_needs_successes ms s nobody opened zero quiet closed_ =
    let bound = s.breaker.success_threshold in
    let start : (i : ℕ) → Local bound 0 (s.points i) s.breaker = λ i. rw (nobody i) (record {
      same = refl;
      ranged = ground (arith, zero);
      few = ground (arith, zero);
      reported = λ e. ground (arith, e);
      quiet = refl;
      closing = λ e. ground (arith, e, opened);
    }) in
    let late = (moves-Local bound 0 ms s quiet start 0).closing (rw closed_ refl) in
    omega (arith, late)
