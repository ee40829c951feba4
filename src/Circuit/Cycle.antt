-- ===== src/Circuit/Cycle.antt =====
-- internal/circuit/circuit.go: the cycle of a breaker, from closed over open and half-open back.
use rateshield.Prelude.{
  ℕ, zero, suc, pos, ◌<ℤ◌, ◌≤ℤ◌, ◌+ℤ◌, ◌≡◌, ◌≢◌, refl, arith, InInt64, int64-id, int64-suc,
  +ℤ_parts, leb_ℤ, if◌then◌else◌, replicate, Bool-cases, true, false, inl, inr, ◌∙◌, int_laws,
}
use rateshield.Go.Time.{Clock, now, later, unix_nano}
use rateshield.Circuit.{
  Breaker, closed, open_, half_open, allow, report_success, report_failure, step, trip, run,
  success_call, failure_call,
}
use rateshield.Circuit.Invariant.{IsValid, report_failure-IsValid, report_success-IsValid}

failure_when_open :
    (clock : Clock) (b : Breaker) → b.state ≡ open_ → report_failure clock b ≡ (b, clock)
unfolding report_failure
failure_when_open clock b e = ground arith

run-failure :
    (k : ℕ) (clock : Clock) (b : Breaker)
    → run (replicate (suc k) failure_call) clock b
      ≡ run (replicate k failure_call) (report_failure clock b).1 (report_failure clock b).0
unfolding run step
run-failure k clock b = refl

run-success :
    (k : ℕ) (clock : Clock) (b : Breaker)
    → run (replicate (suc k) success_call) clock b
      ≡ run (replicate k success_call) clock (report_success b)
unfolding run step
run-success k clock b = refl

-- An open breaker stays as it is under failures.
failures_keep_open :
    (k : ℕ) (clock : Clock) (b : Breaker)
    → b.state ≡ open_
    → (run (replicate k failure_call) clock b).state ≡ open_
unfolding run
failures_keep_open zero clock b e = e
failures_keep_open (suc k) clock b e =
    rw (run-failure k clock b, failure_when_open clock b e) (failures_keep_open k clock b e)

-- One failure in the closed state counts, or trips at the threshold.
pub failure_once :
    (clock : Clock) (b : Breaker)
    → IsValid b
    → b.state ≡ closed
    → report_failure clock b ≡ (
        if leb_ℤ b.failure_threshold (b.failure_count +ℤ pos 1)
        then trip clock (record b { failure_count = b.failure_count +ℤ pos 1 })
        else (record b { failure_count = b.failure_count +ℤ pos 1 }, clock))
unfolding report_failure
failure_once clock b v e =
    rw
      (
        e,
        int64-suc b.failure_count b.failure_threshold v.failures_nonneg v.failures_below
            v.failure_threshold_fits,
      )
      refl

-- A valid closed breaker that meets `k` failures in a row is open if these and the failures counted
-- before reach the threshold, and closed if they do not.
pub failures_trip_at_threshold :
    (k : ℕ) (clock : Clock) (b : Breaker)
    → IsValid b
    → b.state ≡ closed
    → (run (replicate k failure_call) clock b).state
      ≡ (if leb_ℤ b.failure_threshold (b.failure_count +ℤ pos k) then open_ else closed)
unfolding run trip
failures_trip_at_threshold zero clock b v e =
    ground (arith, +ℤ_parts b.failure_count (pos 0), v.failures_below)
failures_trip_at_threshold (suc k) clock b v e =
    let c = b.failure_count in
    let sum : c +ℤ pos 1 +ℤ pos k ≡ c +ℤ pos (suc k) = omega int_laws in
    let valid : IsValid (report_failure clock b).0 = report_failure-IsValid clock b v in
    elim (Bool-cases (leb_ℤ b.failure_threshold (c +ℤ pos 1))) [
      | inl trips ↦
          rw (run-failure k clock b, failure_once clock b v e, trips)
            (failures_keep_open k (later clock)
                (trip clock (record b { failure_count = c +ℤ pos 1 })).0 (unfold trip in refl)
              ∙ ground (arith, +ℤ_parts c (pos 1), +ℤ_parts c (pos (suc k))))
      | inr counts ↦
          rw (run-failure k clock b, failure_once clock b v e, counts)
            (failures_trip_at_threshold k clock (record b { failure_count = c +ℤ pos 1 })
                (rw (failure_once clock b v e, counts) at valid) e
              ∙ rw sum)
    ]

-- One success in the half-open state counts, or closes at the threshold.
pub success_once :
    (b : Breaker)
    → IsValid b
    → b.state ≡ half_open
    → report_success b ≡ (
        if leb_ℤ b.success_threshold (b.success_count +ℤ pos 1)
        then record b { failure_count = pos 0; success_count = pos 0; state = closed }
        else record b { success_count = b.success_count +ℤ pos 1 })
unfolding report_success
success_once b v e =
    rw
      (
        e,
        int64-suc b.success_count b.success_threshold v.successes_nonneg v.successes_below
            v.success_threshold_fits,
      )
      refl

-- A closed breaker stays closed under successes.
successes_keep_closed :
    (k : ℕ) (clock : Clock) (b : Breaker)
    → b.state ≡ closed
    → (run (replicate k success_call) clock b).state ≡ closed
unfolding run
successes_keep_closed zero clock b e = e
successes_keep_closed (suc k) clock b e =
    rw (run-success k clock b)
      (successes_keep_closed k clock (report_success b) (unfold report_success in ground arith))

-- A valid half-open breaker that meets `k` successes in a row is closed if these and the successes
-- counted before reach the threshold, and half-open if they do not.
pub successes_close_at_threshold :
    (k : ℕ) (clock : Clock) (b : Breaker)
    → IsValid b
    → b.state ≡ half_open
    → (run (replicate k success_call) clock b).state
      ≡ (if leb_ℤ b.success_threshold (b.success_count +ℤ pos k) then closed else half_open)
unfolding run
successes_close_at_threshold zero clock b v e =
    ground (arith, +ℤ_parts b.success_count (pos 0), v.successes_below)
successes_close_at_threshold (suc k) clock b v e =
    let c = b.success_count in
    let sum : c +ℤ pos 1 +ℤ pos k ≡ c +ℤ pos (suc k) = omega int_laws in
    let valid : IsValid (report_success b) = report_success-IsValid b v in
    elim (Bool-cases (leb_ℤ b.success_threshold (c +ℤ pos 1))) [
      | inl closes ↦
          rw (run-success k clock b, success_once b v e, closes)
            (successes_keep_closed k clock
                (record b { failure_count = pos 0; success_count = pos 0; state = closed }) refl
              ∙ ground (arith, +ℤ_parts c (pos 1), +ℤ_parts c (pos (suc k))))
      | inr counts ↦
          rw (run-success k clock b, success_once b v e, counts)
            (successes_close_at_threshold k clock (record b { success_count = c +ℤ pos 1 })
                (rw (success_once b v e, counts) at valid) e
              ∙ rw sum)
    ]

-- A breaker that a failure has just opened lets the next call through exactly if the clock has
-- reached the reading at the trip plus the cooldown, where that sum is an int64.
pub tripped_refuses_until_cooldown :
    (clock clock' : Clock) (b : Breaker)
    → b.state ≢ open_
    → (report_failure clock b).0.state ≡ open_
    → InInt64 (unix_nano (now clock) +ℤ b.cooldown)
    → (allow clock' (report_failure clock b).0).0
      ≡ leb_ℤ (unix_nano (now clock) +ℤ b.cooldown) (unix_nano (now clock'))
unfolding report_failure allow
tripped_refuses_until_cooldown clock clock' b before_ tripped fits = ground (arith, int64-id _ fits)

-- How Allow answers in the closed state, in the open state before and after the end of the cooldown,
-- and in the half-open state.
pub allow_when_closed :
    (clock : Clock) (b : Breaker) → b.state ≡ closed → allow clock b ≡ (true, b, clock)
unfolding allow
allow_when_closed clock b e = ground arith

pub allow_when_cooling :
    (clock : Clock) (b : Breaker)
    → b.state ≡ open_
    → unix_nano (now clock) <ℤ b.open_until
    → allow clock b ≡ (false, b, later clock)
unfolding allow
allow_when_cooling clock b e early = ground arith

pub allow_when_half_open :
    (clock : Clock) (b : Breaker) → b.state ≡ half_open → allow clock b ≡ (true, b, later clock)
unfolding allow
allow_when_half_open clock b e = ground arith

pub allow_when_cooled :
    (clock : Clock) (b : Breaker)
    → b.state ≡ open_
    → b.open_until ≤ℤ unix_nano (now clock)
    → allow clock b ≡ (true, record b { success_count = pos 0; state = half_open }, later clock)
unfolding allow
allow_when_cooled clock b e late = ground arith
