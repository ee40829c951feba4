-- ===== src/Tests/Breakers.antt =====
-- The circuit breaker at concrete inputs: three failures trip, two successes close.
use rateshield.Prelude.{
  ℕ, int64, ◌-ℤ◌, pos, ◌+ℤ◌, ◌≡◌, ◌≤ℤ◌, arith, refl, true, false, replicate, List, All, map, ◌++◌,
  [], ◌∷◌,
}
use rateshield.Go.Time.{Clock, unix_epoch, unix_nano, second}
use rateshield.Circuit.{
  Breaker, closed, open_, half_open, allow, report_failure, step, run, allow_call, success_call,
  failure_call, reset_call,
}
use rateshield.Circuit.Invariant.{IsValid, step-IsValid}
use rateshield.Circuit.Cycle.{
  failures_trip_at_threshold, successes_close_at_threshold, tripped_refuses_until_cooldown,
}
use rateshield.Circuit.Traces.{opening_needs_failures}
use rateshield.Circuit.Interleaved.{Shared, Move, begin, go_on, idle, moves}
use rateshield.Circuit.Interleaved.Closing.{is_reset, counted, interleaved_closing_needs_successes}
use rateshield.Circuit.Interleaved.Mutex.{holds, mutex_is_exclusive}
use rateshield.Circuit.Interleaved.Mutex.Release.{taken_mutex_is_released}

abbrev breaker : Breaker
breaker = record {
  state = closed;
  failure_count = pos 0;
  success_count = pos 0;
  open_until = pos 0;
  failure_threshold = pos 3;
  success_threshold = pos 2;
  cooldown = second;
}

-- a breaker that waits for its two successes, and one that waits for its cooldown
abbrev probing : Breaker
probing = record breaker { state = half_open }

abbrev cooling : Breaker
cooling = record breaker { state = open_; open_until = pos 1 }

-- the start of 1970, and one second later
abbrev early : Clock
early = λ i. unix_epoch

abbrev late : Clock
late = λ i. unix_epoch +ℤ second

breaker-IsValid : IsValid breaker
breaker-IsValid = ground arith

probing-IsValid : IsValid probing
probing-IsValid = ground arith

cooling-IsValid : IsValid cooling
cooling-IsValid = ground arith

step-IsValid_example : IsValid (step failure_call early breaker).0
step-IsValid_example = step-IsValid failure_call early breaker breaker-IsValid

failures_trip_at_threshold_example : (run (replicate 3 failure_call) early breaker).state ≡ open_
unfolding ◌+ℤ◌
failures_trip_at_threshold_example = failures_trip_at_threshold 3 early breaker breaker-IsValid refl

successes_close_at_threshold_example : (run (replicate 2 success_call) early probing).state ≡ closed
unfolding ◌+ℤ◌
successes_close_at_threshold_example =
    successes_close_at_threshold 2 early probing probing-IsValid refl

tripped_refuses_until_cooldown_example : (allow early (report_failure early probing).0).0 ≡ false
unfolding report_failure unix_nano int64 ◌+ℤ◌ ◌-ℤ◌
tripped_refuses_until_cooldown_example =
    tripped_refuses_until_cooldown early early probing (ground arith) refl (ground arith)

-- Two goroutines: one probes, then both report a success in turns, and the second one closes.
abbrev shared : Shared
shared = record { breaker = cooling; locked = false; points = λ i. idle }

abbrev turns : List Move
turns =
    begin 0 allow_call ∷ map (λ i. go_on i (pos 62135596801000000000)) (0 ∷ 0 ∷ 0 ∷ 0 ∷ 0 ∷ [])
    ++ begin 0 success_call
      ∷ begin 1 success_call
      ∷ map (λ i. go_on i (pos 62135596801000000000)) (0 ∷ 1 ∷ 0 ∷ 1 ∷ 1 ∷ 1 ∷ 1 ∷ 1 ∷ 1 ∷ 1 ∷ [])

turns_quiet : All (λ (m : Move). is_reset m ≡ false) turns
turns_quiet = ground arith

turns_close : (moves turns shared).breaker.state ≡ closed
unfolding moves unix_nano int64 ◌-ℤ◌ ◌+ℤ◌
turns_close = refl

interleaved_closing_needs_successes_example :
    cooling.success_threshold ≤ℤ pos (counted turns shared)
interleaved_closing_needs_successes_example =
    interleaved_closing_needs_successes turns shared (λ i. refl) refl refl turns_quiet turns_close

-- Two goroutines reset the breaker: the first one has the mutex, and the second one waits for it.
abbrev resets : List Move
resets =
    begin 0 reset_call
    ∷ begin 1 reset_call
    ∷ map (λ i. go_on i (pos 62135596801000000000)) (0 ∷ 1 ∷ 0 ∷ [])

first_holds : holds ((moves resets shared).points 0) ≡ true
unfolding moves
first_holds = refl

resets_lock : (moves resets shared).locked ≡ true
unfolding moves
resets_lock = refl

mutex_is_exclusive_example :
    ((moves resets shared).locked ≡ true) × (holds ((moves resets shared).points 1) ≡ false)
mutex_is_exclusive_example =
    mutex_is_exclusive resets shared 0 1 (λ i. refl) refl first_holds (λ e. absurd (omega arith))

taken_mutex_is_released_example :
    (i : ℕ) × (holds ((moves resets shared).points i) ≡ true)
    × ((moves (replicate 6 (go_on i unix_epoch)) (moves resets shared)).locked ≡ false)
taken_mutex_is_released_example =
    taken_mutex_is_released resets shared unix_epoch (λ i. refl) refl resets_lock

opening_needs_failures_example : breaker.failure_threshold ≤ℤ breaker.failure_count +ℤ pos 3
unfolding run step report_failure int64 ◌+ℤ◌
opening_needs_failures_example =
    opening_needs_failures (failure_call ∷ failure_call ∷ failure_call ∷ []) early breaker
      breaker-IsValid refl refl
