-- ===== src/Circuit/Invariant.antt =====
-- internal/circuit/circuit.go: what holds of a breaker between two calls.
use rateshield.Prelude.{pos, ◌≤ℤ◌, ◌<ℤ◌, ◌≡◌, arith, InInt64, int64-suc, +ℤ_parts}
use rateshield.Go.Time.{Clock}
use rateshield.Circuit.{
  Config, Breaker, Call, closed, open_, half_open, new, allow, report_success, report_failure,
  reset, step, allow_call, success_call, failure_call, reset_call,
}

-- The counters lie below the thresholds that act on them, and a counter that is not in use is zero.
pub record IsValid (b : Breaker) : Type 0 where
  pub failure_threshold_positive : pos 1 ≤ℤ b.failure_threshold
  pub success_threshold_positive : pos 1 ≤ℤ b.success_threshold
  pub failure_threshold_fits : InInt64 b.failure_threshold
  pub success_threshold_fits : InInt64 b.success_threshold
  pub failures_nonneg : pos 0 ≤ℤ b.failure_count
  pub successes_nonneg : pos 0 ≤ℤ b.success_count
  pub failures_below : b.failure_count <ℤ b.failure_threshold
  pub successes_below : b.success_count <ℤ b.success_threshold
  pub closed_counts_no_success : b.state ≡ closed → b.success_count ≡ pos 0
  pub half_open_counts_no_failure : b.state ≡ half_open → b.failure_count ≡ pos 0
  pub open_counts_nothing : b.state ≡ open_ → (b.failure_count ≡ pos 0) × (b.success_count ≡ pos 0)

-- New makes a valid breaker of any configuration whose numbers are int64 values.
pub new-IsValid :
    (cfg : Config)
    → InInt64 cfg.failure_threshold
    → InInt64 cfg.success_threshold
    → IsValid (new cfg)
unfolding new
new-IsValid cfg f s = ground arith

pub allow-IsValid : (clock : Clock) (b : Breaker) → IsValid b → IsValid (allow clock b).1
unfolding allow
allow-IsValid clock b v = ground arith

pub report_success-IsValid : (b : Breaker) → IsValid b → IsValid (report_success b)
unfolding report_success
report_success-IsValid b v = ground (
  arith,
  +ℤ_parts b.success_count (pos 1),
  int64-suc b.success_count b.success_threshold v.successes_nonneg v.successes_below
      v.success_threshold_fits,
)

pub report_failure-IsValid :
    (clock : Clock) (b : Breaker) → IsValid b → IsValid (report_failure clock b).0
unfolding report_failure
report_failure-IsValid clock b v = ground (
  arith,
  +ℤ_parts b.failure_count (pos 1),
  int64-suc b.failure_count b.failure_threshold v.failures_nonneg v.failures_below
      v.failure_threshold_fits,
)

pub reset-IsValid : (b : Breaker) → IsValid b → IsValid (reset b)
unfolding reset
reset-IsValid b v = ground arith

-- Every method keeps a valid breaker valid, whatever the clock reads.
pub step-IsValid : (c : Call) (clock : Clock) (b : Breaker) → IsValid b → IsValid (step c clock b).0
unfolding step
step-IsValid allow_call clock b v = allow-IsValid clock b v
step-IsValid success_call clock b v = report_success-IsValid b v
step-IsValid failure_call clock b v = report_failure-IsValid clock b v
step-IsValid reset_call clock b v = reset-IsValid b v
