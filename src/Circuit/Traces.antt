-- ===== src/Circuit/Traces.antt =====
-- internal/circuit/circuit.go: what a sequence of calls must hold to move a breaker.
use rateshield.Prelude.{
  ℕ, suc, ◌+◌, ℤ, pos, ◌≤ℤ◌, ◌+ℤ◌, ◌-ℤ◌, ◌≡◌, ◌≢◌, refl, arith, int64-suc, +ℤ_parts, -ℤ_parts, List,
  [], ◌∷◌, All,
}
use rateshield.Go.Time.{Clock}
use rateshield.Circuit.{
  State, Breaker, Call, closed, open_, half_open, allow, report_success, report_failure, reset,
  step, run, allow_call, success_call, failure_call, reset_call,
}
use rateshield.Circuit.Invariant.{IsValid, step-IsValid}

-- The successes, and the failures, among the calls.
abbrev pub successes : List Call → ℕ
successes [] = 0
successes (success_call ∷ cs) = suc (successes cs)
successes (_ ∷ cs) = successes cs

abbrev pub failures : List Call → ℕ
failures [] = 0
failures (failure_call ∷ cs) = suc (failures cs)
failures (_ ∷ cs) = failures cs

abbrev one_if_success : Call → ℕ
one_if_success success_call = 1
one_if_success _ = 0

abbrev one_if_failure : Call → ℕ
one_if_failure failure_call = 1
one_if_failure _ = 0

abbrev successes_missing_in : State → Breaker → ℤ
successes_missing_in closed b = pos 0
successes_missing_in open_ b = b.success_threshold
successes_missing_in half_open b = b.success_threshold -ℤ b.success_count

-- The successes that a breaker waits for before it closes.
successes_missing : Breaker → ℤ
successes_missing b = successes_missing_in b.state b

abbrev failures_missing_in : State → Breaker → ℤ
failures_missing_in closed b = b.failure_threshold -ℤ b.failure_count
failures_missing_in open_ b = pos 0
failures_missing_in half_open b = pos 0

-- The failures that a breaker waits for before it opens, if it is closed.
failures_missing : Breaker → ℤ
failures_missing b = failures_missing_in b.state b

-- One call that is no Reset brings a breaker nearer to closing by one success at most.
step-successes_missing :
    (c : Call) (clock : Clock) (b : Breaker)
    → IsValid b
    → c ≢ reset_call
    → successes_missing b ≤ℤ successes_missing (step c clock b).0 +ℤ pos (one_if_success c)
unfolding step successes_missing allow report_success report_failure
step-successes_missing allow_call clock b v other = grind (arith, +ℤ_parts, -ℤ_parts)
step-successes_missing success_call clock b v other = grind (
  arith,
  +ℤ_parts,
  -ℤ_parts,
  int64-suc b.success_count b.success_threshold v.successes_nonneg v.successes_below
      v.success_threshold_fits,
)
step-successes_missing failure_call clock b v other = grind (arith, +ℤ_parts, -ℤ_parts)
step-successes_missing reset_call clock b v other = absurd (other refl)

run-successes_missing :
    (cs : List Call) (clock : Clock) (b : Breaker)
    → IsValid b
    → All (λ c. c ≢ reset_call) cs
    → successes_missing b ≤ℤ successes_missing (run cs clock b) +ℤ pos (successes cs)
unfolding run
run-successes_missing [] clock b v others = omega (arith, +ℤ_parts (successes_missing b) (pos 0))
run-successes_missing (c ∷ cs) clock b v others =
    let (b', clock') = step c clock b in
    let end = successes_missing (run cs clock' b') in
    omega (
      arith,
      split_count c cs,
      step-successes_missing c clock b v others.0,
      run-successes_missing cs clock' b' (step-IsValid c clock b v) others.1,
      +ℤ_parts (successes_missing b') (pos (one_if_success c)),
      +ℤ_parts end (pos (successes cs)),
      +ℤ_parts end (pos (successes (c ∷ cs))),
    )
  where
    split_count : (c : Call) (cs : List Call) → successes (c ∷ cs) ≡ one_if_success c + successes cs
    split_count success_call cs = omega arith
    split_count _ cs = omega arith

-- A valid open breaker that some calls other than Reset leave closed has met at least as many
-- successes among them as the success threshold.
pub closing_needs_successes :
    (cs : List Call) (clock : Clock) (b : Breaker)
    → IsValid b
    → b.state ≡ open_
    → All (λ c. c ≢ reset_call) cs
    → (run cs clock b).state ≡ closed
    → b.success_threshold ≤ℤ pos (successes cs)
unfolding successes_missing
closing_needs_successes cs clock b v opened others done = ground (
  arith,
  +ℤ_parts (successes_missing (run cs clock b)) (pos (successes cs)),
  run-successes_missing cs clock b v others,
)

-- One call brings a breaker nearer to opening by one failure at most.
step-failures_missing :
    (c : Call) (clock : Clock) (b : Breaker)
    → IsValid b
    → failures_missing b ≤ℤ failures_missing (step c clock b).0 +ℤ pos (one_if_failure c)
unfolding step failures_missing allow report_success report_failure reset
step-failures_missing failure_call clock b v = grind (
  arith,
  +ℤ_parts,
  -ℤ_parts,
  int64-suc b.failure_count b.failure_threshold v.failures_nonneg v.failures_below
      v.failure_threshold_fits,
)
step-failures_missing allow_call clock b v = grind (arith, +ℤ_parts, -ℤ_parts)
step-failures_missing success_call clock b v = grind (arith, +ℤ_parts, -ℤ_parts)
step-failures_missing reset_call clock b v = grind (arith, +ℤ_parts, -ℤ_parts)

run-failures_missing :
    (cs : List Call) (clock : Clock) (b : Breaker)
    → IsValid b
    → failures_missing b ≤ℤ failures_missing (run cs clock b) +ℤ pos (failures cs)
unfolding run
run-failures_missing [] clock b v = omega (arith, +ℤ_parts (failures_missing b) (pos 0))
run-failures_missing (c ∷ cs) clock b v =
    let (b', clock') = step c clock b in
    let end = failures_missing (run cs clock' b') in
    omega (
      arith,
      split_count c cs,
      step-failures_missing c clock b v,
      run-failures_missing cs clock' b' (step-IsValid c clock b v),
      +ℤ_parts (failures_missing b') (pos (one_if_failure c)),
      +ℤ_parts end (pos (failures cs)),
      +ℤ_parts end (pos (failures (c ∷ cs))),
    )
  where
    split_count : (c : Call) (cs : List Call) → failures (c ∷ cs) ≡ one_if_failure c + failures cs
    split_count failure_call cs = omega arith
    split_count _ cs = omega arith

-- A valid closed breaker that some calls leave open has met at least as many failures among them as
-- the failure threshold asks for beyond the failures counted before.
pub opening_needs_failures :
    (cs : List Call) (clock : Clock) (b : Breaker)
    → IsValid b
    → b.state ≡ closed
    → (run cs clock b).state ≡ open_
    → b.failure_threshold ≤ℤ b.failure_count +ℤ pos (failures cs)
unfolding failures_missing
opening_needs_failures cs clock b v shut done = ground (
  arith,
  +ℤ_parts (failures_missing (run cs clock b)) (pos (failures cs)),
  +ℤ_parts b.failure_count (pos (failures cs)),
  -ℤ_parts b.failure_threshold b.failure_count,
  run-failures_missing cs clock b v,
)
