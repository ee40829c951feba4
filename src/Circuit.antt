-- ===== src/Circuit.antt =====
-- internal/circuit/circuit.go: the circuit breaker. A method that changes the `*Breaker` returns the
-- new record. Each method runs here with no step of another goroutine in between, which
-- Circuit/Interleaved.antt takes up; the compare-and-swap of Allow is written out.
use rateshield.Prelude.{
  ℤ, pos, ◌+ℤ◌, ◌*ℤ◌, leb_ℤ, ltb_ℤ, Bool, true, false, List, [], ◌∷◌, if◌then◌else◌, int64, refl,
}
use rateshield.Go.Time.{Clock, now, later, unix_nano, second, Duration}
pub mod Invariant
pub mod Cycle
pub mod Traces
pub mod Interleaved

pub data State : Type 0 where
  closed open_ half_open : State

-- `st == s`
abbrev pub is_state : State → State → Bool
is_state closed closed = true
is_state open_ open_ = true
is_state half_open half_open = true
is_state _ _ = false

pub record Breaker : Type 0 where
  pub state : State
  pub failure_count : ℤ
  pub success_count : ℤ
  pub open_until : ℤ  -- Unix time in nanoseconds
  pub failure_threshold : ℤ
  pub success_threshold : ℤ
  pub cooldown : Duration

pub record Config : Type 0 where
  pub failure_threshold : ℤ
  pub success_threshold : ℤ
  pub cooldown : Duration

-- `if x <= 0 { x = d }`
abbrev or_default : ℤ → ℤ → ℤ
or_default x d = if leb_ℤ x (pos 0) then d else x

unfoldable pub new : Config → Breaker
new cfg = record {
  state = closed;
  failure_count = pos 0;
  success_count = pos 0;
  open_until = pos 0;
  failure_threshold = or_default cfg.failure_threshold (pos 5);
  success_threshold = or_default cfg.success_threshold (pos 2);
  cooldown = or_default cfg.cooldown (pos 5_000_000_000);
}

-- atomic.CompareAndSwapInt32 on the state
unfoldable pub compare_and_swap : State → State → Breaker → Bool × Breaker
compare_and_swap old to b =
    if is_state b.state old then (true, record b { state = to }) else (false, b)

allow_open : Clock → Breaker → Bool × Breaker
unfolding compare_and_swap
allow_open clock b =
    if ltb_ℤ (unix_nano (now clock)) b.open_until
    then (false, b)
    else (let (swapped, b') = compare_and_swap open_ half_open b in
        if swapped
        then (true, record b' { success_count = pos 0 })
        else (is_state b'.state half_open, b'))

allow_in : State → Clock → Breaker → Bool × Breaker × Clock
unfolding allow_open
allow_in closed clock b = (true, b, clock)
allow_in open_ clock b = let (ok, b') = allow_open clock b in (ok, b', later clock)
allow_in half_open clock b = (true, b, later clock)

-- Allow: whether the primary store should be attempted.
unfoldable pub allow : Clock → Breaker → Bool × Breaker × Clock
unfolding allow_in
allow clock b = allow_in b.state clock b

unfoldable pub trip : Clock → Breaker → Breaker × Clock
trip clock b = (
  record b {
    open_until = int64 (unix_nano (now clock) +ℤ b.cooldown);
    failure_count = pos 0;
    success_count = pos 0;
    state = open_;
  },
  later clock,
)

success_in : State → Breaker → Breaker
success_in closed b = record b { failure_count = pos 0 }
success_in open_ b = b
success_in half_open b =
    let b' = record b { success_count = int64 (b.success_count +ℤ pos 1) } in
    if leb_ℤ b'.success_threshold b'.success_count
    then (if is_state b'.state half_open
        then record b' { failure_count = pos 0; success_count = pos 0; state = closed }
        else b')
    else b'

unfoldable pub report_success : Breaker → Breaker
unfolding success_in
report_success b = success_in b.state b

failure_in : State → Clock → Breaker → Breaker × Clock
unfolding trip
failure_in half_open clock b = trip clock b
failure_in closed clock b =
    let b' = record b { failure_count = int64 (b.failure_count +ℤ pos 1) } in
    if leb_ℤ b'.failure_threshold b'.failure_count then trip clock b' else (b', clock)
failure_in open_ clock b = (b, clock)

unfoldable pub report_failure : Clock → Breaker → Breaker × Clock
unfolding failure_in
report_failure clock b = failure_in b.state clock b

-- Reset
unfoldable pub reset : Breaker → Breaker
reset b = record b {
  state = closed;
  failure_count = pos 0;
  success_count = pos 0;
  open_until = pos 0;
}

-- A call of one of the four methods, and a sequence of such calls.
pub data Call : Type 0 where
  allow_call success_call failure_call reset_call : Call

unfoldable pub step : Call → Clock → Breaker → Breaker × Clock
step allow_call clock b = let (taken, b', clock') = allow clock b in (b', clock')
step success_call clock b = (report_success b, clock)
step failure_call clock b = report_failure clock b
step reset_call clock b = (reset b, clock)

unfoldable pub run : List Call → Clock → Breaker → Breaker
run [] clock b = b
run (c ∷ cs) clock b = let (b', clock') = step c clock b in run cs clock' b'
