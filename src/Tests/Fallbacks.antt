-- ===== src/Tests/Fallbacks.antt =====
-- The fallback store at concrete inputs: a primary that fails, or answers, over the memory store.
use rateshield.Prelude.{
  ℤ, pos, ◌+ℤ◌, ◌-ℤ◌, ◌≤ℤ◌, ◌≡◌, refl, arith, int64, true, Option, none, some, List, [], ◌∷◌, All,
}
use rateshield.Go.{Context, Error, Outcome, ok, err, external}
use rateshield.Go.Time.{Clock, now, unix_nano, second, hour, unix_epoch}
use rateshield.Go.Float.{int_float}
use rateshield.Store.{Store, EvalResult, Answer}
use rateshield.Circuit.{Breaker, closed, open_}
use rateshield.Circuit.Invariant.{IsValid}
use rateshield.Memory
use rateshield.Memory.{find}
use rateshield.Memory.Backend.{memory_store}
use rateshield.Fallback.{FallbackState, fallback_store, reset}
use rateshield.Fallback.Failover.{two_tier, evaluations, failing_primary_trips_breaker}
use rateshield.Fallback.Recovery.{recovered_primary_closes_breaker}
use rateshield.Fallback.Masking.{
  Evaluation, fixed_window, token_bucket, answers, IsExcused, primary_errors_stay_hidden,
}
use rateshield.Fallback.Resetting.{reset_reaches_both_stores}

abbrev answer : EvalResult
answer = record { allowed = true; remaining = pos 7; reset_at = unix_epoch; retry_after = pos 0 }

-- a store without a state, with the same outcome of every evaluation, and of Reset and Close
abbrev constant : Outcome EvalResult → Option Error → Store ℤ
constant o e = record {
  S = Unit {0};
  reset = λ ctx key s. (e, s);
  allow_token_bucket = λ ctx key rate capacity n ttl clock s. (o, s, clock);
  allow_fixed_window = λ ctx key limit window n ttl clock s. (o, s, clock);
  allow_sliding_window_counter = λ ctx key limit window n ttl clock s. (o, s, clock);
  allow_sliding_window_log = λ ctx key limit window n ttl clock s. (o, s, clock);
  close = λ s. (e, s);
}

abbrev broken : Store ℤ
broken = constant (err external) (some external)

abbrev working : Store ℤ
working = constant (ok answer) none

abbrev memory : Store ℤ
memory = memory_store int_float

abbrev breaker : Breaker
breaker = record {
  state = closed;
  failure_count = pos 0;
  success_count = pos 0;
  open_until = pos 0;
  failure_threshold = pos 3;
  success_threshold = pos 2;
  cooldown = second;
}

abbrev start : FallbackState (two_tier broken memory true)
start = record { primary = tt; secondary = Memory.new; breaker = breaker; reported = [] }

abbrev opened : FallbackState (two_tier broken memory true)
opened = record start { breaker = record breaker { state = open_; open_until = pos 1 } }

abbrev clock : Clock
clock = λ i. unix_epoch

abbrev call : (s : Store ℤ) → Clock → s.S → Answer s.S
call s = s.allow_fixed_window none (97 ∷ []) (pos 3) second (pos 1) hour

breaker-IsValid : IsValid breaker
breaker-IsValid = ground arith

failing_primary_trips_breaker_example :
    (evaluations broken memory true 3 call clock start).breaker.state ≡ open_
unfolding ◌+ℤ◌
failing_primary_trips_breaker_example =
    failing_primary_trips_breaker broken memory true 3 call (λ c s. (external, refl)) clock start
      breaker-IsValid refl (omega arith)

-- an open breaker in front of a primary that answers again
abbrev cooled : FallbackState (two_tier working memory true)
cooled = record {
  primary = tt;
  secondary = Memory.new;
  breaker = record breaker { state = open_; open_until = pos 1 };
  reported = [];
}

abbrev later_clock : Clock
later_clock = λ i. pos 62135596801000000000

cooldown_over : pos 1 ≤ℤ unix_nano (now later_clock)
unfolding unix_nano int64 ◌-ℤ◌
cooldown_over = omega arith

recovered_primary_closes_breaker_example :
    (evaluations working memory true 2 call later_clock cooled).breaker.state ≡ closed
recovered_primary_closes_breaker_example =
    recovered_primary_closes_breaker working memory true call (λ c s. (answer, refl)) 1 later_clock
      cooled (ground arith) refl cooldown_over

-- an evaluation, and one whose context has ended
abbrev evaluations_of : List (Evaluation ℤ)
evaluations_of =
    fixed_window none (97 ∷ []) (pos 3) second (pos 1) hour
    ∷ token_bucket (some external) (97 ∷ []) (pos 1) (pos 3) (pos 1) hour
    ∷ []

primary_errors_stay_hidden_example :
    All
      (λ (a : Context × Outcome EvalResult). IsExcused a.0 a.1)
      (answers (fallback_store (two_tier broken memory true)) evaluations_of clock start)
primary_errors_stay_hidden_example =
    primary_errors_stay_hidden (some broken) true evaluations_of clock start

reset_reaches_both_stores_example :
    let (res, st') = reset (two_tier broken memory true) none (97 ∷ []) start in
    (res ≡ some external)
    × (st'.primary ≡ tt)
    × (find (97 ∷ []) st'.secondary ≡ none)
    × (st'.breaker ≡ breaker)
    × (st'.reported ≡ external ∷ [])
reset_reaches_both_stores_example = reset_reaches_both_stores broken true none (97 ∷ []) start refl
