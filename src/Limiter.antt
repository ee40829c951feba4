-- ===== src/Limiter.antt =====
-- limiter.go, and what the four limiters of limiters.go share: the result of a check, and the guard
-- and the conversion that each of their methods writes out.
use rateshield.Prelude.{ℤ, Bool, Bytes, List, [], ◌∷◌, Option, none, some}
use rateshield.Go.{Error, Outcome, ok, err, invalid_key}
use rateshield.Go.Time.{Time, Duration, Clock}
use rateshield.Store.{EvalResult, Answer}
pub mod TokenBucket
pub mod FixedWindow
pub mod SlidingWindowCounter
pub mod SlidingWindow
pub mod Any
pub mod Promise

pub data FailStrategy : Type 0 where
  fail_open fail_closed : FailStrategy

pub record Result : Type 0 where
  pub allowed : Bool
  pub limit : ℤ
  pub remaining : ℤ
  pub reset_at : Time
  pub retry_after : Duration

-- The result of a check, the backend's state and the clock.
abbrev pub Checked : Type 0 → Type 0
Checked S = Outcome Result × S × Clock

-- `Result{...}` of an evaluation
abbrev pub of_eval : ℤ → EvalResult → Result
of_eval limit res = record {
  allowed = res.allowed;
  limit = limit;
  remaining = res.remaining;
  reset_at = res.reset_at;
  retry_after = res.retry_after;
}

abbrev pub to_result : ℤ → Outcome EvalResult → Outcome Result
to_result limit (ok res) = ok (of_eval limit res)
to_result limit (err e) = err e

-- `if key == "" { return ErrInvalidKey }` before the call of the store
unfoldable pub check_key : {S : Type 0} → ℤ → Bytes → (Clock → S → Answer S) → Clock → S → Checked S
check_key limit [] call clock s = (err invalid_key, s, clock)
check_key limit (c ∷ key) call clock s =
    let (res, s', clock') = call clock s in (to_result limit res, s', clock')

unfoldable pub reset_key : {S : Type 0} → Bytes → (S → Option Error × S) → S → Option Error × S
reset_key [] call s = (some invalid_key, s)
reset_key (c ∷ key) call s = call s
