-- ===== src/Middleware.antt =====
-- middleware/middleware.go, and what the five adapters share: the effects of a handler, and the chain
-- of checks that each of them writes out.
use rateshield.Prelude.{
  ℕ, ℤ, pos, ltb_ℤ, Bool, false, Option, none, some, List, [], ◌∷◌, ◌++◌, Bytes, if◌then◌else◌,
}
use rateshield.Go.{ok, err}
use rateshield.Go.Float.{Float64, seconds}
use rateshield.Go.Http.{HttpRequest}
use rateshield.Go.Text.{bytes}
use rateshield.Go.Text.Decimal.{format_int}
use rateshield.Go.Time.{Time, Clock, now, later, sub, unix}
use rateshield.Keys.{KeyExtractor}
use rateshield.Limiter.{FailStrategy, fail_open, fail_closed, Result, Checked}
use rateshield.Limiter.Any.{Limiter}
pub mod Stdlib
pub mod Chi
pub mod Gin
pub mod Echo
pub mod Fiber
pub mod Any
pub mod Served
pub mod Verdict
pub mod Quota
pub mod Headers
pub mod Bypass

-- The calls that a handler makes on the response and on the framework, in order.
pub data Effect (F : Type 0) : Type 0 where
  set_header : (name value : Bytes) → Effect F
  write_header : (status : ℕ) → Effect F
  write_body : Bytes → Effect F
  -- http.Error
  http_error : Bytes → (status : ℕ) → Effect F
  -- c.String of Echo, c.Status(...).SendString of Fiber
  send_string : (status : ℕ) → Bytes → Effect F
  -- c.JSON of an object with the fields `error` and `retry_after`
  send_json : (status : ℕ) → Bytes → (retry_after : F) → Effect F
  -- c.AbortWithStatusJSON and c.Abort of Gin
  abort_with_json : (status : ℕ) → Bytes → Effect F
  abort : Effect F
  -- next.ServeHTTP, c.Next, next(c)
  call_next : Effect F

-- What a request leaves: the effects, the store's state and the clock.
abbrev pub Handled : Type 0 → Type 0 → Type 0
Handled F S = List (Effect F) × S × Clock

module _ {F : Type 0} (fl : Float64 F) where
  -- `int64(d.Seconds())`, at least zero where the code says so
  abbrev pub whole_seconds : ℤ → ℤ
  whole_seconds d = fl.to_int (seconds ⦃fl = fl⦄ d)

  abbrev pub reset_delta : Time → Time → ℤ
  reset_delta reset_at t =
      let delta = whole_seconds (sub reset_at t) in if ltb_ℤ delta (pos 0) then pos 0 else delta

  -- the body that two of the default handlers write
  abbrev pub refusal_body : Result → Bytes
  refusal_body res =
      bytes "{\"error\":\"rate limit exceeded\",\"retry_after\":"
      ++ format_int (whole_seconds res.retry_after)
      ++ bytes "}"

module _ {F : Type 0} ⦃fl : Float64 F⦄ where
  -- setRateLimitHeaders; time.Until reads the clock
  unfoldable pub set_rate_limit_headers : Result → Clock → List (Effect F) × Clock
  set_rate_limit_headers res clock =
      let limit_str = format_int res.limit in
      let remaining_str = format_int res.remaining in
      (
        set_header (bytes "X-RateLimit-Limit") limit_str
            ∷ set_header (bytes "X-RateLimit-Remaining") remaining_str
            ∷ set_header (bytes "X-RateLimit-Reset") (format_int (unix res.reset_at))
            ∷ set_header (bytes "RateLimit-Limit") limit_str
            ∷ set_header (bytes "RateLimit-Remaining") remaining_str
            ∷ set_header (bytes "RateLimit-Reset")
                (format_int (reset_delta fl res.reset_at (now clock)))
            ∷ [],
        later clock,
      )

  -- defaultErrorHandler
  unfoldable pub default_error_handler : Result → List (Effect F)
  default_error_handler res =
      set_header (bytes "Content-Type") (bytes "application/json")
      ∷ set_header (bytes "Retry-After") (format_int (whole_seconds fl res.retry_after))
      ∷ write_header 429
      ∷ write_body (refusal_body fl res)
      ∷ []

-- Config
pub record Config (F : Type 0) : Type 1 where
  pub limiter : Limiter F
  pub key_extractor : Option KeyExtractor
  pub error_handler : Option (HttpRequest → Result → List (Effect F))
  pub fail_strategy : FailStrategy
  pub skip : Option (HttpRequest → Bool)

-- `cfg.Skip != nil && cfg.Skip(c)`
abbrev pub skips : {C : Type 0} → Option (C → Bool) → C → Bool
skips none c = false
skips (some skip) c = skip c

-- `if cfg.F == nil { cfg.F = other }`
abbrev pub or_default {ℓ} : {A : Type ℓ} → Option A → A → A
or_default none other = other
or_default (some a) other = a

-- What an adapter does where the chain of checks leaves it a choice.
pub record Adapter (F : Type 0) : Type 0 where
  -- the calls for a store that failed, under FailClosed
  pub failure : List (Effect F)
  pub headers : Result → Clock → List (Effect F) × Clock
  pub refuse : Result → List (Effect F)

module _ {F S : Type 0} (a : Adapter F) where
  -- what follows the call of Allow
  respond : FailStrategy → Checked S → Handled F S
  respond strategy (ok res, st, clock) =
      let (set, clock') = a.headers res clock in
      (set ++ (if res.allowed then call_next ∷ [] else a.refuse res), st, clock')
  respond fail_closed (err e, st, clock) = (a.failure, st, clock)
  respond fail_open (err e, st, clock) = (call_next ∷ [], st, clock)

  -- `if key == "" { next; return }`
  limit_key : FailStrategy → (Bytes → Clock → S → Checked S) → Bytes → Clock → S → Handled F S
  unfolding respond
  limit_key strategy allow [] clock st = (call_next ∷ [], st, clock)
  limit_key strategy allow (c ∷ key) clock st = respond strategy (allow (c ∷ key) clock st)

  -- The chain of checks from Skip on.
  unfoldable pub guarded :
      (skip : Bool)
      → FailStrategy
      → (Bytes → Clock → S → Checked S)
      → Bytes
      → Clock
      → S
      → Handled F S
  unfolding limit_key
  guarded skip strategy allow key clock st =
      if skip then (call_next ∷ [], st, clock) else limit_key strategy allow key clock st
